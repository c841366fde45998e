-- ===== src/Fleet/Routing.antt =====
-- The worker's calls on the proxy's router: orchestration/fleet/worker.go and
-- orchestration/proxy/router.go together.
use csfleet.Prelude.{
  ℕ, ◌≡◌, ◌≢◌, refl, ap, sym, ◌∙◌, Bool, true, false, List, [], ◌∷◌, ◌++◌, Option, none, some,
  String, ite, arith, ◌==◌, if◌then◌else◌,
}
use csfleet.Database.Rows.{Hours}
use csfleet.Proxy.Addr.{Addr, Addr-discrete}
use csfleet.Proxy.Router.{
  Router, Backend, find, bump, cut, add_backend, remove_backend, unmanage, new_router, next_gen,
}
use csfleet.Proxy.Router.Backends.{
  DistinctIps, NotIn-cut, find-NotIn, find-bump, find-bump_other, find-cut_other, find-append_other,
  find_append, bump-none, cut-DistinctIps, left_by,
}
use csfleet.Proxy.Router.Effects.{backends_at, add_backend-DistinctIps}
use csfleet.Fleet.Services.{
  Event, History, signalled, flushed, started, start_failed, added, removed, removed_unbinding,
  stopped, unmanaged, persisted, retry_after, Services,
}
use csfleet.Fleet.Worker.{Worker, pending, running, run}
use csfleet.Fleet.Worker.Backing.{is_backed, IsBacked, run-IsBacked}

abbrev is_some : {A : Type 0} → Option A → Bool
is_some none = false
is_some (some a) = true

-- The router has a backend at the address behind the port.
abbrev pub routes : Router → ℕ → Addr → Bool
routes r q j = is_some (find j (backends_at r q))

-- The backends of a pool after addBackend.
abbrev added_to : Addr → ℕ → List Backend → List Backend
added_to a g bs = elim (bump a g bs) [
  | none ↦ bs ++ record { ip = a; gen = g } ∷ []
  | some (old, rest) ↦ rest
]

backends_at-add_backend :
    (r : Router) (p : ℕ) (a : Addr) (q : ℕ)
    → (p ≡ q → backends_at (add_backend r p a).0 q ≡ added_to a (next_gen r) (backends_at r p))
      × (p ≢ q → backends_at (add_backend r p a).0 q ≡ backends_at r q)
unfolding add_backend
backends_at-add_backend r p a q = ground arith

find-added_to :
    (a j : Addr) (g : ℕ) (bs : List Backend)
    → (a ≡ j → is_some (find j (added_to a g bs)) ≡ true)
      × (a ≢ j → find j (added_to a g bs) ≡ find j bs)
find-added_to a j g bs = ground (
  arith,
  find-bump a g bs,
  bump-none a g bs,
  find_append a g bs,
  find-bump_other a j g bs,
  find-append_other j (record { ip = a; gen = g }) bs,
)

routes-add_backend :
    (r : Router) (p : ℕ) (a : Addr) (q : ℕ) (j : Addr)
    → routes (add_backend r p a).0 q j
      ≡ (if p == q then ite (Addr-discrete a j) true (routes r q j) else routes r q j)
routes-add_backend r p a q j =
    ground
      (arith, backends_at-add_backend r p a q, find-added_to a j (next_gen r) (backends_at r p))

backends_at-remove_backend :
    (r : Router) (p : ℕ) (a : Addr) (q : ℕ)
    → (p ≡ q
        → backends_at (remove_backend r p a).0 q
          ≡ left_by (backends_at r p) (cut a (backends_at r p)))
      × (p ≢ q → backends_at (remove_backend r p a).0 q ≡ backends_at r q)
unfolding remove_backend cut
backends_at-remove_backend r p a q = ground arith

routes-remove_backend :
    (r : Router) (p : ℕ) (a : Addr) (q : ℕ) (j : Addr)
    → DistinctIps (backends_at r p)
    → routes (remove_backend r p a).0 q j
      ≡ (if p == q then ite (Addr-discrete a j) false (routes r q j) else routes r q j)
routes-remove_backend r p a q j d = ground (
  arith,
  backends_at-remove_backend r p a q,
  find-NotIn a (left_by (backends_at r p) (cut a (backends_at r p)))
      (NotIn-cut a (backends_at r p) d),
  find-cut_other a j (backends_at r p),
)

remove_backend-DistinctIps :
    (r : Router) (p : ℕ) (a : Addr) (q : ℕ)
    → DistinctIps (backends_at r p)
    → DistinctIps (backends_at r q)
    → DistinctIps (backends_at (remove_backend r p a).0 q)
remove_backend-DistinctIps r p a q d e =
    ground (arith, backends_at-remove_backend r p a q, cut-DistinctIps a (backends_at r p) d)

routes-unmanage :
    (r : Router) (p q : ℕ) (j : Addr)
    → routes (unmanage r p) q j ≡ (if p == q then false else routes r q j)
unfolding unmanage find
routes-unmanage r p q j = ground arith

unmanage-DistinctIps :
    (r : Router) (p q : ℕ)
    → DistinctIps (backends_at r q)
    → DistinctIps (backends_at (unmanage r p) q)
unfolding unmanage
unmanage-DistinctIps r p q d = ground arith

routes-drained :
    (r : Router) (p : ℕ) (a j : Addr)
    → (remove_backend r p a).1.drained ≡ true
    → routes (remove_backend r p a).0 p j ≡ false
unfolding remove_backend find
routes-drained r p a j e = ground arith

-- `addr` is the address that ParseAddr and Unmap give for a text.
module _ (addr : String → Addr) where
  -- RemoveBackendMaybeUnbind on the router.
  abbrev remove_unbinding : Router → ℕ → Addr → Router
  remove_unbinding r p a =
      let q = remove_backend r p a in if q.1.drained then unmanage q.0 p else q.0

  -- What a call does to the router. An AddBackend that fails has added the backend and removed it.
  abbrev pub apply : Event → Router → Router
  apply (added p i true) r = (add_backend r p (addr i)).0
  apply (added p i false) r = (remove_backend (add_backend r p (addr i)).0 p (addr i)).0
  apply (removed p i) r = (remove_backend r p (addr i)).0
  apply (removed_unbinding p i) r = remove_unbinding r p (addr i)
  apply (unmanaged p) r = unmanage r p
  apply _ r = r

  -- The router after the calls, on which no one else has called it.
  abbrev pub replay : History → Router
  replay [] = new_router
  replay (e ∷ l) = apply e (replay l)

  module _ (p : ℕ) (i : String) (only_i : (j : String) → addr j ≡ addr i → j ≡ i) where
    abbrev DistinctAt : Router → Type 0
    DistinctAt r = (q : ℕ) → DistinctIps (backends_at r q)

    apply-DistinctAt : (e : Event) (r : Router) → DistinctAt r → DistinctAt (apply e r)
    apply-DistinctAt (added q j true) r d = λ x. add_backend-DistinctIps r q (addr j) x (d q) (d x)
    apply-DistinctAt (added q j false) r d = λ x.
        let d' : DistinctAt (add_backend r q (addr j)).0 =
          λ y. add_backend-DistinctIps r q (addr j) y (d q) (d y) in
        remove_backend-DistinctIps (add_backend r q (addr j)).0 q (addr j) x (d' q) (d' x)
    apply-DistinctAt (removed q j) r d = λ x. remove_backend-DistinctIps r q (addr j) x (d q) (d x)
    apply-DistinctAt (removed_unbinding q j) r d = λ x. ground (
      arith,
      remove_backend-DistinctIps r q (addr j) x (d q) (d x),
      unmanage-DistinctIps (remove_backend r q (addr j)).0 q x,
    )
    apply-DistinctAt (unmanaged q) r d = λ x. unmanage-DistinctIps r q x (d x)
    apply-DistinctAt signalled r d = d
    apply-DistinctAt (flushed j) r d = d
    apply-DistinctAt (started x) r d = d
    apply-DistinctAt start_failed r d = d
    apply-DistinctAt (stopped x) r d = d
    apply-DistinctAt (persisted g) r d = d
    apply-DistinctAt (retry_after t) r d = d

    replay-DistinctAt : (l : History) → DistinctAt (replay l)
    replay-DistinctAt [] = λ q. tt
    replay-DistinctAt (e ∷ l) = apply-DistinctAt e (replay l) (replay-DistinctAt l)

    same_addr : (j : String) → (addr j ≡ addr i → j ≡ i) × (j ≡ i → addr j ≡ addr i)
    same_addr j = (only_i j, λ e. ap addr e)

    routes-replay : (l : History) → routes (replay l) p (addr i) ≡ is_backed l p i
    unfolding is_backed find
    routes-replay [] = refl
    routes-replay (added q j true ∷ l) =
        ground
          (arith, routes-add_backend (replay l) q (addr j) p (addr i), routes-replay l, same_addr j)
    routes-replay (added q j false ∷ l) = ground (
      arith,
      routes-add_backend (replay l) q (addr j) p (addr i),
      routes-remove_backend (add_backend (replay l) q (addr j)).0 q (addr j) p (addr i)
          (apply-DistinctAt (added q j true) (replay l) (replay-DistinctAt l) q),
      routes-replay l,
      same_addr j,
    )
    routes-replay (removed q j ∷ l) = ground (
      arith,
      routes-remove_backend (replay l) q (addr j) p (addr i) (replay-DistinctAt l q),
      routes-replay l,
      same_addr j,
    )
    routes-replay (removed_unbinding q j ∷ l) = ground (
      arith,
      routes-remove_backend (replay l) q (addr j) p (addr i) (replay-DistinctAt l q),
      routes-unmanage (remove_backend (replay l) q (addr j)).0 q p (addr i),
      routes-drained (replay l) q (addr j) (addr i),
      routes-replay l,
      same_addr j,
    )
    routes-replay (unmanaged q ∷ l) =
        ground (arith, routes-unmanage (replay l) q p (addr i), routes-replay l)
    routes-replay (signalled ∷ l) = routes-replay l
    routes-replay (flushed j ∷ l) = routes-replay l
    routes-replay (started x ∷ l) = routes-replay l
    routes-replay (start_failed ∷ l) = routes-replay l
    routes-replay (stopped x ∷ l) = routes-replay l
    routes-replay (persisted g ∷ l) = routes-replay l
    routes-replay (retry_after t ∷ l) = routes-replay l

    module _ {h : Hours} (s : Services h) where
      -- The router forwards clients of the port to the address exactly if the worker is running, and
      -- they are its own.
      pub record IsRouted (w : Worker h) : Type 0 where
        pub only :
            routes (replay w.history) p (addr i) ≡ true
            → (w.phase ≡ running) × (p ≡ w.port) × (i ≡ w.ip)
        pub stands :
            w.phase ≡ running → p ≡ w.port → i ≡ w.ip → routes (replay w.history) p (addr i) ≡ true

      -- The worker and the router together: after any schedule of wakes of a new worker, and whatever
      -- the store, docker and the proxy answer, the router that its calls have made has a backend at an
      -- address behind a port exactly if the worker is running and they are its own.
      -- So no restart, port change, crash or stop leaves an old backend in a pool, and a running server
      -- is always in its own. Nothing else calls the router, and no other text is the same address.
      pub run-IsRouted :
          (wakes : List Bool) (w : Worker h)
          → w.phase ≡ pending
          → w.history ≡ []
          → IsRouted (run s wakes w)
      run-IsRouted wakes w e n =
          let v : IsBacked p i (run s wakes w) = run-IsBacked p i s wakes w e n in
          let same = routes-replay (run s wakes w).history in
          record { only = λ q. v.only (sym same ∙ q); stands = λ a b c. same ∙ v.stands a b c }
