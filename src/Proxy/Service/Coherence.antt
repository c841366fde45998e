-- ===== src/Proxy/Service/Coherence.antt =====
-- The kernel's map and the router agree: every live backend's mark leads to its address.
use mathlib.Core.Option
use csfleet.Proxy.Router.Instances.{
  add_backend_leaves, remove_backend_leaves, replaced-Live, removed-Live, new_gen_lem,
}
use csfleet.Prelude.{
  List, [], ◌∷◌, Bool-cases, ◌∙◌, ℕ, ◌+◌, ◌%◌, ◌<◌, ◌≡◌, ◌≢◌, refl, true, Option, some,
  if◌then◌else◌, arith, inl, inr,
}
use csfleet.Proxy.Addr.{Addr, v4, v6}
use csfleet.Proxy.Router
use csfleet.Proxy.Router.{Router, Backend, u32, u64, next_gen}
use csfleet.Proxy.Router.Effects.{
  backends_at, backends_at-route, gen-route, Live, gen-add_backend, gen-remove_backend,
}
use csfleet.Proxy.Router.Effects.{Live-unmanage}
use csfleet.Proxy.Router.Invariant.{
  route-Inv, sweep-Inv, Inv, add_backend-Inv, remove_backend-Inv, unmanage-Inv,
}
use csfleet.Proxy.Kernel.{Kernel}
use csfleet.Proxy.Service.{
  Proxy, Outcome, ok, err, panics, add_pool_element, del_pool_element, settle, add_backend_at,
  remove_backend_at, unmanage_port, remove_unbind_at, Traffic, packet, swept, after_traffic,
  meanwhile,
}

pub Inv-meanwhile : (ts : List Traffic) (r : Router) → Inv r → Inv (meanwhile ts r)
unfolding meanwhile after_traffic
Inv-meanwhile [] r v = v
Inv-meanwhile (packet c port now ∷ ts) r v =
    Inv-meanwhile ts (Router.route r c port now).0 (route-Inv r c port now v)
Inv-meanwhile (swept ttl now ∷ ts) r v =
    Inv-meanwhile ts (Router.sweep r ttl now) (sweep-Inv r ttl now v)

pub gen-meanwhile : (ts : List Traffic) (r : Router) → (meanwhile ts r).gen ≡ r.gen
unfolding meanwhile after_traffic Router.sweep
gen-meanwhile [] r = refl
gen-meanwhile (packet c port now ∷ ts) r =
    gen-meanwhile ts (Router.route r c port now).0 ∙ gen-route r c port now
gen-meanwhile (swept ttl now ∷ ts) r = gen-meanwhile ts (Router.sweep r ttl now)

pub backends_at-meanwhile :
    (ts : List Traffic) (r : Router) (port : ℕ)
    → backends_at (meanwhile ts r) port ≡ backends_at r port
unfolding meanwhile after_traffic Router.sweep
backends_at-meanwhile [] r port = refl
backends_at-meanwhile (packet c p now ∷ ts) r port =
    backends_at-meanwhile ts (Router.route r c p now).0 port ∙ backends_at-route r c p now port
backends_at-meanwhile (swept ttl now ∷ ts) r port =
    backends_at-meanwhile ts (Router.sweep r ttl now) port

pub Live-meanwhile :
    (ts : List Traffic) (r : Router) (port : ℕ) (b : Backend)
    → Live (meanwhile ts r) port b
    → Live r port b
Live-meanwhile ts r port b l = rw (← backends_at-meanwhile ts r port) l

module _ (k : Kernel) where
  open k use {Nft, opens, element, add_element, del_element, add_ok, add_other, del_other}

  -- Where the execute chain sends a packet with this mark.
  abbrev pub target : Nft → ℕ → Option Addr
  target n mark = Option.map v4 (element n mark)

  pub record Coherent (p : Proxy k) : Type 0 where
    pub inv : Inv p.router
    pub small : p.router.gen < u32
    pub agrees :
        (port : ℕ) (b : Backend) → Live p.router port b → target p.nft (b.gen % u32) ≡ some b.ip

  pub target-add_other :
      (n : Nft) (m : ℕ) (a : Addr) (j : ℕ)
      → m ≢ j
      → target (add_pool_element k n m a).0 j ≡ target n j
  unfolding add_pool_element
  target-add_other n m (v4 a) j h = ground (arith, add_other n m a j h)
  target-add_other n m (v6 a z) j h = ground arith

  target-add_ok :
      (n : Nft) (m : ℕ) (a : Addr)
      → (add_pool_element k n m a).1 ≡ ok
      → target (add_pool_element k n m a).0 m ≡ some a
  unfolding add_pool_element
  target-add_ok n m (v4 a) h = ground (arith, add_ok n m a)
  target-add_ok n m (v6 a z) h = ground arith

  target-del_other : (n : Nft) (m j : ℕ) → m ≢ j → target (del_pool_element k n m) j ≡ target n j
  unfolding del_pool_element
  target-del_other n m j h = ground (arith, del_other n m j h)

  -- The map after AddBackend's first deletion still serves what stays live.
  pub after_del :
      (p : Proxy k) (port : ℕ) (addr : Addr) (port' : ℕ) (b : Backend)
      → Coherent p
      → Live p.router port' b
      → ((Router.add_backend p.router port addr).1.replaced ≡ true
          → b.gen ≢ (Router.add_backend p.router port addr).1.old_gen)
      → let added = (Router.add_backend p.router port addr).1 in
        target
          (if added.replaced then del_pool_element k p.nft (added.old_gen % u32) else p.nft)
          (b.gen % u32)
        ≡ some b.ip
  after_del p port addr port' b c l other =
      let added = (Router.add_backend p.router port addr).1 in
      elim (Bool-cases added.replaced) [
        | inl h ↦
            let below = c.inv.bounded port _ (replaced-Live p.router port addr h) in
            let low = c.inv.bounded port' b l in
            rw h (
              target-del_other p.nft (added.old_gen % u32) (b.gen % u32)
                (λ e. other h (omega (arith, c.small, below, low, e)))
              ∙ c.agrees port' b l)
        | inr h ↦ rw h (c.agrees port' b l)
      ]

  settle-Coherent :
      (r : Router) (port : ℕ) (addr : Addr) (x : Nft × Outcome)
      → Inv r
      → r.gen < u32
      → (x.1 ≡ ok
          → (port' : ℕ) (b : Backend) → Live r port' b
          → target x.0 (b.gen % u32) ≡ some b.ip)
      → ((port' : ℕ) (b : Backend)
          → Live (Router.remove_backend r port addr).0 port' b
          → target x.0 (b.gen % u32) ≡ some b.ip)
      → (settle k r port addr x).1 ≢ panics
      → Coherent (settle k r port addr x).0
  unfolding settle
  settle-Coherent r port addr (n, ok) v small on_ok on_err fine = record {
    inv = v;
    small = small;
    agrees = on_ok refl;
  }
  settle-Coherent r port addr (n, err e) v small on_ok on_err fine = record {
    inv = remove_backend-Inv r port addr v;
    small = omega (arith, gen-remove_backend r port addr);
    agrees = on_err;
  }
  settle-Coherent r port addr (n, panics) v small on_ok on_err fine = absurd (fine refl)

  -- AddBackend keeps every live backend's mark leading to its address, when it succeeds and when the
  -- kernel refuses the element, whatever packets and sweeps come in the middle of it, as long as fewer
  -- than 2^32 generations were handed out and the call does not panic, as it does at an IPv6 address.
  pub add_backend_at-Coherent :
      (ts : List Traffic) (p : Proxy k) (port : ℕ) (addr : Addr)
      → Coherent p
      → p.router.gen + 1 < u32
      → (add_backend_at k ts p port addr).1 ≢ panics
      → Coherent (add_backend_at k ts p port addr).0
  unfolding add_backend_at
  add_backend_at-Coherent ts p port addr c fits fine =
      let (r0, added) = Router.add_backend p.router port addr in
      let r = meanwhile ts r0 in
      let n = if added.replaced then del_pool_element k p.nft (added.old_gen % u32) else p.nft in
      let mark = added.new_gen % u32 in
      let x = add_pool_element k n mark addr in
      let v = Inv-meanwhile ts r0 (add_backend-Inv p.router port addr (omega arith) c.inv) in
      let fresh = new_gen_lem p.router port addr in
      let kept : (port' : ℕ) (b : Backend)
          → Live p.router port' b
          → (added.replaced ≡ true → b.gen ≢ added.old_gen)
          → target x.0 (b.gen % u32) ≡ some b.ip =
        λ port' b l other.
          target-add_other n mark addr (b.gen % u32)
            (λ e. omega (arith, fresh, c.inv.bounded port' b l, e))
          ∙ after_del p port addr port' b c l other in
      settle-Coherent r port addr x v
        (omega (arith, gen-add_backend p.router port addr, gen-meanwhile ts r0))
        (λ done port' b l.
          elim (add_backend_leaves p.router port addr port' b c.inv (omega arith)
            (Live-meanwhile ts r0 port' b l)) [
              | inl (_, i, g) ↦
                  let same : b.gen % u32 ≡ mark = omega (arith, fresh, g) in
                  rw (same, i) (target-add_ok n mark addr done)
              | inr (l0, other) ↦ kept port' b l0 other
            ])
        (λ port' b l.
          let (l1, elsewhere, _) = remove_backend_leaves r port addr port' b v l in
          elim (add_backend_leaves p.router port addr port' b c.inv (omega arith)
            (Live-meanwhile ts r0 port' b l1)) [
              | inl (q, i, _) ↦ absurd (elsewhere q i)
              | inr (l0, other) ↦ kept port' b l0 other
            ])
        fine

  -- Removing a backend keeps every live backend's mark leading to its address, whether or not the
  -- kernel deletes the removed one's element.
  pub remove_backend_at-Coherent :
      (p : Proxy k) (port : ℕ) (addr : Addr)
      → Coherent p
      → Coherent (remove_backend_at k p port addr).0
  unfolding remove_backend_at
  remove_backend_at-Coherent p port addr c =
      let (r, removed) = Router.remove_backend p.router port addr in
      record {
        inv = remove_backend-Inv p.router port addr c.inv;
        small = omega (arith, c.small, gen-remove_backend p.router port addr);
        agrees = λ port' b l.
            let (l0, _, other) = remove_backend_leaves p.router port addr port' b c.inv l in
            let low = c.inv.bounded port' b l0 in
            elim (Bool-cases removed.ok) [
              | inl h ↦
                  let below = c.inv.bounded port _ (removed-Live p.router port addr h) in
                  rw h (
                    target-del_other p.nft (removed.gen % u32) (b.gen % u32)
                      (λ e. other h (omega (arith, c.small, below, low, e)))
                    ∙ c.agrees port' b l0)
              | inr h ↦ rw h (c.agrees port' b l0)
            ];
      }

  pub unmanage_port-Coherent :
      (p : Proxy k) (port : ℕ) → Coherent p → Coherent (unmanage_port k p port)
  unfolding unmanage_port
  unmanage_port-Coherent p port c = record {
    inv = unmanage-Inv p.router port c.inv;
    small = unfold Router.unmanage in c.small;
    agrees = λ port' b l. c.agrees port' b (Live-unmanage p.router port port' b l);
  }

  -- RemoveBackendMaybeUnbind keeps every live backend's mark leading to its address, whether or not it
  -- gives the port back.
  pub remove_unbind_at-Coherent :
      (p : Proxy k) (port : ℕ) (addr : Addr)
      → Coherent p
      → Coherent (remove_unbind_at k p port addr)
  unfolding remove_unbind_at
  remove_unbind_at-Coherent p port addr c =
      let (q, drained) = remove_backend_at k p port addr in
      let after = remove_backend_at-Coherent p port addr c in
      elim (Bool-cases drained) [
        | inl h ↦ rw h (unmanage_port-Coherent q port after)
        | inr h ↦ rw h after
      ]
