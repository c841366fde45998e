-- ===== src/Proxy/Service/Agreement.antt =====
-- In any history of whole calls the kernel's map agrees with the router between the calls, and in the
-- middle of one but for the backend that is being added.
use csfleet.Prelude.{
  true, ◌∙◌, ℕ, ◌+◌, ◌%◌, ◌≤◌, ◌<◌, ◌≡◌, ◌≢◌, ◌⊎◌, refl, inl, inr, List, [], ◌∷◌, some, arith,
  length,
}
use csfleet.Proxy.Addr.{Addr, v4}
use csfleet.Proxy.Router
use csfleet.Proxy.Router.{Router, Backend, new_router, u32}
use csfleet.Proxy.Router.Effects.{Live, Live-remove_backend, gen-add_backend, gen-remove_backend}
use csfleet.Proxy.Router.Invariant.{Inv, add_backend-Inv, remove_backend-Inv}
use csfleet.Proxy.Router.Instances.{add_backend_leaves, new_gen_lem}
use csfleet.Proxy.Router.History.{run-Inv, run}
use csfleet.Proxy.Kernel.{Kernel}
use csfleet.Proxy.Service.{
  Proxy, Outcome, ok, err, panics, Traffic, meanwhile, add_pool_element, settle, add_backend_at,
  remove_backend_at, unmanage_port, remove_unbind_at,
}
use csfleet.Proxy.Service.Coherence.{
  Coherent, target, Inv-meanwhile, gen-meanwhile, Live-meanwhile, target-add_other, after_del,
  add_backend_at-Coherent, remove_backend_at-Coherent, remove_unbind_at-Coherent,
  unmanage_port-Coherent,
}
use csfleet.Proxy.Service.Moments.{
  Call, adds, removes, unbinds, unmanages, passes, Moment, between, added, cleared, installed,
  removing, IsNewest, IsPending, after_call, run_calls, half_added, half_cleared, half_installed,
  at_moment,
}

module _ (k : Kernel) where
  open k use {Nft}

  pool-panics : (n : Nft) (m a : ℕ) → (add_pool_element k n m (v4 a)).1 ≢ panics
  unfolding add_pool_element
  pool-panics n m a e = ground arith

  settle-panics :
      (r : Router) (port : ℕ) (addr : Addr) (x : Nft × Outcome)
      → x.1 ≢ panics
      → (settle k r port addr x).1 ≢ panics
  unfolding settle
  settle-panics r port addr (n, ok) f e = cc
  settle-panics r port addr (n, err m) f e = cc
  settle-panics r port addr (n, panics) f e = f refl

  settle-gen :
      (r : Router) (port : ℕ) (addr : Addr) (x : Nft × Outcome)
      → (settle k r port addr x).0.router.gen ≡ r.gen
  unfolding settle
  settle-gen r port addr (n, ok) = refl
  settle-gen r port addr (n, err m) = gen-remove_backend r port addr
  settle-gen r port addr (n, panics) = refl

  gen-add_at :
      (ts : List Traffic) (p : Proxy k) (port : ℕ) (addr : Addr)
      → (add_backend_at k ts p port addr).0.router.gen
        ≡ (Router.add_backend p.router port addr).0.gen
  unfolding add_backend_at
  gen-add_at ts p port addr =
      let (r, x) = Router.add_backend p.router port addr in
      settle-gen (meanwhile ts r) port addr
        (add_pool_element k (half_cleared k port addr p) (x.new_gen % u32) addr)
      ∙ gen-meanwhile ts r

  add_at-fine :
      (ts : List Traffic) (p : Proxy k) (port a : ℕ)
      → (add_backend_at k ts p port (v4 a)).1 ≢ panics
  unfolding add_backend_at
  add_at-fine ts p port a =
      let (r, x) = Router.add_backend p.router port (v4 a) in
      settle-panics (meanwhile ts r) port (v4 a)
        (add_pool_element k (half_cleared k port (v4 a) p) (x.new_gen % u32) (v4 a))
        (pool-panics (half_cleared k port (v4 a) p) (x.new_gen % u32) a)

  gen-remove_at :
      (p : Proxy k) (port : ℕ) (addr : Addr)
      → (remove_backend_at k p port addr).0.router.gen ≡ p.router.gen
  unfolding remove_backend_at
  gen-remove_at p port addr = gen-remove_backend p.router port addr

  gen-remove_unbind_at :
      (p : Proxy k) (port : ℕ) (addr : Addr)
      → (remove_unbind_at k p port addr).router.gen ≡ p.router.gen
  unfolding remove_unbind_at unmanage_port Router.unmanage
  gen-remove_unbind_at p port addr = ground (arith, gen-remove_at p port addr)

  gen-unmanage_at : (p : Proxy k) (port : ℕ) → (unmanage_port k p port).router.gen ≡ p.router.gen
  unfolding unmanage_port Router.unmanage
  gen-unmanage_at p port = refl

  abbrev Stays : ℕ → Proxy k → Type 0
  Stays n p = Coherent k p × (p.router.gen ≤ n)

  after_call-Stays :
      (x : Call) (p : Proxy k)
      → p.router.gen + 1 < u32
      → Coherent k p
      → Stays (p.router.gen + 1) (after_call k p x)
  unfolding after_call
  after_call-Stays (adds ts port a) p fits c = (
    add_backend_at-Coherent k ts p port (v4 a) c fits (add_at-fine ts p port a),
    omega (arith, gen-add_at ts p port (v4 a), gen-add_backend p.router port (v4 a)),
  )
  after_call-Stays (removes port addr) p fits c =
      (remove_backend_at-Coherent k p port addr c, omega (arith, gen-remove_at p port addr))
  after_call-Stays (unbinds port addr) p fits c =
      (remove_unbind_at-Coherent k p port addr c, omega (arith, gen-remove_unbind_at p port addr))
  after_call-Stays (unmanages port) p fits c =
      (unmanage_port-Coherent k p port c, omega (arith, gen-unmanage_at p port))
  after_call-Stays (passes ts) p fits c = (
    record {
      inv = Inv-meanwhile ts p.router c.inv;
      small = omega (arith, gen-meanwhile ts p.router, c.small);
      agrees = λ port b l. c.agrees port b (Live-meanwhile ts p.router port b l);
    },
    omega (arith, gen-meanwhile ts p.router),
  )

  pub run_calls-Stays :
      (xs : List Call) (p : Proxy k)
      → p.router.gen + length xs < u32
      → Coherent k p
      → Coherent k (run_calls k xs p) × ((run_calls k xs p).router.gen ≤ p.router.gen + length xs)
  unfolding run_calls
  run_calls-Stays [] p fits c = (c, omega arith)
  run_calls-Stays (x ∷ xs) p fits c =
      let (c', g) = after_call-Stays x p (omega arith) c in
      let (c'', g') = run_calls-Stays xs (after_call k p x) (omega (arith, g)) c' in
      (c'', omega (arith, g, g'))

  -- The router before any call, with whatever is in the kernel's map.
  pub fresh-Coherent : (n : Nft) → Coherent k (record { router = new_router; nft = n })
  unfolding run
  fresh-Coherent n = record {
    inv = run-Inv [] (omega arith);
    small = omega arith;
    agrees = λ port b l. absurd l;
  }

  -- Every live backend's mark leads to its address, but for the one under way.
  pub record AllBut (m : Moment) (p q : Proxy k) : Type 0 where
    pub inv : Inv q.router
    pub small : q.router.gen < u32
    pub agrees :
        (port : ℕ) (b : Backend)
        → Live q.router port b
        → (target k q.nft (b.gen % u32) ≡ some b.ip) ⊎ IsPending k m p b

  half-AllBut :
      (m : Moment) (ts : List Traffic) (port : ℕ) (addr : Addr) (p : Proxy k) (n : Nft)
      → p.router.gen + 1 < u32
      → Coherent k p
      → ((b : Backend) → IsNewest k p addr b → IsPending k m p b)
      → ((port' : ℕ) (b : Backend)
          → Live p.router port' b
          → ((Router.add_backend p.router port addr).1.replaced ≡ true
              → b.gen ≢ (Router.add_backend p.router port addr).1.old_gen)
          → target k n (b.gen % u32) ≡ some b.ip)
      → AllBut m p (record { router = half_added k ts port addr p; nft = n })
  half-AllBut m ts port addr p n fits c newest kept =
      let r = (Router.add_backend p.router port addr).0 in
      record {
        inv = Inv-meanwhile ts r (add_backend-Inv p.router port addr (omega arith) c.inv);
        small = omega (arith, gen-add_backend p.router port addr, gen-meanwhile ts r);
        agrees = λ port' b l.
            elim (add_backend_leaves p.router port addr port' b c.inv (omega arith)
              (Live-meanwhile ts r port' b l)) [
                | inl (_, i, g) ↦ inr (newest b (i, omega (arith, g)))
                | inr (l0, other) ↦ inl (kept port' b l0 other)
              ];
      }

  installed-target :
      (port : ℕ) (addr : Addr) (p : Proxy k) (port' : ℕ) (b : Backend)
      → p.router.gen + 1 < u32
      → Coherent k p
      → Live p.router port' b
      → ((Router.add_backend p.router port addr).1.replaced ≡ true
          → b.gen ≢ (Router.add_backend p.router port addr).1.old_gen)
      → target k (half_installed k port addr p) (b.gen % u32) ≡ some b.ip
  installed-target port addr p port' b fits c l other =
      let x = (Router.add_backend p.router port addr).1 in
      let fresh = new_gen_lem p.router port addr in
      target-add_other k (half_cleared k port addr p) (x.new_gen % u32) addr (b.gen % u32)
        (λ e. omega (arith, fresh, c.inv.bounded port' b l, e))
      ∙ after_del k p port addr port' b c l other

  pub at_moment-AllBut :
      (m : Moment) (p : Proxy k)
      → p.router.gen + 1 < u32
      → Coherent k p
      → AllBut m p (at_moment k m p)
  unfolding at_moment
  at_moment-AllBut between p fits c = record {
    inv = c.inv;
    small = c.small;
    agrees = λ port b l. inl (c.agrees port b l);
  }
  at_moment-AllBut (added ts port a) p fits c =
      half-AllBut (added ts port a) ts port (v4 a) p p.nft fits c (λ b i. i)
        (λ port' b l other. c.agrees port' b l)
  at_moment-AllBut (cleared ts port a) p fits c =
      half-AllBut (cleared ts port a) ts port (v4 a) p (half_cleared k port (v4 a) p) fits c
        (λ b i. i) (λ port' b l other. after_del k p port (v4 a) port' b c l other)
  at_moment-AllBut (installed ts port a) p fits c =
      half-AllBut (installed ts port a) ts port (v4 a) p (half_installed k port (v4 a) p) fits c
        (λ b i. i) (λ port' b l other. installed-target port (v4 a) p port' b fits c l other)
  at_moment-AllBut (removing port addr) p fits c = record {
    inv = remove_backend-Inv p.router port addr c.inv;
    small = omega (arith, c.small, gen-remove_backend p.router port addr);
    agrees = λ port' b l. inl (c.agrees port' b (Live-remove_backend p.router port addr port' b l));
  }
