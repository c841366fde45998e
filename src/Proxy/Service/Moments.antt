-- ===== src/Proxy/Service/Moments.antt =====
-- The proxy as the handler finds it: after any calls of the entrypoints, and in the middle of one.
use csfleet.Prelude.{ℕ, ◌+◌, ◌%◌, ◌≡◌, List, [], ◌∷◌, if◌then◌else◌}
use csfleet.Proxy.Addr.{Addr, v4}
use csfleet.Proxy.Router
use csfleet.Proxy.Router.{Router, Backend, new_router, u32}
use csfleet.Proxy.Kernel.{Kernel}
use csfleet.Proxy.Service.{
  Proxy, Traffic, meanwhile, add_pool_element, del_pool_element, add_backend_at, remove_backend_at,
  unmanage_port, remove_unbind_at,
}

-- A call of an entrypoint, whole, or traffic. The address is an IPv4 one, since AddBackend panics at
-- another.
pub data Call : Type 0 where
  adds : List Traffic → ℕ → ℕ → Call
  removes : ℕ → Addr → Call
  unbinds : ℕ → Addr → Call
  unmanages : ℕ → Call
  passes : List Traffic → Call

-- No call under way; AddBackend before its first call to the kernel, behind the deletion of the replaced
-- element, or behind the addition of the new one, whatever came of it; a removal before its call to the
-- kernel.
pub data Moment : Type 0 where
  between : Moment
  added cleared installed : List Traffic → ℕ → ℕ → Moment
  removing : ℕ → Addr → Moment

module _ (k : Kernel) where
  open k use {Nft}

  unfoldable pub after_call : Proxy k → Call → Proxy k
  after_call p (adds ts port a) = (add_backend_at k ts p port (v4 a)).0
  after_call p (removes port addr) = (remove_backend_at k p port addr).0
  after_call p (unbinds port addr) = remove_unbind_at k p port addr
  after_call p (unmanages port) = unmanage_port k p port
  after_call p (passes ts) = record p { router = meanwhile ts p.router }

  unfoldable pub run_calls : List Call → Proxy k → Proxy k
  run_calls [] p = p
  run_calls (x ∷ xs) p = run_calls xs (after_call p x)

  abbrev pub half_added : List Traffic → ℕ → Addr → Proxy k → Router
  half_added ts port addr p = meanwhile ts (Router.add_backend p.router port addr).0

  abbrev pub half_cleared : ℕ → Addr → Proxy k → Nft
  half_cleared port addr p =
      let x = (Router.add_backend p.router port addr).1 in
      if x.replaced then del_pool_element k p.nft (x.old_gen % u32) else p.nft

  abbrev pub half_installed : ℕ → Addr → Proxy k → Nft
  half_installed port addr p =
      let x = (Router.add_backend p.router port addr).1 in
      (add_pool_element k (half_cleared port addr p) (x.new_gen % u32) addr).0

  unfoldable pub at_moment : Moment → Proxy k → Proxy k
  at_moment between p = p
  at_moment (added ts port a) p = record { router = half_added ts port (v4 a) p; nft = p.nft }
  at_moment (cleared ts port a) p = record {
    router = half_added ts port (v4 a) p;
    nft = half_cleared port (v4 a) p;
  }
  at_moment (installed ts port a) p = record {
    router = half_added ts port (v4 a) p;
    nft = half_installed port (v4 a) p;
  }
  at_moment (removing port addr) p = record p {
    router = (Router.remove_backend p.router port addr).0;
  }

  abbrev pub IsNewest : Proxy k → Addr → Backend → Type 0
  IsNewest p addr b = (b.ip ≡ addr) × (b.gen ≡ p.router.gen + 1)

  -- The backend that an AddBackend under way is adding: the newest one.
  abbrev pub IsPending : Moment → Proxy k → Backend → Type 0
  IsPending between p b = ⊥
  IsPending (added ts port a) p b = IsNewest p (v4 a) b
  IsPending (cleared ts port a) p b = IsNewest p (v4 a) b
  IsPending (installed ts port a) p b = IsNewest p (v4 a) b
  IsPending (removing port addr) p b = ⊥
