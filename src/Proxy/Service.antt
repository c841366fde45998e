-- ===== src/Proxy/Service.antt =====
-- orchestration/proxy/proxy.go, and the @pool element operations of orchestration/proxy/nftables.go:
-- the backend entrypoints, which keep the kernel's DNAT map in step with the router. `opMu` keeps the
-- entrypoints apart from each other, but not from the packets and sweeps, which only take the router's
-- lock.
pub mod Coherence
pub mod Moments
pub mod Agreement
use csfleet.Prelude.{
  List, [], ◌∷◌, ℕ, ◌%◌, Bool, true, false, Option, none, some, String, if◌then◌else◌,
}
use csfleet.Proxy.Addr.{AddrPort, Addr, v4, v6, unmap}
use csfleet.Proxy.Router
use csfleet.Proxy.Router.{Router, Added, Removed, u32}
use csfleet.Proxy.Kernel.{Kernel}

pub data Error : Type 0 where
  bad_ip add_element_failed : Error

-- `panics` is a Go panic: netip.Addr.As4 of an IPv6 address.
pub data Outcome : Type 0 where
  ok : Outcome
  err : Error → Outcome
  panics : Outcome

-- What changes the router without opMu: a packet that the handler routes, and a sweep.
pub data Traffic : Type 0 where
  packet : AddrPort → ℕ → ℕ → Traffic
  swept : ℕ → ℕ → Traffic

unfoldable pub after_traffic : Router → Traffic → Router
after_traffic r (packet client port now) = (Router.route r client port now).0
after_traffic r (swept ttl now) = Router.sweep r ttl now

unfoldable pub meanwhile : List Traffic → Router → Router
unfolding after_traffic
meanwhile [] r = r
meanwhile (t ∷ ts) r = meanwhile ts (after_traffic r t)

module _ (k : Kernel) where
  open k use {Nft, opens, add_element, del_element}

  pub record Proxy : Type 0 where
    pub router : Router
    pub nft : Nft

  -- addPoolElement
  unfoldable pub add_pool_element : Nft → ℕ → Addr → Nft × Outcome
  add_pool_element n mark (v4 a) =
      if opens n
      then (
        (add_element n mark a).0,
        if (add_element n mark a).1 then ok else err add_element_failed,
      )
      else (n, err add_element_failed)
  add_pool_element n mark (v6 a zone) = if opens n then (n, panics) else (n, err add_element_failed)

  -- delPoolElement; its callers only log the error.
  unfoldable pub del_pool_element : Nft → ℕ → Nft
  del_pool_element n mark = if opens n then (del_element n mark).0 else n

  -- The end of AddBackend: a failed element takes the backend out of the router again.
  settle : Router → ℕ → Addr → Nft × Outcome → Proxy × Outcome
  settle r port addr (n, ok) = (record { router = r; nft = n }, ok)
  settle r port addr (n, err e) =
      (record { router = (Router.remove_backend r port addr).0; nft = n }, err e)
  settle r port addr (n, panics) = (record { router = r; nft = n }, panics)

  -- AddBackend, past the parsing of the address, with the traffic `ts` between its step on the router and
  -- its end. The traffic does not touch the kernel's map, nor the calls to the kernel the router.
  unfoldable pub add_backend_at : List Traffic → Proxy → ℕ → Addr → Proxy × Outcome
  unfolding settle meanwhile
  add_backend_at ts p port addr =
      let (r, added) = Router.add_backend p.router port addr in
      let n = if added.replaced then del_pool_element p.nft (added.old_gen % u32) else p.nft in
      settle (meanwhile ts r) port addr (add_pool_element n (added.new_gen % u32) addr)

  -- removeBackendLocked, past the parsing: the new proxy, and whether the pool is now empty.
  unfoldable pub remove_backend_at : Proxy → ℕ → Addr → Proxy × Bool
  remove_backend_at p port addr =
      let (r, removed) = Router.remove_backend p.router port addr in
      (
        record {
          router = r;
          nft = if removed.ok then del_pool_element p.nft (removed.gen % u32) else p.nft;
        },
        removed.drained,
      )

  -- Unmanage
  unfoldable pub unmanage_port : Proxy → ℕ → Proxy
  unmanage_port p port = record p { router = Router.unmanage p.router port }

  -- The end of RemoveBackendMaybeUnbind: a drained port is unmanaged.
  unfoldable pub remove_unbind_at : Proxy → ℕ → Addr → Proxy
  remove_unbind_at p port addr =
      let (q, drained) = remove_backend_at p port addr in
      if drained then unmanage_port q port else q

  -- netip.ParseAddr.
  module _ (parse_addr : String → Option Addr) where
    unfoldable pub add_backend : List Traffic → Proxy → ℕ → String → Proxy × Outcome
    add_backend ts p port ip = elim (parse_addr ip) [
      | none ↦ (p, err bad_ip)
      | some a ↦ add_backend_at ts p port (unmap a)
    ]

    -- RemoveBackendDoNotUnbind
    unfoldable pub remove_do_not_unbind : Proxy → ℕ → String → Proxy × Outcome
    remove_do_not_unbind p port ip = elim (parse_addr ip) [
      | none ↦ (p, err bad_ip)
      | some a ↦ ((remove_backend_at p port (unmap a)).0, ok)
    ]

    -- RemoveBackendMaybeUnbind
    unfoldable pub remove_maybe_unbind : Proxy → ℕ → String → Proxy × Outcome
    remove_maybe_unbind p port ip = elim (parse_addr ip) [
      | none ↦ (p, err bad_ip)
      | some a ↦ (remove_unbind_at p port (unmap a), ok)
    ]
