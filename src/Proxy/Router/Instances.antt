-- ===== src/Proxy/Router/Instances.antt =====
-- Which instance addBackend and removeBackend report, and what stays live beside it.
use mathlib.Core.Path.{subst}
use csfleet.Prelude.{
  ℕ, ◌+◌, ◌<◌, ◌≡◌, ◌≢◌, ◌⊎◌, inl, inr, true, List, [], ◌∷◌, Option, none, some, arith, Has,
}
use csfleet.Proxy.Addr.{Addr}
use csfleet.Proxy.Router.{Router, Backend, bump, cut, add_backend, remove_backend, next_gen, u64}
use csfleet.Proxy.Router.Backends.{NotIn-Has, NotIn-cut}
use csfleet.Proxy.Router.Effects.{Live, backends_at, Live-add_backend, Live-remove_backend}
use csfleet.Proxy.Router.Invariant.{Inv, add_backend-Inv}
use csfleet.Proxy.Router.Orphans.{Live-add_backend_self}

-- The generation that a loop reports is that of a backend at the address.
abbrev Reports : Addr → List Backend → Option (ℕ × List Backend) → Type 0
Reports ip bs none = Unit
Reports ip bs (some (g, rest)) = Has (record { ip = ip; gen = g }) bs

bump-Reports : (ip : Addr) (g : ℕ) (bs : List Backend) → Reports ip bs (bump ip g bs)
unfolding bump
bump-Reports ip g [] = tt
bump-Reports ip g (x ∷ bs) = ground (arith, bump-Reports ip g bs)

cut-Reports : (ip : Addr) (bs : List Backend) → Reports ip bs (cut ip bs)
unfolding cut
cut-Reports ip [] = tt
cut-Reports ip (x ∷ bs) = ground (arith, cut-Reports ip bs)

pub new_gen_lem :
    (r : Router) (port : ℕ) (ip : Addr) → (add_backend r port ip).1.new_gen ≡ next_gen r
unfolding add_backend
new_gen_lem r port ip = ground arith

pub replaced-Live :
    (r : Router) (port : ℕ) (ip : Addr)
    → (add_backend r port ip).1.replaced ≡ true
    → Live r port (record { ip = ip; gen = (add_backend r port ip).1.old_gen })
unfolding add_backend
replaced-Live r port ip h = ground (arith, bump-Reports ip (next_gen r) (backends_at r port))

pub removed-Live :
    (r : Router) (port : ℕ) (ip : Addr)
    → (remove_backend r port ip).1.ok ≡ true
    → Live r port (record { ip = ip; gen = (remove_backend r port ip).1.gen })
unfolding remove_backend
removed-Live r port ip h = ground (arith, cut-Reports ip (backends_at r port))

remove_backend-NotIn :
    (r : Router) (port : ℕ) (ip : Addr) (b : Backend)
    → Inv r
    → Live (remove_backend r port ip).0 port b
    → b.ip ≢ ip
unfolding remove_backend
remove_backend-NotIn r port ip b v l =
    let gone = NotIn-cut ip (backends_at r port) (v.distinct port) in
    ground (arith, gone, NotIn-Has ip b (backends_at (remove_backend r port ip).0 port))

-- After addBackend a live backend is the new instance, or was live before and is not the instance
-- that was replaced.
pub add_backend_leaves :
    (r : Router) (port : ℕ) (ip : Addr) (port' : ℕ) (b : Backend)
    → Inv r
    → r.gen + 1 < u64
    → Live (add_backend r port ip).0 port' b
    → ((port' ≡ port) × (b.ip ≡ ip) × (b.gen ≡ next_gen r))
      ⊎ (Live r port' b
          × ((add_backend r port ip).1.replaced ≡ true → b.gen ≢ (add_backend r port ip).1.old_gen))
add_backend_leaves r port ip port' b v fits l = elim (Live-add_backend r port ip port' b l) [
  | inl new ↦ inl new
  | inr l0 ↦ inr (
    l0,
    λ h e.
        let was = replaced-Live r port ip h in
        let (p, i) = v.unique port' port b _ l0 was e in
        let l1 : Live (add_backend r port ip).0 port b =
          subst (λ q. Live (add_backend r port ip).0 q b) p l in
        let now = Live-add_backend_self r port ip b (add_backend-Inv r port ip fits v) l1 i in
        omega (arith, now, v.bounded port' b l0),
  )
]

-- After removeBackend a live backend was live before and is not the one that was removed.
pub remove_backend_leaves :
    (r : Router) (port : ℕ) (ip : Addr) (port' : ℕ) (b : Backend)
    → Inv r
    → Live (remove_backend r port ip).0 port' b
    → Live r port' b
      × ((port' ≡ port) → b.ip ≢ ip)
      × ((remove_backend r port ip).1.ok ≡ true → b.gen ≢ (remove_backend r port ip).1.gen)
remove_backend_leaves r port ip port' b v l =
    let l0 = Live-remove_backend r port ip port' b l in
    let other : (port' ≡ port) → b.ip ≢ ip = λ p i.
      remove_backend-NotIn r port ip b v (subst (λ q. Live (remove_backend r port ip).0 q b) p l)
        i in
    (
      l0,
      other,
      λ h e. let (p, i) = v.unique port' port b _ l0 (removed-Live r port ip h) e in other p i,
    )
