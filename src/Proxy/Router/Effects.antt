-- ===== src/Proxy/Router/Effects.antt =====
-- What each method of the router does to the live backends, the sessions and the counter.
use csfleet.Prelude.{
  ◌%◌, false, ℕ, ◌≡◌, ◌⊎◌, Option, none, some, List, [], ◌∷◌, arith, Has, Has-append, get_or-Has,
  length,
}
use csfleet.Proxy.Addr.{Addr, AddrPort}
use csfleet.Proxy.Router.{
  Router, Backend, Pool, Session, pool_or_new, next_gen, add_backend, remove_backend, unmanage,
  route, sweep, pick, is_nil, no_backend,
}
use csfleet.Proxy.Router.Backends.{
  DistinctIps, Has-bump, Has-cut, bump-DistinctIps, bump-none, cut-DistinctIps, append-DistinctIps,
}

-- The backends behind a port; none if the port is not managed.
abbrev pub backends_at : Router → ℕ → List Backend
backends_at r port = (pool_or_new (r.pools port)).backends

abbrev pub Live : Router → ℕ → Backend → Type 0
Live r port b = Has b (backends_at r port)

pub Live-add_backend :
    (r : Router) (port : ℕ) (ip : Addr) (port' : ℕ) (b : Backend)
    → Live (add_backend r port ip).0 port' b
    → ((port' ≡ port) × (b.ip ≡ ip) × (b.gen ≡ next_gen r)) ⊎ Live r port' b
unfolding add_backend
Live-add_backend r port ip port' b h = ground (
  arith,
  Has-bump ip (next_gen r) (backends_at r port) b,
  Has-append b (backends_at r port) (record { ip = ip; gen = next_gen r } ∷ []),
)

pub add_backend-DistinctIps :
    (r : Router) (port : ℕ) (ip : Addr) (port' : ℕ)
    → DistinctIps (backends_at r port)
    → DistinctIps (backends_at r port')
    → DistinctIps (backends_at (add_backend r port ip).0 port')
unfolding add_backend
add_backend-DistinctIps r port ip port' d d' = ground (
  arith,
  bump-DistinctIps ip (next_gen r) (backends_at r port) d,
  bump-none ip (next_gen r) (backends_at r port),
  append-DistinctIps (backends_at r port) (record { ip = ip; gen = next_gen r }) d,
)

pub gen-add_backend :
    (r : Router) (port : ℕ) (ip : Addr) → (add_backend r port ip).0.gen ≡ next_gen r
unfolding add_backend
gen-add_backend r port ip = ground arith

pub sessions-add_backend :
    (r : Router) (port : ℕ) (ip : Addr) → (add_backend r port ip).0.sessions ≡ r.sessions
unfolding add_backend
sessions-add_backend r port ip = ground arith

pub Live-remove_backend :
    (r : Router) (port : ℕ) (ip : Addr) (port' : ℕ) (b : Backend)
    → Live (remove_backend r port ip).0 port' b
    → Live r port' b
unfolding remove_backend
Live-remove_backend r port ip port' b h = ground (arith, Has-cut ip (backends_at r port) b)

pub remove_backend-DistinctIps :
    (r : Router) (port : ℕ) (ip : Addr) (port' : ℕ)
    → DistinctIps (backends_at r port)
    → DistinctIps (backends_at r port')
    → DistinctIps (backends_at (remove_backend r port ip).0 port')
unfolding remove_backend
remove_backend-DistinctIps r port ip port' d d' =
    ground (arith, cut-DistinctIps ip (backends_at r port) d)

pub gen-remove_backend :
    (r : Router) (port : ℕ) (ip : Addr) → (remove_backend r port ip).0.gen ≡ r.gen
unfolding remove_backend
gen-remove_backend r port ip = ground arith

pub sessions-remove_backend :
    (r : Router) (port : ℕ) (ip : Addr) → (remove_backend r port ip).0.sessions ≡ r.sessions
unfolding remove_backend
sessions-remove_backend r port ip = ground arith

pub Live-unmanage :
    (r : Router) (port port' : ℕ) (b : Backend) → Live (unmanage r port) port' b → Live r port' b
unfolding unmanage
Live-unmanage r port port' b h = ground arith

pub unmanage-DistinctIps :
    (r : Router) (port port' : ℕ)
    → DistinctIps (backends_at r port')
    → DistinctIps (backends_at (unmanage r port) port')
unfolding unmanage
unmanage-DistinctIps r port port' d = ground arith

-- route leaves every backend list as it was.
pub backends_at-route :
    (r : Router) (client : AddrPort) (port now port' : ℕ)
    → backends_at (route r client port now).0 port' ≡ backends_at r port'
unfolding route
backends_at-route r client port now port' = ground arith

pub gen-route :
    (r : Router) (client : AddrPort) (port now : ℕ) → (route r client port now).0.gen ≡ r.gen
unfolding route
gen-route r client port now = ground arith

-- The stored session names the same instance as `s`.
abbrev pub SameInstance : Option Session → Session → Type 0
SameInstance none s = ⊥
SameInstance (some old) s = (old.gen ≡ s.gen) × (old.backend ≡ s.backend)

pub pick-Has : (p : Pool) → is_nil p.backends ≡ false → Has (pick p) p.backends
unfolding pick
pick-Has p h = get_or-Has p.backends (p.rr % length p.backends) no_backend (ground arith)

-- A session after route is one from before, at most with a new time, or names a live backend.
pub route-session :
    (r : Router) (client : AddrPort) (port now : ℕ) (c : AddrPort) (s : Session)
    → (route r client port now).0.sessions c ≡ some s
    → SameInstance (r.sessions c) s ⊎ Live r port (record { ip = s.backend; gen = s.gen })
unfolding route
route-session r client port now c s h = ground (arith, pick-Has (pool_or_new (r.pools port)))

pub sweep-session :
    (r : Router) (ttl now : ℕ) (c : AddrPort) (s : Session)
    → (sweep r ttl now).sessions c ≡ some s
    → r.sessions c ≡ some s
unfolding sweep
sweep-session r ttl now c s h = ground arith
