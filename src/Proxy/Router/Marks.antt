-- ===== src/Proxy/Router/Marks.antt =====
-- What a verdict of route means: the mark on a packet names one live backend.
use csfleet.Prelude.{ℕ, ◌%◌, ◌<◌, ◌≡◌, refl, inl, inr, none, some, arith, Option-cases}
use csfleet.Proxy.Addr.{AddrPort}
use csfleet.Proxy.Router.{
  Router, Backend, Session, accept, dnat, drop, route, u32, pool_or_new, find, pick,
}
use csfleet.Proxy.Router.Backends.{find-Has}
use csfleet.Proxy.Router.Effects.{Live, backends_at, pick-Has}
use csfleet.Proxy.Router.Invariant.{Inv}

-- The backend that a forwarding session of `c` names, as route left it.
abbrev pub AssignedTo : Router → AddrPort → Backend → Type 0
AssignedTo r c b = (s : Session) × (r.sessions c ≡ some s) × (s.backend ≡ b.ip) × (s.gen ≡ b.gen)

known-dnat :
    (r : Router) (c : AddrPort) (port now : ℕ) (s : Session)
    → r.sessions c ≡ some s
    → (route r c port now).2 ≡ dnat
    → (b : Backend) × Live r port b
      × ((route r c port now).1 ≡ b.gen % u32)
      × AssignedTo (route r c port now).0 c b
unfolding route
known-dnat r c port now s e h = elim (Option-cases (find s.backend (backends_at r port))) [
  | inl f ↦ ground arith
  | inr (b, f) ↦ (
    b,
    ground (arith, find-Has s.backend (backends_at r port) b),
    ground (arith, find-Has s.backend (backends_at r port) b),
    (
      record s { last_seen = now },
      ground arith,
      ground (arith, find-Has s.backend (backends_at r port) b),
      ground arith,
    ),
  )
]

new-dnat :
    (r : Router) (c : AddrPort) (port now : ℕ)
    → r.sessions c ≡ none
    → (route r c port now).2 ≡ dnat
    → (b : Backend) × Live r port b
      × ((route r c port now).1 ≡ b.gen % u32)
      × AssignedTo (route r c port now).0 c b
unfolding route
new-dnat r c port now e h =
    let p = pool_or_new (r.pools port) in
    let b = pick p in
    (
      b,
      ground (arith, pick-Has p),
      ground arith,
      (record { backend = b.ip; gen = b.gen; last_seen = now }, ground arith, refl, refl),
    )

pub route-dnat :
    (r : Router) (c : AddrPort) (port now : ℕ)
    → (route r c port now).2 ≡ dnat
    → (b : Backend) × Live r port b
      × ((route r c port now).1 ≡ b.gen % u32)
      × AssignedTo (route r c port now).0 c b
route-dnat r c port now h = elim (Option-cases (r.sessions c)) [
  | inl e ↦ new-dnat r c port now e h
  | inr (s, e) ↦ known-dnat r c port now s e h
]

-- In a router with fewer than 2^32 generations, a packet that route forwards is marked with the
-- generation of a backend that is live behind the packet's port, and is assigned to it; the mark is not
-- zero, and no backend behind another port or at another address has that mark.
pub dnat_mark :
    (r : Router) (c : AddrPort) (port now : ℕ)
    → Inv r
    → r.gen < u32
    → (route r c port now).2 ≡ dnat
    → (b : Backend) × Live r port b
      × ((route r c port now).1 ≡ b.gen)
      × (0 < b.gen)
      × AssignedTo (route r c port now).0 c b
      × ((port' : ℕ) (b' : Backend)
          → Live r port' b'
          → b'.gen % u32 ≡ b.gen
          → (port' ≡ port) × (b'.ip ≡ b.ip))
dnat_mark r c port now v small h =
    let (b, live, mark, assigned) = route-dnat r c port now h in
    (
      b,
      live,
      omega (arith, mark, v.bounded port b live),
      v.positive port b live,
      assigned,
      λ port' b' live' e.
          v.unique port' port b' b live' live
            (omega (arith, v.bounded port b live, v.bounded port' b' live', e)),
    )

-- route answers accept exactly when the port has no pool, and then changes nothing.
pub route-accept :
    (r : Router) (c : AddrPort) (port now : ℕ)
    → (((route r c port now).2 ≡ accept) → (r.pools port ≡ none) × ((route r c port now).0 ≡ r))
      × ((r.pools port ≡ none) → (route r c port now).2 ≡ accept)
unfolding route
route-accept r c port now = (λ h. (ground arith, ground arith), λ h. ground arith)

-- A dropped packet changes nothing: its session keeps the time of its last forwarded packet.
pub route-drop :
    (r : Router) (c : AddrPort) (port now : ℕ)
    → (route r c port now).2 ≡ drop
    → (route r c port now).0 ≡ r
unfolding route
route-drop r c port now h = ground arith
