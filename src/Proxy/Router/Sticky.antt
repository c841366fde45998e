-- ===== src/Proxy/Router/Sticky.antt =====
-- A client keeps its backend: whatever else happens to the router, its packets carry one mark.
use csfleet.Prelude.{
  ℕ, ◌+◌, ◌%◌, ◌≤◌, ◌≡◌, ◌≢◌, refl, sym, ap, ◌∙◌, Option, List, [], ◌∷◌, none, some, arith, All,
}
use csfleet.Proxy.Addr.{Addr, AddrPort}
use csfleet.Proxy.Router.{
  Router, Session, dnat, route, u32, find, next_gen, add_backend, remove_backend, unmanage, sweep,
}
use csfleet.Proxy.Router.Backends.{find-bump_other, find-cut_other, find-append_other, find_of_Has}
use csfleet.Proxy.Router.Effects.{
  backends_at, backends_at-route, sessions-add_backend, sessions-remove_backend,
}
use csfleet.Proxy.Router.Invariant.{Inv}
use csfleet.Proxy.Router.History.{Op, adds, removes, unmanages, routes, sweeps, apply, run}
use csfleet.Proxy.Router.Marks.{route-dnat}

-- Operations that do not touch the instance at `ip` behind `port`, nor sweep a session last seen at `t`.
abbrev pub Spares : ℕ → Addr → ℕ → Op → Type 0
Spares port ip t (adds p i) = p ≡ port → i ≢ ip
Spares port ip t (removes p i) = p ≡ port → i ≢ ip
Spares port ip t (unmanages p) = p ≢ port
Spares port ip t (routes c p now) = t ≤ now
Spares port ip t (sweeps ttl now) = now ≤ t + ttl

abbrev HeldBy : Option Session → Addr → ℕ → ℕ → Type 0
HeldBy none ip g t = ⊥
HeldBy (some s) ip g t = (s.backend ≡ ip) × (s.gen ≡ g) × (t ≤ s.last_seen)

-- `c` is assigned to the live instance of generation `g` at `ip` behind `port`.
abbrev Holds : Router → AddrPort → ℕ → Addr → ℕ → ℕ → Type 0
Holds r c port ip g t =
    (find ip (backends_at r port) ≡ some (record { ip = ip; gen = g }))
    × HeldBy (r.sessions c) ip g t

find-add_other :
    (r : Router) (p : ℕ) (i : Addr) (port : ℕ) (ip : Addr)
    → (p ≡ port → i ≢ ip)
    → find ip (backends_at (add_backend r p i).0 port) ≡ find ip (backends_at r port)
unfolding add_backend
find-add_other r p i port ip n = ground (
  arith,
  find-bump_other i ip (next_gen r) (backends_at r p),
  find-append_other ip (record { ip = i; gen = next_gen r }) (backends_at r p),
)

find-remove_other :
    (r : Router) (p : ℕ) (i : Addr) (port : ℕ) (ip : Addr)
    → (p ≡ port → i ≢ ip)
    → find ip (backends_at (remove_backend r p i).0 port) ≡ find ip (backends_at r port)
unfolding remove_backend
find-remove_other r p i port ip n = ground (arith, find-cut_other i ip (backends_at r p))

find-unmanage_other :
    (r : Router) (p port : ℕ) (ip : Addr)
    → p ≢ port
    → find ip (backends_at (unmanage r p) port) ≡ find ip (backends_at r port)
unfolding unmanage
find-unmanage_other r p port ip n = ground arith

-- The session of a known client changes by route in its time only.
route-HeldBy :
    (r : Router) (c' : AddrPort) (port now : ℕ) (c : AddrPort) (ip : Addr) (g t : ℕ)
    → HeldBy (r.sessions c) ip g t
    → t ≤ now
    → HeldBy ((route r c' port now).0.sessions c) ip g t
unfolding route
route-HeldBy r c' port now c ip g t h k = ground arith

sweep-HeldBy :
    (r : Router) (ttl now : ℕ) (c : AddrPort) (ip : Addr) (g t : ℕ)
    → HeldBy (r.sessions c) ip g t
    → now ≤ t + ttl
    → HeldBy ((sweep r ttl now).sessions c) ip g t
unfolding sweep
sweep-HeldBy r ttl now c ip g t h k = ground arith

apply-Holds :
    (r : Router) (o : Op) (c : AddrPort) (port : ℕ) (ip : Addr) (g t : ℕ)
    → Spares port ip t o
    → Holds r c port ip g t
    → Holds (apply r o) c port ip g t
unfolding apply
apply-Holds r (adds p i) c port ip g t n h =
    (find-add_other r p i port ip n ∙ h.0, rw (sessions-add_backend r p i) h.1)
apply-Holds r (removes p i) c port ip g t n h =
    (find-remove_other r p i port ip n ∙ h.0, rw (sessions-remove_backend r p i) h.1)
apply-Holds r (unmanages p) c port ip g t n h =
    (find-unmanage_other r p port ip n ∙ h.0, unfold unmanage in h.1)
apply-Holds r (routes c' p now) c port ip g t n h =
    (ap (find ip) (backends_at-route r c' p now port) ∙ h.0, route-HeldBy r c' p now c ip g t h.1 n)
apply-Holds r (sweeps ttl now) c port ip g t n h =
    (unfold sweep in h.0, sweep-HeldBy r ttl now c ip g t h.1 n)

run-Holds :
    (os : List Op) (r : Router) (c : AddrPort) (port : ℕ) (ip : Addr) (g t : ℕ)
    → All (Spares port ip t) os
    → Holds r c port ip g t
    → Holds (run r os) c port ip g t
unfolding run
run-Holds [] r c port ip g t a h = h
run-Holds (o ∷ os) r c port ip g t a h =
    run-Holds os (apply r o) c port ip g t a.1 (apply-Holds r o c port ip g t a.0 h)

Holds-route :
    (r : Router) (c : AddrPort) (port : ℕ) (ip : Addr) (g t now : ℕ)
    → Holds r c port ip g t
    → ((route r c port now).1 ≡ g % u32) × ((route r c port now).2 ≡ dnat)
unfolding route find
Holds-route r c port ip g t now h = ground arith

route-last_seen :
    (r : Router) (c : AddrPort) (port t : ℕ) (s : Session)
    → (route r c port t).2 ≡ dnat
    → (route r c port t).0.sessions c ≡ some s
    → s.last_seen ≡ t
unfolding route
route-last_seen r c port t s h e = ground arith

-- A forwarded packet leaves its client assigned to a live instance, under the mark of that instance.
route-Holds :
    (r : Router) (c : AddrPort) (port t : ℕ) (s : Session)
    → Inv r
    → (route r c port t).2 ≡ dnat
    → (route r c port t).0.sessions c ≡ some s
    → Holds (route r c port t).0 c port s.backend s.gen t × ((route r c port t).1 ≡ s.gen % u32)
route-Holds r c port t s v h e =
    let (b, live, mark, (s', e', ip, gen)) = route-dnat r c port t h in
    let found = find_of_Has (backends_at r port) b (v.distinct port) live in
    let same : s' ≡ s = cc in
    (
      (
        rw (backends_at-route r c port t port) (ground (arith, found)),
        rw e (refl, refl, omega (arith, route-last_seen r c port t s h e)),
      ),
      ground arith,
    )

-- A client that was forwarded at time `t` is forwarded with the same mark after any further
-- operations, as long as these neither add, remove nor unmanage the backend that its session names,
-- no clock runs back behind `t`, and every sweep comes within its `ttl` of `t`.
pub route-sticky :
    (r : Router) (c : AddrPort) (port t : ℕ) (s : Session) (os : List Op) (now : ℕ)
    → Inv r
    → (route r c port t).2 ≡ dnat
    → (route r c port t).0.sessions c ≡ some s
    → All (Spares port s.backend t) os
    → ((route (run (route r c port t).0 os) c port now).1 ≡ (route r c port t).1)
      × ((route (run (route r c port t).0 os) c port now).2 ≡ dnat)
route-sticky r c port t s os now v h e a =
    let (holds, mark) = route-Holds r c port t s v h e in
    let later =
      Holds-route (run (route r c port t).0 os) c port s.backend s.gen t now
        (run-Holds os (route r c port t).0 c port s.backend s.gen t a holds) in
    (later.0 ∙ sym mark, later.1)
