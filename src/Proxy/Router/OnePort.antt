-- ===== src/Proxy/Router/OnePort.antt =====
-- A client that was forwarded through one port, and its packets to the other ports.
use csfleet.Prelude.{ℕ, ◌+◌, ◌≤◌, ◌<◌, ◌≡◌, ◌≢◌, refl, ◌∙◌, List, [], ◌∷◌, some, arith, All}
use csfleet.Proxy.Addr.{AddrPort}
use csfleet.Proxy.Router.{Router, Backend, Session, Pool, dnat, drop, route, unmanage, find, u64}
use csfleet.Proxy.Router.Effects.{
  Live, SameInstance, backends_at, backends_at-route, gen-route, Live-add_backend, gen-add_backend,
  Live-remove_backend, gen-remove_backend, Live-unmanage, sessions-add_backend,
  sessions-remove_backend,
}
use csfleet.Proxy.Router.Invariant.{Inv}
use csfleet.Proxy.Router.Marks.{route-dnat}
use csfleet.Proxy.Router.History.{
  Op, adds, removes, unmanages, routes, sweeps, apply, run, count_adds,
}
use csfleet.Proxy.Router.Orphans.{IsSweep, Stale, find-Stale, count_adds-cons}

-- The client's session names the instance of `s`, whose generation is live behind no port but `home`.
pub record IsBound (r : Router) (c : AddrPort) (s : Session) (home : ℕ) : Type 0 where
  pub old : s.gen ≤ r.gen
  pub only : (port : ℕ) (b : Backend) → Live r port b → b.gen ≡ s.gen → port ≡ home
  pub session : SameInstance (r.sessions c) s

sessions-route :
    (r : Router) (c' : AddrPort) (port now : ℕ) (c : AddrPort) (s : Session)
    → SameInstance (r.sessions c) s
    → SameInstance ((route r c' port now).0.sessions c) s
unfolding route
sessions-route r c' port now c s e = ground arith

apply-IsBound :
    (r : Router) (o : Op) (c : AddrPort) (s : Session) (home : ℕ)
    → ¬ IsSweep o
    → r.gen + count_adds (o ∷ []) < u64
    → IsBound r c s home
    → IsBound (apply r o) c s home × ((apply r o).gen ≡ r.gen + count_adds (o ∷ []))
unfolding apply
apply-IsBound r (adds p i) c s home n fits v = (
  record {
    old = ground (arith, v.old, gen-add_backend r p i);
    only = λ port b l g. ground (arith, Live-add_backend r p i port b l, v.old, v.only port b);
    session = rw (sessions-add_backend r p i) v.session;
  },
  ground (arith, gen-add_backend r p i),
)
apply-IsBound r (removes p i) c s home n fits v = (
  record {
    old = ground (arith, v.old, gen-remove_backend r p i);
    only = λ port b l g. v.only port b (Live-remove_backend r p i port b l) g;
    session = rw (sessions-remove_backend r p i) v.session;
  },
  ground (arith, gen-remove_backend r p i),
)
apply-IsBound r (unmanages p) c s home n fits v = (
  record {
    old = unfold unmanage in v.old;
    only = λ port b l g. v.only port b (Live-unmanage r p port b l) g;
    session = unfold unmanage in v.session;
  },
  unfold unmanage in omega arith,
)
apply-IsBound r (routes c' p now) c s home n fits v = (
  record {
    old = ground (arith, v.old, gen-route r c' p now);
    only = λ port b l g. v.only port b (rw (← backends_at-route r c' p now port) l) g;
    session = sessions-route r c' p now c s v.session;
  },
  omega (arith, gen-route r c' p now),
)
apply-IsBound r (sweeps ttl now) c s home n fits v = absurd (n tt)

run-IsBound :
    (os : List Op) (r : Router) (c : AddrPort) (s : Session) (home : ℕ)
    → All (λ o. ¬ IsSweep o) os
    → r.gen + count_adds os < u64
    → IsBound r c s home
    → IsBound (run r os) c s home
unfolding run
run-IsBound [] r c s home a fits v = v
run-IsBound (x ∷ os) r c s home a fits v =
    let split = count_adds-cons x os in
    let (v', g) = apply-IsBound r x c s home a.0 (omega (arith, split)) v in
    run-IsBound os (apply r x) c s home a.1 (omega (arith, split, g)) v'

bound-drop :
    (r : Router) (c : AddrPort) (port now : ℕ) (p : Pool) (s : Session)
    → r.pools port ≡ some p
    → SameInstance (r.sessions c) s
    → Stale (find s.backend (backends_at r port)) s.gen
    → (route r c port now).2 ≡ drop
unfolding route
bound-drop r c port now p s e k n = ground arith

-- A client has one port: once forwarded through one, its packets to any other managed port are
-- dropped, whatever else happens until a sweep, even if backends are live there, since its one session
-- names no backend of that pool. (Fewer than 2^64 additions.)
pub one_port_per_client :
    (r : Router) (c : AddrPort) (port t : ℕ) (os : List Op) (port' now : ℕ) (p : Pool)
    → Inv r
    → (route r c port t).2 ≡ dnat
    → All (λ o. ¬ IsSweep o) os
    → r.gen + count_adds os < u64
    → port' ≢ port
    → (run (route r c port t).0 os).pools port' ≡ some p
    → (route (run (route r c port t).0 os) c port' now).2 ≡ drop
one_port_per_client r c port t os port' now p v h a fits ne e =
    let (b, live, _, (s, k, _, g)) = route-dnat r c port t h in
    let same = backends_at-route r c port t in
    let mid = (route r c port t).0 in
    let counter = gen-route r c port t in
    let bound : IsBound mid c s port = record {
      old = omega (arith, counter, v.bounded port b live, g);
      only = λ q b' l e'. (v.unique q port b' b (rw (← same q) l) live (e' ∙ g)).0;
      session = rw k (refl, refl);
    } in
    let after = run-IsBound os mid c s port a (omega (arith, counter)) bound in
    bound-drop (run mid os) c port' now p s e after.session
      (find-Stale (run mid os) s port' λ b' l e'. ne (after.only port' b' l e'))
