-- ===== src/Proxy/Router/Orphans.antt =====
-- Orphans: clients whose backend instance is gone. They are dropped until sweep forgets them.
use mathlib.Core.Path.{subst}
use csfleet.Prelude.{
  ℕ, ◌+◌, ◌-◌, ◌≤◌, ◌<◌, ◌≡◌, ◌≢◌, Option, Option-cases, inl, inr, List, [], ◌∷◌, none, some, arith,
  All,
}
use csfleet.Proxy.Addr.{Addr, AddrPort}
use csfleet.Proxy.Router.{
  Router, Backend, Session, dnat, route, u64, find, next_gen, add_backend, unmanage, sweep,
}
use csfleet.Proxy.Router.Backends.{find-Has, find_of_Has, find-bump, bump-none, find_append}
use csfleet.Proxy.Router.Effects.{
  Live, backends_at, backends_at-route, gen-route, Live-add_backend, gen-add_backend,
  Live-remove_backend, gen-remove_backend, Live-unmanage, sessions-add_backend,
  sessions-remove_backend,
}
use csfleet.Proxy.Router.Invariant.{Inv, add_backend-Inv, route-Inv}
use csfleet.Proxy.Router.Marks.{route-dnat}
use csfleet.Proxy.Router.History.{
  Op, adds, removes, unmanages, routes, sweeps, apply, run, count_adds,
}

-- `s` is an orphan: its generation was handed out, and no live backend has it.
pub record IsOrphan (r : Router) (s : Session) : Type 0 where
  pub old : s.gen ≤ r.gen
  pub gone : (port : ℕ) (b : Backend) → Live r port b → b.gen ≢ s.gen

abbrev pub IsSweep : Op → Type 0
IsSweep (sweeps ttl now) = Unit
IsSweep _ = ⊥

-- A lookup that finds no backend of generation `g`.
abbrev pub Stale : Option Backend → ℕ → Type 0
Stale none g = Unit
Stale (some b) g = b.gen ≢ g

pub find-Stale :
    (r : Router) (s : Session) (port : ℕ)
    → ((b : Backend) → Live r port b → b.gen ≢ s.gen)
    → Stale (find s.backend (backends_at r port)) s.gen
find-Stale r s port gone = elim (Option-cases (find s.backend (backends_at r port))) [
  | inl e ↦ rw e tt
  | inr (b, e) ↦ rw e (gone b (find-Has s.backend (backends_at r port) b e).0)
]

pub sessions-route_orphan :
    (r : Router) (c' : AddrPort) (port now : ℕ) (c : AddrPort) (s : Session)
    → IsOrphan r s
    → r.sessions c ≡ some s
    → (route r c' port now).0.sessions c ≡ some s
unfolding route
sessions-route_orphan r c' port now c s o e = ground (arith, find-Stale r s port (o.gone port))

apply-IsOrphan :
    (r : Router) (o : Op) (c : AddrPort) (s : Session)
    → ¬ IsSweep o
    → r.gen + count_adds (o ∷ []) < u64
    → IsOrphan r s
    → r.sessions c ≡ some s
    → IsOrphan (apply r o) s
      × ((apply r o).sessions c ≡ some s)
      × ((apply r o).gen ≡ r.gen + count_adds (o ∷ []))
unfolding apply
apply-IsOrphan r (adds p i) c s n fits o e = (
  record {
    old = ground (arith, o.old, gen-add_backend r p i);
    gone = λ port b l. ground (arith, Live-add_backend r p i port b l, o.old, o.gone port b);
  },
  ground (arith, sessions-add_backend r p i),
  ground (arith, gen-add_backend r p i),
)
apply-IsOrphan r (removes p i) c s n fits o e = (
  record {
    old = ground (arith, o.old, gen-remove_backend r p i);
    gone = λ port b l. o.gone port b (Live-remove_backend r p i port b l);
  },
  ground (arith, sessions-remove_backend r p i),
  ground (arith, gen-remove_backend r p i),
)
apply-IsOrphan r (unmanages p) c s n fits o e = (
  record {
    old = unfold unmanage in o.old;
    gone = λ port b l. o.gone port b (Live-unmanage r p port b l);
  },
  unfold unmanage in e,
  unfold unmanage in omega arith,
)
apply-IsOrphan r (routes c' p now) c s n fits o e = (
  record {
    old = ground (arith, o.old, gen-route r c' p now);
    gone = λ port b l. o.gone port b (rw (← backends_at-route r c' p now port) l);
  },
  sessions-route_orphan r c' p now c s o e,
  omega (arith, gen-route r c' p now),
)
apply-IsOrphan r (sweeps ttl now) c s n fits o e = absurd (n tt)

pub count_adds-cons :
    (x : Op) (os : List Op) → count_adds (x ∷ os) ≡ count_adds (x ∷ []) + count_adds os
count_adds-cons (adds p i) os = omega arith
count_adds-cons _ os = omega arith

pub run-IsOrphan :
    (os : List Op) (r : Router) (c : AddrPort) (s : Session)
    → All (λ o. ¬ IsSweep o) os
    → r.gen + count_adds os < u64
    → IsOrphan r s
    → r.sessions c ≡ some s
    → IsOrphan (run r os) s × ((run r os).sessions c ≡ some s)
unfolding run
run-IsOrphan [] r c s a fits o e = (o, e)
run-IsOrphan (x ∷ os) r c s a fits o e =
    let split = count_adds-cons x os in
    let (o', e', g) = apply-IsOrphan r x c s a.0 (omega (arith, split)) o e in
    run-IsOrphan os (apply r x) c s a.1 (omega (arith, split, g)) o' e'

route_orphan :
    (r : Router) (c : AddrPort) (port now : ℕ) (s : Session)
    → IsOrphan r s
    → r.sessions c ≡ some s
    → (route r c port now).2 ≢ dnat
unfolding route
route_orphan r c port now s o e = ground (arith, find-Stale r s port (o.gone port))

-- Once the instance that a client was assigned to is gone, no history without a sweep gets any of
-- its packets forwarded again, on any port, whatever backends come up.
pub orphan_never_forwarded :
    (r : Router) (c : AddrPort) (s : Session) (os : List Op) (port now : ℕ)
    → All (λ o. ¬ IsSweep o) os
    → r.gen + count_adds os < u64
    → IsOrphan r s
    → r.sessions c ≡ some s
    → (route (run r os) c port now).2 ≢ dnat
orphan_never_forwarded r c s os port now a fits o e =
    let (o', e') = run-IsOrphan os r c s a fits o e in route_orphan (run r os) c port now s o' e'

pub find-add_backend :
    (r : Router) (port : ℕ) (ip : Addr)
    → find ip (backends_at (add_backend r port ip).0 port)
      ≡ some (record { ip = ip; gen = next_gen r })
unfolding add_backend
find-add_backend r port ip = ground (
  arith,
  find-bump ip (next_gen r) (backends_at r port),
  bump-none ip (next_gen r) (backends_at r port),
  find_append ip (next_gen r) (backends_at r port),
)

-- After addBackend, only the new instance is live at its address and port.
pub Live-add_backend_self :
    (r : Router) (port : ℕ) (ip : Addr) (b : Backend)
    → Inv (add_backend r port ip).0
    → Live (add_backend r port ip).0 port b
    → b.ip ≡ ip
    → b.gen ≡ next_gen r
Live-add_backend_self r port ip b v l e =
    let found = find_of_Has (backends_at (add_backend r port ip).0 port) b (v.distinct port) l in
    ground (arith, found, find-add_backend r port ip)

-- Restarting an assigned backend at its address and port orphans its clients: addBackend gives the
-- instance a new generation, and the one that the session names is gone.
pub restart-IsOrphan :
    (r : Router) (s : Session) (port : ℕ)
    → Inv r
    → r.gen + 1 < u64
    → Live r port (record { ip = s.backend; gen = s.gen })
    → IsOrphan (add_backend r port s.backend).0 s
restart-IsOrphan r s port v fits live =
    let named : Backend = record { ip = s.backend; gen = s.gen } in
    let below = v.bounded port named live in
    let after = (add_backend r port s.backend).0 in
    let v' = add_backend-Inv r port s.backend fits v in
    record {
      old = omega (arith, below, gen-add_backend r port s.backend);
      gone = λ port' b l e. elim (Live-add_backend r port s.backend port' b l) [
        | inl (_, _, g) ↦ omega (arith, below, g)
        | inr l0 ↦
            let (p, i) = v.unique port' port b named l0 live e in
            let l1 : Live after port b = subst (λ q. Live after q b) p l in
            omega (arith, below, Live-add_backend_self r port s.backend b v' l1 i)
      ];
    }

-- A client that route forwarded to a backend is never forwarded again, on any port, once that
-- backend has been added anew (restarted) at its port, until a sweep; its packets are not sent to
-- the new instance, whatever else happens in between.
pub restart_cuts_off :
    (r : Router) (c : AddrPort) (port t : ℕ) (s : Session) (os : List Op) (port' now : ℕ)
    → Inv r
    → (route r c port t).2 ≡ dnat
    → (route r c port t).0.sessions c ≡ some s
    → All (λ o. ¬ IsSweep o) os
    → r.gen + 1 + count_adds os < u64
    → (route (run (add_backend (route r c port t).0 port s.backend).0 os) c port' now).2 ≢ dnat
restart_cuts_off r c port t s os port' now v h e a fits =
    let (b, live, _, (s', e', i, g)) = route-dnat r c port t h in
    let same : s' ≡ s = cc in
    let named : b ≡ record { ip = s.backend; gen = s.gen } = ground arith in
    let live' = rw (named, ← backends_at-route r c port t port) at live in
    let mid = (route r c port t).0 in
    let counter = gen-route r c port t in
    let orphan =
      restart-IsOrphan mid s port (route-Inv r c port t v) (omega (arith, counter)) live' in
    orphan_never_forwarded (add_backend mid port s.backend).0 c s os port' now a
      (omega (arith, counter, gen-add_backend mid port s.backend)) orphan
      (rw (sessions-add_backend mid port s.backend) e)

-- What sweep keeps: the sessions whose last forwarded packet is at most `ttl` old.
pub sweep_exact :
    (r : Router) (ttl now : ℕ) (c : AddrPort) (s : Session)
    → (((sweep r ttl now).sessions c ≡ some s)
        → (r.sessions c ≡ some s) × (now - s.last_seen ≤ ttl))
      × ((r.sessions c ≡ some s) → now - s.last_seen ≤ ttl → (sweep r ttl now).sessions c ≡ some s)
unfolding sweep
sweep_exact r ttl now c s = (λ h. (ground arith, ground arith), λ e k. ground arith)
