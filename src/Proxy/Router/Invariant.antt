-- ===== src/Proxy/Router/Invariant.antt =====
-- What holds of the router after any history: no two live backends share a generation, a pool holds
-- an address once, and the instance that a session names is told apart by its generation.
use csfleet.Prelude.{ℕ, ◌+◌, ◌≤◌, ◌<◌, ◌≡◌, refl, inl, inr, some, arith, Option-cases}
use csfleet.Proxy.Addr.{Addr, AddrPort}
use csfleet.Proxy.Router.{
  Router, Backend, Session, next_gen, add_backend, remove_backend, unmanage, route, sweep, u64,
}
use csfleet.Proxy.Router.Backends.{DistinctIps}
use csfleet.Proxy.Router.Effects.{
  backends_at, Live, Live-add_backend, add_backend-DistinctIps, gen-add_backend,
  sessions-add_backend, Live-remove_backend, remove_backend-DistinctIps, gen-remove_backend,
  sessions-remove_backend, Live-unmanage, unmanage-DistinctIps, backends_at-route, gen-route,
  SameInstance, route-session, sweep-session,
}

pub record Inv (r : Router) : Type 0 where
  pub bounded : (port : ℕ) (b : Backend) → Live r port b → b.gen ≤ r.gen
  pub positive : (port : ℕ) (b : Backend) → Live r port b → 0 < b.gen
  pub distinct : (port : ℕ) → DistinctIps (backends_at r port)
  pub unique :
      (port port' : ℕ) (b b' : Backend)
      → Live r port b
      → Live r port' b'
      → b.gen ≡ b'.gen
      → (port ≡ port') × (b.ip ≡ b'.ip)
  pub held : (c : AddrPort) (s : Session) → r.sessions c ≡ some s → s.gen ≤ r.gen
  pub owner :
      (c : AddrPort) (s : Session) (port : ℕ) (b : Backend)
      → r.sessions c ≡ some s
      → Live r port b
      → b.gen ≡ s.gen
      → b.ip ≡ s.backend

next_gen_lem : (r : Router) → r.gen + 1 < u64 → next_gen r ≡ r.gen + 1
next_gen_lem r h = omega arith

pub add_backend-Inv :
    (r : Router) (port : ℕ) (ip : Addr) → r.gen + 1 < u64 → Inv r → Inv (add_backend r port ip).0
add_backend-Inv r port ip fits v = record {
  bounded = λ port' b l. ground (
    arith,
    Live-add_backend r port ip port' b l,
    gen-add_backend r port ip,
    v.bounded port' b,
    next_gen_lem r fits,
  );
  positive = λ port' b l.
      ground (arith, Live-add_backend r port ip port' b l, v.positive port' b, next_gen_lem r fits);
  distinct = λ port'. add_backend-DistinctIps r port ip port' (v.distinct port) (v.distinct port');
  unique = λ port1 port2 b b' l l' e. ground (
    arith,
    Live-add_backend r port ip port1 b l,
    Live-add_backend r port ip port2 b' l',
    v.unique port1 port2 b b',
    v.bounded port1 b,
    v.bounded port2 b',
    next_gen_lem r fits,
  );
  held = λ c s e. ground (
    arith,
    sessions-add_backend r port ip,
    gen-add_backend r port ip,
    v.held c s,
    next_gen_lem r fits,
  );
  owner = λ c s port' b e l g. ground (
    arith,
    sessions-add_backend r port ip,
    Live-add_backend r port ip port' b l,
    v.held c s,
    v.owner c s port' b,
    next_gen_lem r fits,
  );
}

-- A router with fewer live backends and the same sessions.
Inv-fewer :
    (r q : Router)
    → Inv r
    → ((port : ℕ) (b : Backend) → Live q port b → Live r port b)
    → ((port : ℕ) → DistinctIps (backends_at q port))
    → q.gen ≡ r.gen
    → q.sessions ≡ r.sessions
    → Inv q
Inv-fewer r q v fewer distinct g e = record {
  bounded = λ port b l. ground (arith, v.bounded port b (fewer port b l));
  positive = λ port b l. v.positive port b (fewer port b l);
  distinct = distinct;
  unique = λ port port' b b' l l'. v.unique port port' b b' (fewer port b l) (fewer port' b' l');
  held = λ c s h. ground (arith, v.held c s);
  owner = λ c s port b h l. v.owner c s port b (rw (← e) h) (fewer port b l);
}

pub remove_backend-Inv :
    (r : Router) (port : ℕ) (ip : Addr) → Inv r → Inv (remove_backend r port ip).0
remove_backend-Inv r port ip v =
    Inv-fewer r (remove_backend r port ip).0 v (Live-remove_backend r port ip)
      (λ port'. remove_backend-DistinctIps r port ip port' (v.distinct port) (v.distinct port'))
      (gen-remove_backend r port ip) (sessions-remove_backend r port ip)

pub unmanage-Inv : (r : Router) (port : ℕ) → Inv r → Inv (unmanage r port)
unfolding unmanage
unmanage-Inv r port v =
    Inv-fewer r (unmanage r port) v (Live-unmanage r port)
      (λ port'. unmanage-DistinctIps r port port' (v.distinct port')) refl refl

-- What a stored session names belongs to its owner.
SameInstance-owner :
    (r : Router) (c : AddrPort) (s : Session)
    → Inv r
    → SameInstance (r.sessions c) s
    → (s.gen ≤ r.gen)
      × ((port : ℕ) (b : Backend) → Live r port b → b.gen ≡ s.gen → b.ip ≡ s.backend)
SameInstance-owner r c s v h = elim (Option-cases (r.sessions c)) [
  | inl e ↦ absurd (rw e at h)
  | inr (old, e) ↦
      let same : SameInstance (some old) s = rw e at h in
      (ground (arith, v.held c old e), λ port b l g. ground (arith, v.owner c old port b e l))
]

pub route-Inv :
    (r : Router) (client : AddrPort) (port now : ℕ) → Inv r → Inv (route r client port now).0
route-Inv r client port now v = record {
  bounded = λ port' b l. ground (
    arith,
    v.bounded port' b,
    backends_at-route r client port now port',
    gen-route r client port now,
  );
  positive =
      λ port' b l. ground (arith, v.positive port' b, backends_at-route r client port now port');
  distinct = λ port'. rw (backends_at-route r client port now port') (v.distinct port');
  unique = λ port1 port2 b b' l l'. ground (
    arith,
    v.unique port1 port2 b b',
    backends_at-route r client port now port1,
    backends_at-route r client port now port2,
  );
  held = λ c s e. ground (
    arith,
    route-session r client port now c s,
    gen-route r client port now,
    SameInstance-owner r c s v,
    v.bounded port (record { ip = s.backend; gen = s.gen }),
  );
  owner = λ c s port' b e l g.
      let l' : Live r port' b = rw (← backends_at-route r client port now port') l in
      elim (route-session r client port now c s e) [
        | inl same ↦ (SameInstance-owner r c s v same).1 port' b l' g
        | inr fresh ↦ (v.unique port' port b (record { ip = s.backend; gen = s.gen }) l' fresh g).1
      ];
}

pub sweep-Inv : (r : Router) (ttl now : ℕ) → Inv r → Inv (sweep r ttl now)
unfolding sweep
sweep-Inv r ttl now v = record {
  bounded = v.bounded;
  positive = v.positive;
  distinct = v.distinct;
  unique = v.unique;
  held = λ c s e. v.held c s (sweep-session r ttl now c s e);
  owner = λ c s port b e. v.owner c s port b (sweep-session r ttl now c s e);
}
