-- ===== src/Proxy/Router.antt =====
-- orchestration/proxy/router.go: the in-memory routing state. Go's mutex makes each method one
-- atomic step; a method is a function from the router to the router and its results.
pub mod Backends
pub mod Effects
pub mod Invariant
pub mod History
pub mod Marks
pub mod Sticky
pub mod Orphans
pub mod RoundRobin
pub mod OnePort
pub mod Instances
use mathlib.Core.Option
use csfleet.Prelude.{
  ℕ, ◌+◌, ◌-◌, ◌%◌, ◌^◌, Bool, true, false, Option, none, some, List, [], ◌∷◌, ◌++◌, ite, length,
  get_or, ◌==◌, if◌then◌else◌, Map, empty_map, update, ℕ_discrete, dec_lt,
}
use csfleet.Proxy.Addr.{Addr, AddrPort, v4, Addr-discrete, AddrPort-discrete}

pub data Verdict : Type 0 where
  accept dnat drop : Verdict

pub record Backend : Type 0 where
  pub ip : Addr
  pub gen : ℕ

pub record Pool : Type 0 where
  pub backends : List Backend
  pub rr : ℕ

-- Times are nanoseconds.
pub record Session : Type 0 where
  pub backend : Addr
  pub gen : ℕ
  pub last_seen : ℕ

pub record Router : Type 0 where
  pub pools : Map ℕ Pool
  pub sessions : Map AddrPort Session
  pub gen : ℕ

-- uint64 and uint32 keep the low bits.
abbrev pub u64 : ℕ
u64 = 2 ^ 64

abbrev pub u32 : ℕ
u32 = 2 ^ 32

abbrev pub new_router : Router
new_router = record { pools = empty_map; sessions = empty_map; gen = 0 }

-- `&pool{}`
abbrev pub empty_pool : Pool
empty_pool = record { backends = []; rr = 0 }

abbrev pub no_backend : Backend
no_backend = record { ip = v4 0; gen = 0 }

abbrev pub set_pool : Router → ℕ → Option Pool → Router
set_pool r port p = record r { pools = update ℕ_discrete r.pools port p }

abbrev pub set_session : Router → AddrPort → Session → Router
set_session r c s = record r { sessions = update AddrPort-discrete r.sessions c (some s) }

-- (*pool).find
unfoldable pub find : Addr → List Backend → Option Backend
find ip [] = none
find ip (b ∷ bs) = ite (Addr-discrete b.ip ip) (some b) (find ip bs)

-- The loop of addBackend: the generation of the first backend at `ip` is replaced; the old one is
-- returned with the new list.
unfoldable pub bump : Addr → ℕ → List Backend → Option (ℕ × List Backend)
bump ip g [] = none
bump ip g (b ∷ bs) =
    ite (Addr-discrete b.ip ip) (some (b.gen, record b { gen = g } ∷ bs))
      (Option.map (λ (old, rest). (old, b ∷ rest)) (bump ip g bs))

-- The loop of removeBackend: the first backend at `ip` is cut out; its generation is returned.
unfoldable pub cut : Addr → List Backend → Option (ℕ × List Backend)
cut ip [] = none
cut ip (b ∷ bs) =
    ite (Addr-discrete b.ip ip) (some (b.gen, bs))
      (Option.map (λ (old, rest). (old, b ∷ rest)) (cut ip bs))

pub record Added : Type 0 where
  pub new_gen : ℕ
  pub old_gen : ℕ
  pub replaced : Bool

abbrev pub pool_or_new : Option Pool → Pool
pool_or_new none = empty_pool
pool_or_new (some p) = p

abbrev pub next_gen : Router → ℕ
next_gen r = (r.gen + 1) % u64

unfoldable pub add_backend : Router → ℕ → Addr → Router × Added
add_backend r port ip =
    let g = next_gen r in
    let p = pool_or_new (r.pools port) in
    let r' = record r { gen = g } in
    elim (bump ip g p.backends) [
      | some (old, bs) ↦ (
        set_pool r' port (some (record p { backends = bs })),
        record { new_gen = g; old_gen = old; replaced = true },
      )
      | none ↦ (
        set_pool r' port
            (some (record p { backends = p.backends ++ record { ip = ip; gen = g } ∷ [] })),
        record { new_gen = g; old_gen = 0; replaced = false },
      )
    ]

pub record Removed : Type 0 where
  pub gen : ℕ
  pub ok : Bool
  pub drained : Bool

abbrev pub is_nil {ℓ} : {A : Type ℓ} → List A → Bool
is_nil [] = true
is_nil (x ∷ xs) = false

remove_from : Router → ℕ → Addr → Pool → Router × Removed
remove_from r port ip p = elim (cut ip p.backends) [
  | some (g, bs) ↦ (
    set_pool r port (some (record p { backends = bs })),
    record { gen = g; ok = true; drained = is_nil bs },
  )
  | none ↦ (r, record { gen = 0; ok = false; drained = is_nil p.backends })
]

unfoldable pub remove_backend : Router → ℕ → Addr → Router × Removed
unfolding remove_from
remove_backend r port ip = elim (r.pools port) [
  | none ↦ (r, record { gen = 0; ok = false; drained = false })
  | some p ↦ remove_from r port ip p
]

unfoldable pub unmanage : Router → ℕ → Router
unmanage r port = set_pool r port none

-- The known client: forwarded only to the instance that its session names.
route_known : Router → AddrPort → ℕ → Pool → Session → Router × ℕ × Verdict
route_known r client now p s = elim (find s.backend p.backends) [
  | some b ↦
      if b.gen == s.gen
      then (set_session r client (record s { last_seen = now }), s.gen % u32, dnat)
      else (r, 0, drop)
  | none ↦ (r, 0, drop)
]

-- p.backends[p.rr % len(p.backends)], in range as the pool is not empty.
unfoldable pub pick : Pool → Backend
pick p = get_or p.backends (p.rr % length p.backends) no_backend

-- The new client: the pool's cursor picks the backend and moves on.
route_new : Router → AddrPort → ℕ → ℕ → Pool → Router × ℕ × Verdict
route_new r client port now p =
    if is_nil p.backends
    then (r, 0, drop)
    else let b = pick p in
      (
        set_session (set_pool r port (some (record p { rr = (p.rr + 1) % u64 }))) client
            (record { backend = b.ip; gen = b.gen; last_seen = now }),
        b.gen % u32,
        dnat,
      )

unfoldable pub route : Router → AddrPort → ℕ → ℕ → Router × ℕ × Verdict
unfolding route_known route_new
route r client port now = elim (r.pools port) [
  | none ↦ (r, 0, accept)
  | some p ↦ elim (r.sessions client) [
    | some s ↦ route_known r client now p s
    | none ↦ route_new r client port now p
  ]
]

-- now.Sub(lastSeen) > ttl; a `last_seen` in the future gives no positive duration.
keep_fresh : ℕ → ℕ → Option Session → Option Session
keep_fresh ttl now none = none
keep_fresh ttl now (some s) = ite (dec_lt ttl (now - s.last_seen)) none (some s)

unfoldable pub sweep : Router → ℕ → ℕ → Router
unfolding keep_fresh
sweep r ttl now = record r { sessions = λ c. keep_fresh ttl now (r.sessions c) }
