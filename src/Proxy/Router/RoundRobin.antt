-- ===== src/Proxy/Router/RoundRobin.antt =====
-- New clients: the pool's cursor hands out its backends in turn. A client that sweep forgot is new.
use mathlib.Core.Path.{◌≡⟨◌⟩◌, ◌∎}
use native.Mathlib.Nat.{add-zero, mod-lt, mod-eq_of_lt, mod-add-mod, add-mod-mod, add-mod_right}
use csfleet.Prelude.{
  zero, suc, get_elem?, ℕ, ◌+◌, ◌-◌, ◌%◌, ◌<◌, ◌≡◌, ◌≢◌, refl, sym, ap, ◌∙◌, List, [], ◌∷◌, none,
  some, arith, All, false, length, get_or,
}
use csfleet.Proxy.Addr.{Addr, AddrPort}
use csfleet.Proxy.Router.{
  Router, Backend, Session, Pool, Verdict, dnat, route, u32, u64, find, pick, is_nil, no_backend,
  add_backend, sweep,
}
use csfleet.Proxy.Router.Effects.{backends_at, sessions-add_backend}
use csfleet.Proxy.Router.Orphans.{find-add_backend}

-- The packets of several clients to one port, in order.
unfoldable pub route_all : Router → List AddrPort → ℕ → ℕ → List (ℕ × Verdict)
route_all r [] port now = []
route_all r (c ∷ cs) port now =
    ((route r c port now).1, (route r c port now).2) ∷ route_all (route r c port now).0 cs port now

-- What a fixed list of backends answers from cursor `k` on.
unfoldable pub turns : List Backend → ℕ → List AddrPort → List (ℕ × Verdict)
turns bs k [] = []
turns bs k (c ∷ cs) = ((get_or bs (k % length bs) no_backend).gen % u32, dnat) ∷ turns bs (k + 1) cs

-- No client has a session, and none comes twice.
abbrev pub AreNew : Router → List AddrPort → Type 0
AreNew r [] = Unit
AreNew r (c ∷ cs) = (r.sessions c ≡ none) × All (λ d. c ≢ d) cs × AreNew r cs

route_other :
    (r : Router) (c d : AddrPort) (port now : ℕ)
    → c ≢ d
    → (route r c port now).0.sessions d ≡ r.sessions d
unfolding route
route_other r c d port now n = ground arith

AreNew-route :
    (r : Router) (c : AddrPort) (port now : ℕ) (cs : List AddrPort)
    → All (λ d. c ≢ d) cs
    → AreNew r cs
    → AreNew (route r c port now).0 cs
AreNew-route r c port now [] a w = tt
AreNew-route r c port now (d ∷ cs) a w =
    (route_other r c d port now a.0 ∙ w.0, w.1, AreNew-route r c port now cs a.1 w.2)

route_turn :
    (r : Router) (c : AddrPort) (port now : ℕ) (p : Pool)
    → r.pools port ≡ some p
    → is_nil p.backends ≡ false
    → r.sessions c ≡ none
    → p.rr + 1 < u64
    → ((route r c port now).1 ≡ (get_or p.backends (p.rr % length p.backends) no_backend).gen % u32)
      × ((route r c port now).2 ≡ dnat)
      × ((route r c port now).0.pools port ≡ some (record p { rr = p.rr + 1 }))
unfolding route pick
route_turn r c port now p e ne w fits =
    let cursor : (p.rr + 1) % u64 ≡ p.rr + 1 = omega arith in
    (ground arith, ground arith, ground (arith, cursor))

-- Round robin: distinct clients without a session are all forwarded, to the backends of the pool in
-- turn, starting at its cursor, as long as the cursor does not wrap.
pub round_robin :
    (cs : List AddrPort) (r : Router) (port now : ℕ) (p : Pool)
    → r.pools port ≡ some p
    → is_nil p.backends ≡ false
    → AreNew r cs
    → p.rr + length cs < u64
    → route_all r cs port now ≡ turns p.backends p.rr cs
unfolding route_all turns
round_robin [] r port now p e ne w fits = refl
round_robin (c ∷ cs) r port now p e ne w fits =
    let (mark, verdict, moved) = route_turn r c port now p e ne w.0 (omega arith) in
    let rest =
      round_robin cs (route r c port now).0 port now (record p { rr = p.rr + 1 }) moved ne
        (AreNew-route r c port now cs w.1 w.2) (omega arith) in
    rw (mark, verdict, rest)

new-dnat :
    (r : Router) (c : AddrPort) (port now : ℕ)
    → r.sessions c ≡ none
    → is_nil (backends_at r port) ≡ false
    → (route r c port now).2 ≡ dnat
unfolding route
new-dnat r c port now k n = ground arith

find-is_nil :
    (ip : Addr) (bs : List Backend) (b : Backend) → find ip bs ≡ some b → is_nil bs ≡ false
unfolding find
find-is_nil ip [] b e = cc
find-is_nil ip (x ∷ bs) b e = refl

-- A client whose session is older than `ttl` is a new one after sweep: its next packet is forwarded
-- to whatever backend has come up, also when that is a restart of the instance it was assigned to.
pub sweep_forgets :
    (r : Router) (c : AddrPort) (s : Session) (port : ℕ) (ip : Addr) (ttl now later : ℕ)
    → r.sessions c ≡ some s
    → ttl < now - s.last_seen
    → (route (add_backend (sweep r ttl now) port ip).0 c port later).2 ≡ dnat
unfolding sweep
sweep_forgets r c s port ip ttl now later e old =
    let swept = sweep r ttl now in
    new-dnat (add_backend swept port ip).0 c port later
      (rw (sessions-add_backend swept port ip) (ground arith))
      (find-is_nil ip _ _ (find-add_backend swept port ip))

mod_cycle : (k n i : ℕ) → i < n → (k + (i + n - k % n) % n) % n ≡ i
mod_cycle k n i h =
    let below = mod-lt k {m = n} (omega arith) in
    (k + (i + n - k % n) % n) % n
    ≡⟨ add-mod-mod k (i + n - k % n) n ⟩ (k + (i + n - k % n)) % n
    ≡⟨ sym (mod-add-mod k n (i + n - k % n)) ⟩ (k % n + (i + n - k % n)) % n
    ≡⟨ ap (λ (t : ℕ). t % n) (omega (arith, below)) ⟩ (i + n) % n
    ≡⟨ add-mod_right i n ∙ mod-eq_of_lt h ⟩ i ∎

get_elem?-turns :
    (bs : List Backend) (k : ℕ) (cs : List AddrPort) (j : ℕ)
    → j < length cs
    → get_elem? (turns bs k cs) j
      ≡ some ((get_or bs ((k + j) % length bs) no_backend).gen % u32, dnat)
unfolding turns
get_elem?-turns bs k [] j h = absurd (omega arith)
get_elem?-turns bs k (c ∷ cs) zero h = rw add-zero
get_elem?-turns bs k (c ∷ cs) (suc j) h =
    let shift : k + 1 + j ≡ k + suc j = omega arith in
    get_elem?-turns bs (k + 1) cs j (omega arith) ∙ rw shift

-- Fairness: of as many distinct new clients as the pool has backends, every backend gets one, at
-- whatever cursor the pool stands, as long as it does not wrap.
pub round_robin_fair :
    (cs : List AddrPort) (r : Router) (port now : ℕ) (p : Pool) (i : ℕ)
    → r.pools port ≡ some p
    → AreNew r cs
    → p.rr + length cs < u64
    → length cs ≡ length p.backends
    → i < length p.backends
    → (j : ℕ) × (j < length cs)
      × (get_elem? (route_all r cs port now) j
          ≡ some ((get_or p.backends i no_backend).gen % u32, dnat))
round_robin_fair cs r port now p i e w fits all h =
    let n = length p.backends in
    let j = (i + n - p.rr % n) % n in
    let turn = mod_cycle p.rr n i h in
    let below = mod-lt (i + n - p.rr % n) {m = n} (omega arith) in
    (
      j,
      omega (arith, below, all),
      rw (round_robin cs r port now p e (not-nil p.backends i h) w fits) (
          get_elem?-turns p.backends p.rr cs j (omega (arith, below, all))
          ∙ ap (λ (t : ℕ). some ((get_or p.backends t no_backend).gen % u32, dnat)) turn),
    )
  where
    not-nil : (bs : List Backend) (i : ℕ) → i < length bs → is_nil bs ≡ false
    not-nil [] i h = absurd (omega arith)
    not-nil (b ∷ bs) i h = refl
