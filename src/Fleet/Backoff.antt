-- ===== src/Fleet/Backoff.antt =====
-- orchestration/fleet/worker.go: backoff and the constants of the retry delay. Durations are int64
-- nanoseconds.
use Prim.Native.Nat.{min}
use csfleet.Prelude.{
  ℕ, zero, suc, ◌+◌, ◌-◌, ◌*◌, ◌%◌, ◌^◌, ◌≤◌, ◌<◌, ◌≡◌, refl, Bool, true, false, ◌&&◌, ◌||◌, arith,
  ltb, leb, ◌==◌, if◌then◌else◌, ℕ_discrete, dec_lt,
}

abbrev pub second : ℕ
second = 1_000_000_000

abbrev pub backoff_base : ℕ
backoff_base = 2 * second

abbrev pub backoff_max : ℕ
backoff_max = 120 * second

-- `backoffBase << (n - 1)` keeps the low 64 bits; a result with the top bit set is negative.
unfoldable pub backoff : ℕ → ℕ
backoff n =
    let m : ℕ = if ltb n 1 then 1 else n in
    if ltb 30 m
    then backoff_max
    else let d : ℕ = backoff_base * 2 ^ (m - 1) % 2 ^ 64 in
      if ltb backoff_max d || (d == 0 || leb (2 ^ 63) d) then backoff_max else d

-- What a run of `left` crashes from the count `n` on is checked for.
abbrev regular : ℕ → Bool
regular n =
    leb backoff_base (backoff n)
    && leb (backoff n) backoff_max
    && (backoff (n + 1 + 1) == min (2 * backoff (n + 1)) backoff_max)

regular_run : (left n : ℕ) → Bool
regular_run zero n = true
regular_run (suc left) n = if regular n then regular_run left (n + 1) else false

-- A run that passes is regular at each of its counts.
regular_at : (left n k : ℕ) → regular_run left n ≡ true → n ≤ k → k < n + left → regular k ≡ true
unfolding regular_run
regular_at zero n k run low high = absurd (omega arith)
regular_at (suc left) n k run low high = elim (ℕ_discrete n k) [
  | yes e ↦ ground arith
  | no ne ↦ ground (arith, regular_at left (n + 1) k)
]

backoff-table : regular_run 31 0 ≡ true
unfolding regular_run backoff
backoff-table = refl

backoff-large : (n : ℕ) → 30 < n → backoff n ≡ backoff_max
unfolding backoff
backoff-large n h = ground arith

-- The delay starts at two seconds and doubles with each further crash, up to two minutes; the shift
-- never overflows into a shorter delay.
pub backoff_doubles :
    (n : ℕ)
    → (backoff 1 ≡ backoff_base) × (backoff (n + 1 + 1) ≡ min (2 * backoff (n + 1)) backoff_max)
backoff_doubles n = (
  unfold backoff in refl,
  elim (dec_lt n 31) [
    | yes h ↦ ground (arith, regular_at 31 0 n backoff-table (omega arith) h)
    | no h ↦
        omega (arith, backoff-large (n + 1) (omega arith), backoff-large (n + 1 + 1) (omega arith))
  ],
)

-- The delay is at least two seconds and at most two minutes, whatever the number of crashes.
pub backoff_bounds : (n : ℕ) → (backoff_base ≤ backoff n) × (backoff n ≤ backoff_max)
backoff_bounds n = elim (dec_lt n 31) [
  | yes h ↦ ground (arith, regular_at 31 0 n backoff-table (omega arith) h)
  | no h ↦ omega (arith, backoff-large n (omega arith))
]
