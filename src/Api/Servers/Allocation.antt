-- ===== src/Api/Servers/Allocation.antt =====
-- The addresses that allocateIP hands out.
use mathlib.Core.Path.{subst}
use csfleet.Prelude.{
  ℕ, zero, suc, ◌+◌, ◌≤◌, ◌<◌, ◌≡◌, refl, inl, inr, true, false, List, Option, none, some, String,
  arith, Bool-cases, dec_le,
}
use text.Mathlib.Text.{◌==◌ as str_eq}
use csfleet.Database.Rows.{Hours, ServerRow}
use csfleet.Api.Servers.{host_ip, used, first_free, allocate_ip}

module _ {h : Hours} (prefix : String) (rows : List (ServerRow h)) where
  -- The numbers from `i` up to `j` are taken.
  abbrev pub AllUsed : ℕ → ℕ → Type 0
  AllUsed i j = (m : ℕ) → i ≤ m → m < j → used (host_ip prefix m) rows ≡ true

  abbrev pub IsLowest : ℕ → ℕ → Option String → Type 0
  IsLowest i j none = AllUsed i j
  IsLowest i j (some ip) =
      (m : ℕ) × (i ≤ m)
      × (m < j)
      × (ip ≡ host_ip prefix m)
      × (used (host_ip prefix m) rows ≡ false)
      × AllUsed i m

  AllUsed-suc : (i j : ℕ) → used (host_ip prefix i) rows ≡ true → AllUsed (i + 1) j → AllUsed i j
  AllUsed-suc i j e l m a b = elim (dec_le (i + 1) m) [
    | yes c ↦ l m c b
    | no c ↦ let same : m ≡ i = omega arith in rw same e
  ]

  IsLowest-suc :
      (i j : ℕ) (o : Option String)
      → used (host_ip prefix i) rows ≡ true
      → IsLowest (i + 1) j o
      → IsLowest i j o
  IsLowest-suc i j none e l = AllUsed-suc i j e l
  IsLowest-suc i j (some ip) e (m, a, b, k, f, u) = (m, omega arith, b, k, f, AllUsed-suc i m e u)

  first_free-IsLowest : (k i : ℕ) → IsLowest i (i + k) (first_free prefix rows k i)
  unfolding first_free
  first_free-IsLowest zero i = λ m a b. absurd (omega arith)
  first_free-IsLowest (suc k) i = elim (Bool-cases (used (host_ip prefix i) rows)) [
    | inl e ↦ rw e (
        IsLowest-suc i (i + suc k) (first_free prefix rows k (i + 1)) e (
          subst (λ j. IsLowest (i + 1) j (first_free prefix rows k (i + 1))) (omega arith)
            (first_free-IsLowest k (i + 1))))
    | inr e ↦ rw e (i, omega arith, omega arith, refl, e, λ m a b. absurd (omega arith))
  ]

  -- With a prefix and a server list that can be read, the address is the lowest of the host numbers 10
  -- to 254 that no server has, and there is none only if every one of them is taken.
  pub allocate_ip-IsLowest :
      str_eq prefix "" ≡ false → IsLowest 10 255 (allocate_ip prefix false rows)
  unfolding allocate_ip
  allocate_ip-IsLowest e = rw e (first_free-IsLowest 245 10)
