-- ===== src/Proxy/Router/Backends.antt =====
-- The backend list of one pool: what find, the loop of addBackend and the loop of removeBackend do.
use csfleet.Prelude.{
  ℕ, ◌≡◌, refl, sym, ◌≢◌, ◌⊎◌, Option, none, some, List, [], ◌∷◌, ◌++◌, arith, Has,
}
use csfleet.Proxy.Addr.{Addr}
use csfleet.Proxy.Router.{Backend, find, bump, cut}

abbrev pub NotIn : Addr → List Backend → Type 0
NotIn ip [] = Unit
NotIn ip (b ∷ bs) = (b.ip ≢ ip) × NotIn ip bs

abbrev pub DistinctIps : List Backend → Type 0
DistinctIps [] = Unit
DistinctIps (b ∷ bs) = NotIn b.ip bs × DistinctIps bs

-- The list after a loop: its result, or the list itself if the loop found nothing.
abbrev pub left_by : List Backend → Option (ℕ × List Backend) → List Backend
left_by bs none = bs
left_by bs (some (g, rest)) = rest

pub NotIn-Has : (ip : Addr) (b : Backend) (bs : List Backend) → NotIn ip bs → Has b bs → b.ip ≢ ip
NotIn-Has ip b [] n h = absurd h
NotIn-Has ip b (x ∷ bs) n h = ground (arith, NotIn-Has ip b bs n.1)

pub find-Has :
    (ip : Addr) (bs : List Backend) (b : Backend) → find ip bs ≡ some b → Has b bs × (b.ip ≡ ip)
unfolding find
find-Has ip [] b e = cc
find-Has ip (x ∷ bs) b e = ground (arith, find-Has ip bs b)

pub find_of_Has :
    (bs : List Backend) (b : Backend) → DistinctIps bs → Has b bs → find b.ip bs ≡ some b
unfolding find
find_of_Has [] b d h = absurd h
find_of_Has (x ∷ bs) b d h = ground (arith, find_of_Has bs b d.1, NotIn-Has x.ip b bs d.0)

pub find-NotIn : (ip : Addr) (bs : List Backend) → NotIn ip bs → find ip bs ≡ none
unfolding find
find-NotIn ip [] n = refl
find-NotIn ip (x ∷ bs) n = ground (arith, find-NotIn ip bs n.1)

module _ (ip : Addr) (g : ℕ) where
  pub Has-bump :
      (bs : List Backend) (b : Backend)
      → Has b (left_by bs (bump ip g bs))
      → ((b.ip ≡ ip) × (b.gen ≡ g)) ⊎ Has b bs
  unfolding bump
  Has-bump [] b h = absurd h
  Has-bump (x ∷ bs) b h = ground (arith, Has-bump bs b)

  NotIn-bump : (bs : List Backend) (j : Addr) → NotIn j bs → NotIn j (left_by bs (bump ip g bs))
  unfolding bump
  NotIn-bump [] j n = tt
  NotIn-bump (x ∷ bs) j n = ground (arith, NotIn-bump bs j n.1)

  pub bump-DistinctIps :
      (bs : List Backend) → DistinctIps bs → DistinctIps (left_by bs (bump ip g bs))
  unfolding bump
  bump-DistinctIps [] d = tt
  bump-DistinctIps (x ∷ bs) d = ground (arith, bump-DistinctIps bs d.1, NotIn-bump bs x.ip d.0)

  pub bump-none : (bs : List Backend) → bump ip g bs ≡ none → NotIn ip bs
  unfolding bump
  bump-none [] e = tt
  bump-none (x ∷ bs) e = ground (arith, bump-none bs)

  -- A backend that was found carries the new generation, and the others are as they were.
  pub find-bump :
      (bs : List Backend)
      → bump ip g bs ≢ none
      → find ip (left_by bs (bump ip g bs)) ≡ some (record { ip = ip; gen = g })
  unfolding bump find
  find-bump [] n = absurd (n refl)
  find-bump (x ∷ bs) n = ground (arith, find-bump bs)

  pub Has-bump_other :
      (bs : List Backend) (b : Backend) → b.ip ≢ ip → Has b bs → Has b (left_by bs (bump ip g bs))
  unfolding bump
  Has-bump_other [] b n h = absurd h
  Has-bump_other (x ∷ bs) b n h = ground (arith, Has-bump_other bs b n)

module _ (ip : Addr) where
  pub Has-cut : (bs : List Backend) (b : Backend) → Has b (left_by bs (cut ip bs)) → Has b bs
  unfolding cut
  Has-cut [] b h = absurd h
  Has-cut (x ∷ bs) b h = ground (arith, Has-cut bs b)

  NotIn-cut_other : (bs : List Backend) (j : Addr) → NotIn j bs → NotIn j (left_by bs (cut ip bs))
  unfolding cut
  NotIn-cut_other [] j n = tt
  NotIn-cut_other (x ∷ bs) j n = ground (arith, NotIn-cut_other bs j n.1)

  pub cut-DistinctIps : (bs : List Backend) → DistinctIps bs → DistinctIps (left_by bs (cut ip bs))
  unfolding cut
  cut-DistinctIps [] d = tt
  cut-DistinctIps (x ∷ bs) d = ground (arith, cut-DistinctIps bs d.1, NotIn-cut_other bs x.ip d.0)

  pub NotIn-cut : (bs : List Backend) → DistinctIps bs → NotIn ip (left_by bs (cut ip bs))
  unfolding cut
  NotIn-cut [] d = tt
  NotIn-cut (x ∷ bs) d = ground (arith, NotIn-cut bs d.1)

  -- The other backends stay.
  pub Has-cut_other :
      (bs : List Backend) (b : Backend) → b.ip ≢ ip → Has b bs → Has b (left_by bs (cut ip bs))
  unfolding cut
  Has-cut_other [] b n h = absurd h
  Has-cut_other (x ∷ bs) b n h = ground (arith, Has-cut_other bs b n)

pub append-DistinctIps :
    (bs : List Backend) (b : Backend) → DistinctIps bs → NotIn b.ip bs → DistinctIps (bs ++ b ∷ [])
append-DistinctIps [] b d n = (tt, tt)
append-DistinctIps (x ∷ bs) b d n =
    (NotIn-snoc x.ip bs b d.0 (λ e. n.0 (sym e)), append-DistinctIps bs b d.1 n.1)
  where
    NotIn-snoc :
        (ip : Addr) (bs : List Backend) (b : Backend)
        → NotIn ip bs
        → b.ip ≢ ip
        → NotIn ip (bs ++ b ∷ [])
    NotIn-snoc ip [] b n h = (h, tt)
    NotIn-snoc ip (x ∷ bs) b n h = (n.0, NotIn-snoc ip bs b n.1 h)

pub find_append :
    (ip : Addr) (g : ℕ) (bs : List Backend)
    → NotIn ip bs
    → find ip (bs ++ record { ip = ip; gen = g } ∷ []) ≡ some (record { ip = ip; gen = g })
unfolding find
find_append ip g [] n = ground arith
find_append ip g (x ∷ bs) n = ground (arith, find_append ip g bs n.1)

-- A loop for one address leaves every other address as it was.
pub find-bump_other :
    (ip j : Addr) (g : ℕ) (bs : List Backend)
    → ip ≢ j
    → find j (left_by bs (bump ip g bs)) ≡ find j bs
unfolding find bump
find-bump_other ip j g [] n = refl
find-bump_other ip j g (x ∷ bs) n = ground (arith, find-bump_other ip j g bs n)

pub find-cut_other :
    (ip j : Addr) (bs : List Backend) → ip ≢ j → find j (left_by bs (cut ip bs)) ≡ find j bs
unfolding find cut
find-cut_other ip j [] n = refl
find-cut_other ip j (x ∷ bs) n = ground (arith, find-cut_other ip j bs n)

pub find-append_other :
    (j : Addr) (b : Backend) (bs : List Backend) → b.ip ≢ j → find j (bs ++ b ∷ []) ≡ find j bs
unfolding find
find-append_other j b [] n = ground arith
find-append_other j b (x ∷ bs) n = ground (arith, find-append_other j b bs n)
