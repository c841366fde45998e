-- ===== src/Plugin/Glob.antt =====
-- orchestration/plugin/apply.go: globToRegexp, and what the compiled expression matches. A glob is its
-- bytes, since the loop is over bytes, and `string(c)` makes a rune of each. A path is its runes. The
-- expression is a list of the pieces that the loop writes instead of their text.
pub mod Language
pub mod Directories
pub mod Segments
use csfleet.Prelude.{
  ℕ, Bool, true, false, not, ◌&&◌, List, [], ◌∷◌, Option, none, some, ◌==◌, if◌then◌else◌,
}

abbrev pub slash : ℕ
slash = 0x2f

abbrev pub star : ℕ
star = 0x2a

abbrev pub question : ℕ
question = 0x3f

abbrev pub newline : ℕ
newline = 0x0a

-- What the loop writes: `.*`, `[^/]*`, `[^/]`, and one quoted rune.
pub data Piece : Type 0 where
  any_run : Piece
  segment_run : Piece
  segment_one : Piece
  literal : ℕ → Piece

-- The expression between `^` and the suffix, which is `(/.*)?$` if `below`, and `$` if not.
pub record Regexp : Type 0 where
  pub pieces : List Piece
  pub below : Bool

unfoldable pub is_below : List ℕ → Bool
is_below (a ∷ b ∷ c ∷ []) = a == slash && (b == star && c == star)
is_below _ = false

abbrev pub prepend : ℕ → Option (List ℕ) → Option (List ℕ)
prepend c none = none
prepend c (some g) = some (c ∷ g)

-- strings.CutSuffix(glob, "/**")
unfoldable pub cut_below : List ℕ → Option (List ℕ)
unfolding is_below
cut_below [] = none
cut_below (c ∷ g) = if is_below (c ∷ g) then some [] else prepend c (cut_below g)

-- A byte that does not begin `**`.
unfoldable pub single : ℕ → Piece
single c = if c == star then segment_run else if c == question then segment_one else literal c

-- The loop.
unfoldable pub pieces_of : List ℕ → List Piece
unfolding single
pieces_of [] = []
pieces_of (c ∷ []) = single c ∷ []
pieces_of (c ∷ d ∷ g) = elim (c == star && d == star) [
  | true ↦ any_run ∷ pieces_of g
  | false ↦ single c ∷ pieces_of (d ∷ g)
]

unfoldable pub glob_to_regexp : List ℕ → Regexp
unfolding cut_below pieces_of
glob_to_regexp glob = elim (cut_below glob) [
  | some rest ↦ record { pieces = pieces_of rest; below = true }
  | none ↦ record { pieces = pieces_of glob; below = false }
]

-- `.` is any rune but a newline.
unfoldable pub in_line : List ℕ → Bool
in_line [] = true
in_line (c ∷ s) = not (c == newline) && in_line s

-- The suffix.
unfoldable pub at_end : Bool → List ℕ → Bool
unfolding in_line
at_end below [] = true
at_end below (c ∷ s) = below && (c == slash && in_line s)

-- A run that takes the runes which `takes` accepts, with what follows it.
unfoldable pub run_then : (takes : ℕ → Bool) → (List ℕ → Bool) → List ℕ → Bool
run_then takes next [] = next []
run_then takes next (c ∷ s) =
    let more = takes c && run_then takes next s in if next (c ∷ s) then true else more

unfoldable pub one_then : (takes : ℕ → Bool) → (List ℕ → Bool) → List ℕ → Bool
one_then takes next [] = false
one_then takes next (c ∷ s) = takes c && next s

unfoldable pub pieces_match : List Piece → (List ℕ → Bool) → List ℕ → Bool
unfolding run_then one_then
pieces_match [] end s = end s
pieces_match (any_run ∷ ps) end s = run_then (λ c. not (c == newline)) (pieces_match ps end) s
pieces_match (segment_run ∷ ps) end s = run_then (λ c. not (c == slash)) (pieces_match ps end) s
pieces_match (segment_one ∷ ps) end s = one_then (λ c. not (c == slash)) (pieces_match ps end) s
pieces_match (literal x ∷ ps) end s = one_then (λ c. x == c) (pieces_match ps end) s

-- re.MatchString
unfoldable pub match_string : Regexp → List ℕ → Bool
unfolding pieces_match at_end
match_string re s = pieces_match re.pieces (at_end re.below) s
