-- ===== src/Plugin/Glob/Segments.antt =====
-- Globs without `**`: their stars stay within a segment.
use csfleet.Prelude.{
  ℕ, ◌+◌, Bool, true, false, not, ◌&&◌, ◌==◌, [], ◌∷◌, ◌++◌, none, ◌≡◌, ◌≢◌, refl, ◌∙◌, map, All,
  if◌then◌else◌, arith,
}
use csfleet.Plugin.Glob.{
  slash, star, Piece, any_run, segment_run, segment_one, literal, is_below, cut_below, single,
  pieces_of, glob_to_regexp, match_string,
}
use csfleet.Plugin.Glob.Language.{Word, Spells, Concat, match_string_iff}

unfoldable pub no_deep : Word → Bool
no_deep [] = true
no_deep (c ∷ []) = true
no_deep (c ∷ d ∷ g) = not (c == star && d == star) && no_deep (d ∷ g)

-- The depth of a path.
unfoldable pub slashes : Word → ℕ
slashes [] = 0
slashes (c ∷ s) = (if c == slash then 1 else 0) + slashes s

slashes-append : (u v : Word) → slashes (u ++ v) ≡ slashes u + slashes v
unfolding slashes
slashes-append [] v = omega arith
slashes-append (c ∷ u) v = omega (arith, slashes-append u v)

no_deep-below : (g : Word) → no_deep g ≡ true → is_below g ≡ false
unfolding no_deep is_below
no_deep-below [] h = refl
no_deep-below (x ∷ []) h = refl
no_deep-below (x ∷ y ∷ []) h = refl
no_deep-below (x ∷ y ∷ z ∷ []) h = ground arith
no_deep-below (x ∷ y ∷ z ∷ w ∷ g) h = refl

no_deep-tail : (c : ℕ) (g : Word) → no_deep (c ∷ g) ≡ true → no_deep g ≡ true
unfolding no_deep
no_deep-tail c [] h = refl
no_deep-tail c (d ∷ g) h = ground arith

cut_below-no_deep : (g : Word) → no_deep g ≡ true → cut_below g ≡ none
unfolding cut_below
cut_below-no_deep [] h = refl
cut_below-no_deep (c ∷ g) h = rw (no_deep-below (c ∷ g) h, cut_below-no_deep g (no_deep-tail c g h))

pieces-no_deep : (g : Word) → no_deep g ≡ true → pieces_of g ≡ map single g
unfolding pieces_of no_deep
pieces-no_deep [] h = refl
pieces-no_deep (c ∷ []) h = refl
pieces-no_deep (c ∷ d ∷ g) h = ground (arith, pieces-no_deep (d ∷ g))

no_slash : (u : Word) → All (λ c. c ≢ slash) u → slashes u ≡ 0
unfolding slashes
no_slash [] a = refl
no_slash (c ∷ u) a = ground (arith, no_slash u a.1)

-- The slashes in a word that a piece spells, for the pieces that spell a fixed number of them.
abbrev depth : Piece → ℕ
depth (literal c) = slashes (c ∷ [])
depth _ = 0

slashes-Spells : (p : Piece) (u : Word) → p ≢ any_run → Spells p u → slashes u ≡ depth p
unfolding slashes
slashes-Spells any_run u n h = absurd (n refl)
slashes-Spells segment_run u n h = no_slash u h
slashes-Spells segment_one u n (c, e, h) = rw e (ground arith)
slashes-Spells (literal c) u n h = rw h

single-ne : (c : ℕ) → single c ≢ any_run
unfolding single
single-ne c = ground arith

depth-single : (c : ℕ) → depth (single c) ≡ slashes (c ∷ [])
unfolding slashes single
depth-single c = ground arith

slashes-single : (c : ℕ) (u : Word) → Spells (single c) u → slashes u ≡ slashes (c ∷ [])
slashes-single c u h = slashes-Spells (single c) u (single-ne c) h ∙ depth-single c

slashes-Concat : (g s : Word) → Concat (map single g) (λ v. v ≡ []) s → slashes s ≡ slashes g
unfolding slashes
slashes-Concat [] s e = rw e
slashes-Concat (c ∷ g) s (u, v, e, f, rest) =
    rw e (omega (arith, slashes-append u v, slashes-single c u f, slashes-Concat g v rest))

-- A path that a glob without `**` matches is as deep as the glob.
pub match-depth :
    (g s : Word)
    → no_deep g ≡ true
    → match_string (glob_to_regexp g) s ≡ true
    → slashes s ≡ slashes g
unfolding glob_to_regexp
match-depth g s h =
    rw (cut_below-no_deep g h, glob_to_regexp, pieces-no_deep g h)
      λ m. slashes-Concat g s ((match_string_iff _ s).0 m)
