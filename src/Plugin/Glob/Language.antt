-- ===== src/Plugin/Glob/Language.antt =====
-- The language of a compiled glob, piece by piece, and that matching decides it.
use csfleet.Prelude.{
  ℕ, Bool, true, false, not, List, [], ◌∷◌, ◌++◌, ◌==◌, ◌≡◌, ◌≢◌, ◌↔◌, ◌⊎◌, inl, inr, refl, ap, All,
  Bool-cases, arith,
}
use csfleet.Plugin.Glob.{
  slash, newline, Piece, any_run, segment_run, segment_one, literal, Regexp, in_line, at_end,
  run_then, one_then, pieces_match, match_string,
}

abbrev pub Word : Type 0
Word = List ℕ

-- The words that a piece spells.
abbrev pub Spells : Piece → Word → Type 0
Spells any_run u = All (λ c. c ≢ newline) u
Spells segment_run u = All (λ c. c ≢ slash) u
Spells segment_one u = (c : ℕ) × (u ≡ c ∷ []) × (c ≢ slash)
Spells (literal x) u = u ≡ x ∷ []

-- A text is cut into words that the pieces spell in turn, and an end.
abbrev pub Concat : List Piece → (Word → Type 0) → Word → Type 0
Concat [] End s = End s
Concat (p ∷ ps) End s = (u : Word) × (v : Word) × (s ≡ u ++ v) × Spells p u × Concat ps End v

abbrev pub End : Bool → Word → Type 0
End false s = s ≡ []
End true s = (s ≡ []) ⊎ ((v : Word) × (s ≡ slash ∷ v) × All (λ c. c ≢ newline) v)

abbrev pub Language : Regexp → Word → Type 0
Language re = Concat re.pieces (End re.below)

in_line_iff : (s : Word) → (in_line s ≡ true) ↔ All (λ c. c ≢ newline) s
unfolding in_line
in_line_iff [] = (λ _. tt, λ _. refl)
in_line_iff (c ∷ s) =
    let (there, back) = in_line_iff s in
    (λ h. (ground arith, there (ground arith)), λ h. ground (arith, back h.1))

tail_eq : {c d : ℕ} {s v : Word} → c ∷ s ≡ d ∷ v → s ≡ v
tail_eq e = cc

at_end_iff : (below : Bool) (s : Word) → (at_end below s ≡ true) ↔ End below s
unfolding at_end
at_end_iff false [] = (λ _. refl, λ _. refl)
at_end_iff false (c ∷ s) = (λ h. cc, λ h. cc)
at_end_iff true [] = (λ _. inl refl, λ _. refl)
at_end_iff true (c ∷ s) =
    let (there, back) = in_line_iff s in
    (
      λ h. inr (s, ground arith, there (ground arith)),
      λ h. elim h [ inl e ↦ cc | inr (v, e, l) ↦ ground (arith, back (rw (tail_eq e) l)) ],
    )

-- A run and what follows, a rune and what follows.
module _ (takes : ℕ → Bool) (T : ℕ → Type 0) (test : (c : ℕ) → (takes c ≡ true) ↔ T c) where
  module _ (next : Word → Bool) (N : Word → Type 0)
      (rest : (s : Word) → (next s ≡ true) ↔ N s) where
    run_sound :
        (s : Word)
        → run_then takes next s ≡ true
        → (u : Word) × (v : Word) × (s ≡ u ++ v) × All T u × N v
    unfolding run_then
    run_sound [] h = ([], [], refl, tt, (rest []).0 h)
    run_sound (c ∷ s) h = elim (Bool-cases (next (c ∷ s))) [
      | inl now ↦ ([], c ∷ s, refl, tt, (rest (c ∷ s)).0 now)
      | inr later ↦
          let (u, v, e, a, n) = run_sound s (ground arith) in
          (c ∷ u, v, ap (◌∷◌ c) e, ((test c).0 (ground arith), a), n)
    ]

    run_complete : (u v : Word) → All T u → N v → run_then takes next (u ++ v) ≡ true
    unfolding run_then
    run_complete [] [] a n = (rest []).1 n
    run_complete [] (c ∷ v) a n = rw ((rest (c ∷ v)).1 n)
    run_complete (c ∷ u) v a n = ground (arith, (test c).1 a.0, run_complete u v a.1 n)

    one_sound :
        (s : Word) → one_then takes next s ≡ true → (c : ℕ) × (v : Word) × (s ≡ c ∷ v) × T c × N v
    unfolding one_then
    one_sound [] h = cc
    one_sound (c ∷ s) h = (c, s, refl, (test c).0 (ground arith), (rest s).0 (ground arith))

    one_complete : (c : ℕ) (v : Word) → T c → N v → one_then takes next (c ∷ v) ≡ true
    unfolding one_then
    one_complete c v t n = rw ((test c).1 t) ((rest v).1 n)

not-newline : (c : ℕ) → (not (c == newline) ≡ true) ↔ (c ≢ newline)
not-newline c = (λ h. ground arith, λ h. ground arith)

not-slash : (c : ℕ) → (not (c == slash) ≡ true) ↔ (c ≢ slash)
not-slash c = (λ h. ground arith, λ h. ground arith)

is_rune : (x c : ℕ) → (x == c ≡ true) ↔ (c ≡ x)
is_rune x c = (λ h. ground arith, λ h. ground arith)

module _ (end : Word → Bool) (E : Word → Type 0) (ends : (s : Word) → (end s ≡ true) ↔ E s) where
  pieces_iff : (ps : List Piece) (s : Word) → (pieces_match ps end s ≡ true) ↔ Concat ps E s
  unfolding pieces_match
  pieces_iff [] s = ends s
  pieces_iff (any_run ∷ ps) s =
      let rest = pieces_iff ps in
      (
        run_sound _ _ not-newline _ _ rest s,
        λ (u, v, e, a, n). rw e (run_complete _ _ not-newline _ _ rest u v a n),
      )
  pieces_iff (segment_run ∷ ps) s =
      let rest = pieces_iff ps in
      (
        run_sound _ _ not-slash _ _ rest s,
        λ (u, v, e, a, n). rw e (run_complete _ _ not-slash _ _ rest u v a n),
      )
  pieces_iff (segment_one ∷ ps) s =
      let rest = pieces_iff ps in
      (
        λ h.
            let (c, v, e, t, n) = one_sound _ _ not-slash _ _ rest s h in
            (c ∷ [], v, e, (c, refl, t), n),
        λ (u, v, e, (c, f, t), n). rw (e, f) (one_complete _ _ not-slash _ _ rest c v t n),
      )
  pieces_iff (literal x ∷ ps) s =
      let rest = pieces_iff ps in
      (
        λ h.
            let (c, v, e, t, n) = one_sound _ _ (is_rune x) _ _ rest s h in
            (x ∷ [], v, cc, refl, n),
        λ (u, v, e, f, n). rw (e, f) (one_complete _ _ (is_rune x) _ _ rest x v refl n),
      )

-- A compiled glob matches a path exactly when the path is in its language: words without a newline for
-- `**`, words without a slash for `*`, one rune but a slash for `?`, and each other byte itself, in
-- turn, and for a trailing `/**` an optional slash with a rest of one line.
pub match_string_iff : (re : Regexp) (s : Word) → (match_string re s ≡ true) ↔ Language re s
unfolding match_string
match_string_iff re s =
    pieces_iff (at_end re.below) (End re.below) (at_end_iff re.below) re.pieces s
