-- ===== src/Plugin/Glob/Directories.antt =====
-- What the globs that manifests use match: a plain name, a directory with its contents, and stars that
-- stay within their segment.
use csfleet.Prelude.{
  ℕ, ◌+◌, ◌<◌, Bool, true, false, [], ◌∷◌, ◌++◌, none, some, ◌≡◌, ◌≢◌, ◌↔◌, ◌⊎◌, inl, inr, refl,
  sym, ◌∙◌, ap, map, ltb, ◌≤◌, ◌/◌, ◌%◌, if◌then◌else◌, length, length-append, All, Bool-cases,
  arith,
}
use mathlib.Core.List.{append-nil}
use csfleet.Plugin.Glob.{
  slash, star, question, newline, literal, is_below, cut_below, single, pieces_of, glob_to_regexp,
  match_string,
}
use csfleet.Plugin.Glob.Language.{Word, Concat, End, match_string_iff}

-- A text without `*` and `?`.
abbrev pub Plain : Word → Type 0
Plain g = All (λ c. (c ≢ star) × (c ≢ question)) g

pieces-Plain : (g : Word) → Plain g → pieces_of g ≡ map literal g
unfolding pieces_of single
pieces-Plain [] a = refl
pieces-Plain (c ∷ []) a = ground arith
pieces-Plain (c ∷ d ∷ g) a = ground (arith, pieces-Plain (d ∷ g) a.1)

is_below-Plain : (g : Word) → Plain g → is_below g ≡ false
unfolding is_below
is_below-Plain [] a = refl
is_below-Plain (x ∷ []) a = refl
is_below-Plain (x ∷ y ∷ []) a = refl
is_below-Plain (x ∷ y ∷ z ∷ []) a = ground arith
is_below-Plain (x ∷ y ∷ z ∷ w ∷ g) a = refl

cut_below-Plain : (g : Word) → Plain g → cut_below g ≡ none
unfolding cut_below
cut_below-Plain [] a = refl
cut_below-Plain (c ∷ g) a = rw (is_below-Plain (c ∷ g) a, cut_below-Plain g a.1)

below_dir : Word
below_dir = slash ∷ star ∷ star ∷ []

is_below-long : (g : Word) → 3 < length g → is_below g ≡ false
unfolding is_below
is_below-long [] h = refl
is_below-long (x ∷ []) h = refl
is_below-long (x ∷ y ∷ []) h = refl
is_below-long (x ∷ y ∷ z ∷ []) h = absurd (omega arith)
is_below-long (x ∷ y ∷ z ∷ w ∷ g) h = refl

cut_below_dir : (d : Word) → cut_below (d ++ slash ∷ star ∷ star ∷ []) ≡ some d
unfolding cut_below is_below
cut_below_dir [] = refl
cut_below_dir (c ∷ d) =
    rw
      (is_below-long (c ∷ d ++ slash ∷ star ∷ star ∷ [])
        (omega (arith, length-append d (slash ∷ star ∷ star ∷ []))))
      (rw (cut_below_dir d))

-- Literal pieces spell their own text and no other.
literals :
    (g : Word) (E : Word → Type 0) (s : Word)
    → Concat (map literal g) E s
    → (v : Word) × (s ≡ g ++ v) × E v
literals [] E s h = (s, refl, h)
literals (c ∷ g) E s (u, v, e, f, rest) =
    let (w, e', n) = literals g E v rest in (w, ground arith, n)

literals_back : (g : Word) (E : Word → Type 0) (v : Word) → E v → Concat (map literal g) E (g ++ v)
literals_back [] E v h = h
literals_back (c ∷ g) E v h = (c ∷ [], g ++ v, refl, refl, literals_back g E v h)

literals_iff :
    (g : Word) (b : Bool) (s : Word)
    → Plain g
    → (match_string (record { pieces = pieces_of g; below = b }) s ≡ true)
      ↔ ((v : Word) × (s ≡ g ++ v) × End b v)
literals_iff g b s a = rw (pieces-Plain g a) (
    let (sound, complete) = match_string_iff (record { pieces = map literal g; below = b }) s in
    (
      λ h. literals g (End b) s (sound h),
      λ (v, e, n). complete (rw e (literals_back g (End b) v n)),
    ))

-- The UTF-8 bytes of a rune below 2048, which are those of Latin, Greek and Cyrillic letters.
unfoldable pub encode_rune : ℕ → Word
encode_rune r = if ltb r 128 then r ∷ [] else (192 + r / 64) ∷ (128 + r % 64) ∷ []

unfoldable pub encode : Word → Word
unfolding encode_rune
encode [] = []
encode (r ∷ s) = encode_rune r ++ encode s

abbrev pub Ascii : Word → Type 0
Ascii s = All (λ r. r < 128) s

encode-Ascii : (s : Word) → Ascii s → encode s ≡ s
unfolding encode encode_rune
encode-Ascii [] a = refl
encode-Ascii (r ∷ s) a = ground (arith, encode-Ascii s a.1)

bytes_below :
    (d s : Word)
    → Plain d
    → (match_string (glob_to_regexp (d ++ slash ∷ star ∷ star ∷ [])) s ≡ true)
      ↔ ((s ≡ d) ⊎ ((v : Word) × (s ≡ d ++ slash ∷ v) × All (λ c. c ≢ newline) v))
unfolding glob_to_regexp
bytes_below d s a =
    rw (cut_below_dir d, glob_to_regexp)
      let (sound, complete) = literals_iff d true s a in
        (
          λ h.
              let (v, e, n) = sound h in
              elim n [
                | inl f ↦ inl (e ∙ ap (◌++◌ d) f ∙ append-nil d)
                | inr (w, f, l) ↦ inr (w, e ∙ ap (◌++◌ d) f, l)
              ],
          λ k. elim k [
            | inl e ↦ complete ([], e ∙ sym (append-nil d), inl refl)
            | inr (w, e, l) ↦ complete (slash ∷ w, e, inr (w, refl, l))
          ],
        )

-- A pattern `dir/**` with no `*` and `?` in `dir`, which is ASCII, matches the directory itself and the
-- paths below it (of one line), and no other path. The pattern is given by its UTF-8 bytes, the path by
-- its runes.
pub directory_pattern :
    (d s : Word)
    → Plain d
    → Ascii d
    → (match_string (glob_to_regexp (encode d ++ slash ∷ star ∷ star ∷ [])) s ≡ true)
      ↔ ((s ≡ d) ⊎ ((v : Word) × (s ≡ d ++ slash ∷ v) × All (λ c. c ≢ newline) v))
directory_pattern d s a b = rw (encode-Ascii d b) (bytes_below d s a)

-- A pattern without `*` and `?` matches the path whose runes are its bytes, and no other.
pub name_pattern : (g s : Word) → Plain g → (match_string (glob_to_regexp g) s ≡ true) ↔ (s ≡ g)
unfolding glob_to_regexp
name_pattern g s a =
    rw (cut_below-Plain g a, glob_to_regexp)
      let (sound, complete) = literals_iff g false s a in
        (
          λ h. let (v, e, n) = sound h in e ∙ ap (◌++◌ g) n ∙ append-nil g,
          λ e. complete ([], e ∙ sym (append-nil g), refl),
        )

encode-Plain : (s : Word) → Plain s → Plain (encode s)
unfolding encode
encode-Plain [] a = tt
encode-Plain (r ∷ s) a = elim (Bool-cases (ltb r 128)) [
  | inl e ↦ rw e (a.0, encode-Plain s a.1)
  | inr e ↦ rw e ((ground arith, ground arith), ((ground arith, ground arith), encode-Plain s a.1))
]

abbrev pub Foreign : Word → Type 0
Foreign [] = ⊥
Foreign (r ∷ s) = (128 ≤ r) ⊎ Foreign s

encode-longer : (s : Word) → length s ≤ length (encode s)
unfolding encode
encode-longer [] = omega arith
encode-longer (r ∷ s) = ground (arith, encode-longer s)

encode-Foreign : (s : Word) → Foreign s → length s < length (encode s)
unfolding encode
encode-Foreign [] f = absurd f
encode-Foreign (r ∷ s) (inl h) = ground (arith, encode-longer s)
encode-Foreign (r ∷ s) (inr f) = ground (arith, encode-Foreign s f)

-- The pattern that is a path's own name, without `*` and `?`, does not match the path if the name has a
-- letter beyond ASCII (all its runes below 2048): the bytes of the letter are taken for runes.
pub accented_name_missed :
    (name : Word)
    → Plain name
    → Foreign name
    → match_string (glob_to_regexp (encode name)) name ≡ false
accented_name_missed name a f =
    elim (Bool-cases (match_string (glob_to_regexp (encode name)) name)) [
      | inr e ↦ e
      | inl e ↦
          let same = (name_pattern (encode name) name (encode-Plain name a)).0 e in
          absurd (omega (arith, ap length same, encode-Foreign name f))
    ]
