-- ===== src/Plugin/Templates/Rendering.antt =====
-- What envReplacer makes of a template.
use csfleet.Prelude.{
  ℕ, zero, suc, ◌+◌, true, List, [], ◌∷◌, ◌++◌, none, some, length, length-append, ◌≡◌, ◌≢◌, inl,
  inr, refl, sym, ◌∙◌, ap, All, Has, Shuffle, Shuffle-sym, Has-Shuffle, Bool-cases, Option-cases,
  arith,
}
use csfleet.Plugin.Templates.{
  Text, EnvVar, dollar, open_brace, close_brace, marker, starts_with, found, replace_from, render,
}

-- A map has one value for a name.
abbrev pub OneValue : List EnvVar → Type 0
OneValue env = (v w : EnvVar) → Has v env → Has w env → v.name ≡ w.name → v ≡ w

-- No name has a closing brace.
abbrev pub Closed : List EnvVar → Type 0
Closed env = (v : EnvVar) → Has v env → All (λ c. c ≢ close_brace) v.name

starts_with-append : (p s : Text) → starts_with p (p ++ s) ≡ true
unfolding starts_with
starts_with-append [] s = refl
starts_with-append (c ∷ p) s = ground (arith, starts_with-append p s)

-- A text begins with one name and its brace only.
name_unique :
    (j k s : Text)
    → All (λ c. c ≢ close_brace) j
    → All (λ c. c ≢ close_brace) k
    → starts_with (j ++ (close_brace ∷ [])) s ≡ true
    → starts_with (k ++ (close_brace ∷ [])) s ≡ true
    → j ≡ k
unfolding starts_with
name_unique [] [] s a b h i = refl
name_unique [] (d ∷ k) [] a b h i = cc
name_unique [] (d ∷ k) (c ∷ s) a b h i = absurd (b.0 (ground arith))
name_unique (c ∷ j) [] [] a b h i = cc
name_unique (c ∷ j) [] (d ∷ s) a b h i = absurd (a.0 (ground arith))
name_unique (c ∷ j) (d ∷ k) [] a b h i = cc
name_unique (c ∷ j) (d ∷ k) (e ∷ s) a b h i = ground (arith, name_unique j k s a.1 b.1)

marker_unique :
    (j k s : Text)
    → All (λ c. c ≢ close_brace) j
    → All (λ c. c ≢ close_brace) k
    → starts_with (marker j) s ≡ true
    → starts_with (marker k) s ≡ true
    → j ≡ k
unfolding starts_with
marker_unique j k [] a b h i = cc
marker_unique j k (x ∷ []) a b h i = absurd (one_letter x h)
  where
    one_letter : (y : ℕ) → starts_with (marker j) (y ∷ []) ≡ true → ⊥
    one_letter y q = ground arith
marker_unique j k (x ∷ y ∷ s) a b h i = name_unique j k s a b (ground arith) (ground arith)

found-some :
    (env : List EnvVar) (s : Text) {v : EnvVar}
    → found env s ≡ some v
    → Has v env × (starts_with (marker v.name) s ≡ true)
unfolding found
found-some [] s h = cc
found-some (w ∷ env) s {v} h = elim (Bool-cases (starts_with (marker w.name) s)) [
  | inl e ↦
      let same : w ≡ v = ground arith in
      (inl same, ap (λ (x : EnvVar). starts_with (marker x.name) s) (sym same) ∙ e)
  | inr e ↦ let (m, b) = found-some env s (ground arith) in (inr m, b)
]

found-Has :
    (env : List EnvVar) (s : Text) (v : EnvVar)
    → Has v env
    → starts_with (marker v.name) s ≡ true
    → found env s ≢ none
unfolding found
found-Has [] s v m h = absurd m
found-Has (w ∷ env) s v (inl e) h = λ z. ground (arith, ap (λ (x : EnvVar). x.name) e)
found-Has (w ∷ env) s v (inr m) h = ground (arith, found-Has env s v m h)

-- The order of the pairs does not matter.
found-Shuffle :
    {xs ys : List EnvVar} (s : Text)
    → Shuffle xs ys
    → OneValue xs
    → Closed xs
    → found xs s ≡ found ys s
found-Shuffle {xs} {ys} s sh one closed = elim (Option-cases (found xs s)) [
  | inr (v, e) ↦ elim (Option-cases (found ys s)) [
    | inr (w, f) ↦
        let (mv, bv) = found-some xs s e in
        let (mw, bw) = found-some ys s f in
        let mw' = Has-Shuffle w (Shuffle-sym sh) mw in
        let same = marker_unique v.name w.name s (closed v mv) (closed w mw') bv bw in
        e ∙ ap some (one v w mv mw' same) ∙ sym f
    | inl f ↦
        let (mv, bv) = found-some xs s e in absurd (found-Has ys s v (Has-Shuffle v sh mv) bv f)
  ]
  | inl e ↦ elim (Option-cases (found ys s)) [
    | inl f ↦ e ∙ sym f
    | inr (w, f) ↦
        let (mw, bw) = found-some ys s f in
        absurd (found-Has xs s w (Has-Shuffle w (Shuffle-sym sh) mw) bw e)
  ]
]

step_end : (env : List EnvVar) (skip : ℕ) → replace_from env skip [] ≡ []
unfolding replace_from
step_end env skip = refl

step_skip :
    (env : List EnvVar) (skip c : ℕ) (s : Text)
    → replace_from env (suc skip) (c ∷ s) ≡ replace_from env skip s
unfolding replace_from
step_skip env skip c s = refl

module _ (env : List EnvVar) (c : ℕ) (s : Text) where
  step_none : found env (c ∷ s) ≡ none → replace_from env 0 (c ∷ s) ≡ c ∷ replace_from env 0 s
  unfolding replace_from
  step_none e = rw (e, replace_from) refl

  step_some :
      (v : EnvVar)
      → found env (c ∷ s) ≡ some v
      → replace_from env 0 (c ∷ s) ≡ v.value ++ replace_from env (length v.name + 2) s
  unfolding replace_from
  step_some v e = rw (e, replace_from) refl

replace_from-Shuffle :
    {xs ys : List EnvVar} (skip : ℕ) (s : Text)
    → Shuffle xs ys
    → OneValue xs
    → Closed xs
    → replace_from xs skip s ≡ replace_from ys skip s
replace_from-Shuffle {xs} {ys} skip [] sh one closed = step_end xs skip ∙ sym (step_end ys skip)
replace_from-Shuffle {xs} {ys} (suc skip) (c ∷ s) sh one closed =
    step_skip xs skip c s ∙ replace_from-Shuffle skip s sh one closed ∙ sym (step_skip ys skip c s)
replace_from-Shuffle {xs} {ys} zero (c ∷ s) sh one closed =
    let same = found-Shuffle (c ∷ s) sh one closed in
    elim (Option-cases (found ys (c ∷ s))) [
      | inl e ↦
          step_none xs c s (same ∙ e)
          ∙ ap (◌∷◌ c) (replace_from-Shuffle zero s sh one closed)
          ∙ sym (step_none ys c s e)
      | inr (v, e) ↦
          step_some xs c s v (same ∙ e)
          ∙ ap (◌++◌ v.value) (replace_from-Shuffle (length v.name + 2) s sh one closed)
          ∙ sym (step_some ys c s v e)
    ]

-- A rendered template does not depend on the order in which Go ranges over the variables, if no name
-- has a closing brace.
pub render-Shuffle :
    {xs ys : List EnvVar} (body : Text)
    → Shuffle xs ys
    → OneValue xs
    → Closed xs
    → render xs body ≡ render ys body
unfolding render
render-Shuffle body sh one closed = replace_from-Shuffle 0 body sh one closed

no_marker : (env : List EnvVar) (c : ℕ) (s : Text) → c ≢ dollar → found env (c ∷ s) ≡ none
unfolding found starts_with
no_marker [] c s n = refl
no_marker (v ∷ env) c s n = ground (arith, no_marker env c s n)

-- Text without a dollar is left as it is.
plain-render :
    (env : List EnvVar) (pre s : Text)
    → All (λ c. c ≢ dollar) pre
    → replace_from env 0 (pre ++ s) ≡ pre ++ replace_from env 0 s
plain-render env [] s a = refl
plain-render env (c ∷ pre) s a =
    step_none env c (pre ++ s) (no_marker env c (pre ++ s) a.0)
    ∙ ap (◌∷◌ c) (plain-render env pre s a.1)

skip-append :
    (env : List EnvVar) (p s : Text) → replace_from env (length p) (p ++ s) ≡ replace_from env 0 s
unfolding replace_from
skip-append env [] s = refl
skip-append env (c ∷ p) s = skip-append env p s

-- The marker of a variable stands for its value.
found-marker :
    (env : List EnvVar) (v : EnvVar) (s : Text)
    → OneValue env
    → Closed env
    → Has v env
    → found env (marker v.name ++ s) ≡ some v
found-marker env v s one closed m = elim (Option-cases (found env (marker v.name ++ s))) [
  | inl e ↦ absurd (found-Has env (marker v.name ++ s) v m (starts_with-append (marker v.name) s) e)
  | inr (w, e) ↦
      let (mw, bw) = found-some env (marker v.name ++ s) e in
      let same =
        marker_unique w.name v.name (marker v.name ++ s) (closed w mw) (closed v m) bw
          (starts_with-append (marker v.name) s) in
      e ∙ ap some (one w v mw m same)
]

render-marker_head :
    (env : List EnvVar) (v : EnvVar) (post : Text)
    → OneValue env
    → Closed env
    → Has v env
    → replace_from env 0 (marker v.name ++ post) ≡ v.value ++ replace_from env 0 post
render-marker_head env v post one closed m =
    let tail : Text = open_brace ∷ v.name ++ (close_brace ∷ []) in
    step_some env dollar (tail ++ post) v (found-marker env v post one closed m)
    ∙ ap (◌++◌ v.value) (
        ap (λ k. replace_from env k (tail ++ post))
          (sym (ap suc (length-append v.name (close_brace ∷ [])) ∙ omega arith))
        ∙ skip-append env tail post)

-- Each `${name}` becomes the variable's value, the text before it stays, and the rendering goes on
-- behind it: a value is not rendered again. (A name has one value, and no closing brace. There is no
-- dollar in the text before it.)
pub render-marker :
    (env : List EnvVar) (v : EnvVar) (pre post : Text)
    → OneValue env
    → Closed env
    → Has v env
    → All (λ c. c ≢ dollar) pre
    → render env (pre ++ (marker v.name ++ post)) ≡ pre ++ (v.value ++ render env post)
unfolding render
render-marker env v pre post one closed m a =
    plain-render env pre (marker v.name ++ post) a
    ∙ ap (◌++◌ pre) (render-marker_head env v post one closed m)
