-- ===== src/Plugin/Templates.antt =====
-- orchestration/plugin/apply.go: envReplacer and templates. strings.NewReplacer tries the old strings
-- in argument order at every place, from left to right, and does not read what it has put in.
pub mod Rendering
use csfleet.Prelude.{
  ℕ, zero, suc, ◌-◌, ◌+◌, Bool, true, false, List, [], ◌∷◌, ◌++◌, Option, none, some, String, ite,
  length, ◌==◌, ◌≡◌, ◌≢◌, ◌⊎◌, inl, inr, refl, sym, ◌∙◌, ap, All, Shuffle, nothing, keep, swap,
  both, if◌then◌else◌, Bool-cases, Option-cases, arith,
}
use csfleet.Install.Paths.{FilePath, join}
use csfleet.Install.Disk.{Disk, Failure, io, Ran, ◌>=>◌, Faults, atomic_write}

abbrev pub Text : Type 0
Text = List ℕ

-- An environment variable.
pub record EnvVar : Type 0 where
  pub name : Text
  pub value : Text

abbrev pub dollar : ℕ
dollar = 0x24

abbrev pub open_brace : ℕ
open_brace = 0x7b

abbrev pub close_brace : ℕ
close_brace = 0x7d

-- "${" + k + "}"
abbrev pub marker : Text → Text
marker k = dollar ∷ open_brace ∷ k ++ (close_brace ∷ [])

unfoldable pub starts_with : Text → Text → Bool
starts_with [] s = true
starts_with (c ∷ p) [] = false
starts_with (c ∷ p) (d ∷ s) = let rest = starts_with p s in if c == d then rest else false

-- The first pair of the replacer whose old string stands at the head of a text.
unfoldable pub found : List EnvVar → Text → Option EnvVar
unfolding starts_with
found [] s = none
found (v ∷ env) s = let rest = found env s in if starts_with (marker v.name) s then some v else rest

-- The replacement, with the number of characters of a marker that are still to be skipped.
unfoldable pub replace_from : List EnvVar → ℕ → Text → Text
unfolding found
replace_from env skip [] = []
replace_from env (suc skip) (c ∷ s) = replace_from env skip s
replace_from env zero (c ∷ s) = elim (found env (c ∷ s)) [
  | none ↦ c ∷ replace_from env zero s
  | some v ↦ v.value ++ replace_from env (length v.name + 2) s
]

-- envReplacer(env).Replace(body), for the order in which Go ranges over env.
unfoldable pub render : List EnvVar → Text → Text
unfolding replace_from
render env body = replace_from env 0 body

pub record TemplateRule : Type 0 where
  pub body : Text
  pub dest : Text

pub data TemplateError : Type 0 where
  no_path : TemplateError
  no_body : Text → TemplateError
  write : Failure → TemplateError

abbrev pub is_empty : Text → Bool
is_empty [] = true
is_empty (c ∷ s) = false

abbrev pub TemplatesRan : Type 0
TemplatesRan = Disk × Option TemplateError

abbrev pub written : Ran → (Disk → TemplatesRan) → TemplatesRan
written (d, some e) next = (d, some (write e))
written (d, none) next = next d

-- templates
unfoldable pub templates : Faults → List EnvVar → FilePath → List TemplateRule → Disk → TemplatesRan
unfolding render atomic_write join
templates o env overlay [] d = (d, none)
templates o env overlay (t ∷ ts) d =
    let next = templates o env overlay ts in
    if is_empty t.dest
    then (d, some no_path)
    else if is_empty t.body
    then (d, some (no_body t.dest))
    else written (atomic_write o (join overlay t.dest) (render env t.body) d) next
