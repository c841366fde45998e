-- ===== src/Plugin/ApplyTests.antt =====
-- The application of a plugin at concrete inputs.
use csfleet.Prelude.{
  sym, ◌∙◌, ap, ℕ, true, false, List, [], ◌∷◌, ◌++◌, none, some, String, String_discrete, ◌≡◌, ◌≢◌,
  refl, ◌⊎◌, inl, inr, ◌↔◌, All, swap, if◌then◌else◌, ℕ_discrete, arith,
}
use mathlib.Core.Bool.{false≢true}
use text.Mathlib.TextEquality.{eq_iff}
use csfleet.Fleet.Services.{got, failed}
use csfleet.Plugin.Glob.{
  slash, star, newline, any_run, literal, Regexp, glob_to_regexp, match_string,
}
use csfleet.Plugin.Glob.Language.{Language, match_string_iff}
use csfleet.Plugin.Glob.Directories.{directory_pattern, encode, accented_name_missed}
use csfleet.Plugin.Glob.Segments.{no_deep, slashes, match-depth}
use csfleet.Install.Paths.{FilePath, FilePath_discrete, components, Name, is_under}
use csfleet.Install.Disk.{Disk, folder}
use csfleet.Install.Trees.{Node, file, dir, nil, entry}
use csfleet.Install.Inside.{Inside}
use csfleet.Plugin.Ignore.{Removal, any_match, compile_all, apply_ignore}
use csfleet.Plugin.Ignore.Pruned.{kind_at, hidden, apply_ignore-Pruned}
use csfleet.Plugin.Templates.{EnvVar, marker, render}
use csfleet.Plugin.Templates.Rendering.{render-Shuffle, render-marker, OneValue, Closed}
use csfleet.Plugin.Apply.{lay, rules_of, Manifest, Tools, World, apply_to}
use csfleet.Plugin.Apply.Cleanup.{apply_to-temps, apply_to-prunes_local}
use csfleet.Plugin.Apply.Confined.{IsConfined, lay-Inside}

-- `win/**`, `a/*` and `é`
abbrev win : Name
win = b'w' ∷ b'i' ∷ b'n' ∷ []

abbrev win_glob : List ℕ
win_glob = win ++ slash ∷ star ∷ star ∷ []

abbrev win_re : Regexp
win_re = record { pieces = literal b'w' ∷ any_run ∷ []; below = true }

match_string_iff_run :
    (match_string win_re (b'w' ∷ b'x' ∷ []) ≡ true) ↔ Language win_re (b'w' ∷ b'x' ∷ [])
match_string_iff_run = match_string_iff win_re (b'w' ∷ b'x' ∷ [])

directory_pattern_example :
    (match_string (glob_to_regexp win_glob) win ≡ true)
    ↔ ((win ≡ win) ⊎ ((v : List ℕ) × (win ≡ win ++ slash ∷ v) × All (λ c. c ≢ newline) v))
unfolding encode
directory_pattern_example =
    directory_pattern win win
      ((omega arith, omega arith), ((omega arith, omega arith), ((omega arith, omega arith), tt)))
      (omega arith, (omega arith, (omega arith, tt)))

abbrev star_glob : List ℕ
star_glob = b'a' ∷ slash ∷ star ∷ []

abbrev star_path : Name
star_path = b'a' ∷ slash ∷ b'b' ∷ b'c' ∷ []

star_matches : match_string (glob_to_regexp star_glob) star_path ≡ true
unfolding match_string glob_to_regexp
star_matches = refl

shallow : no_deep star_glob ≡ true
unfolding no_deep
shallow = refl

match-depth_example : slashes star_path ≡ slashes star_glob
match-depth_example = match-depth star_glob star_path shallow star_matches

abbrev e_acute : Name
e_acute = 0xe9 ∷ []

accented_name_missed_example : match_string (glob_to_regexp (encode e_acute)) e_acute ≡ false
accented_name_missed_example =
    accented_name_missed e_acute ((omega arith, omega arith), tt) (inl (omega arith))

abbrev leaf : Node
leaf = file (got (record { content = 1 ∷ []; broken = none })) 0o644

-- A source tree with `win/x` and `y`.
abbrev tree : Node
tree = dir (entry win (dir (entry (b'x' ∷ []) leaf nil)) (entry (b'y' ∷ []) leaf nil))

abbrev removes : Removal
removes p t = none

pruned_tree : apply_ignore removes tree (win_glob ∷ []) ≡ (dir (entry (b'y' ∷ []) leaf nil), none)
unfolding apply_ignore match_string glob_to_regexp
pruned_tree = refl

no_error : (apply_ignore removes tree (win_glob ∷ [])).1 ≡ none
unfolding apply_ignore match_string glob_to_regexp
no_error = refl

apply_ignore-Pruned_example :
    kind_at (apply_ignore removes tree (win_glob ∷ [])).0 (win ∷ (b'x' ∷ []) ∷ []) ≡ (
      if hidden (any_match (compile_all (win_glob ∷ []))) [] (win ∷ (b'x' ∷ []) ∷ [])
      then none
      else kind_at tree (win ∷ (b'x' ∷ []) ∷ []))
apply_ignore-Pruned_example =
    apply_ignore-Pruned removes tree (win_glob ∷ []) no_error (win ∷ (b'x' ∷ []) ∷ [])

abbrev host : EnvVar
host = record { name = b'h' ∷ []; value = b'1' ∷ [] }

abbrev port : EnvVar
port = record { name = b'p' ∷ []; value = b'2' ∷ [] }

abbrev both_vars : List EnvVar
both_vars = host ∷ port ∷ []

other_name : host.name ≢ port.name
other_name e = ground arith

one_value : OneValue both_vars
one_value v w (inl e) (inl f) n = sym e ∙ f
one_value v w (inl e) (inr (inl f)) n =
    absurd (other_name (ap (λ (x : EnvVar). x.name) e ∙ n ∙ sym (ap (λ (x : EnvVar). x.name) f)))
one_value v w (inr (inl e)) (inl f) n =
    absurd
      (other_name (sym (ap (λ (x : EnvVar). x.name) e ∙ n ∙ sym (ap (λ (x : EnvVar). x.name) f))))
one_value v w (inr (inl e)) (inr (inl f)) n = sym e ∙ f
one_value v w (inl e) (inr (inr h)) n = absurd h
one_value v w (inr (inr h)) k n = absurd h
one_value v w (inr (inl e)) (inr (inr h)) n = absurd h

vars-Closed : Closed both_vars
vars-Closed v (inl e) = rw (← e) (omega arith, tt)
vars-Closed v (inr (inl e)) = rw (← e) (omega arith, tt)
vars-Closed v (inr (inr h)) = absurd h

render-Shuffle_example :
    render both_vars (marker host.name) ≡ render (port ∷ host ∷ []) (marker host.name)
render-Shuffle_example = render-Shuffle (marker host.name) (swap host port []) one_value vars-Closed

render-marker_run :
    render both_vars ((b'a' ∷ []) ++ (marker host.name ++ marker port.name))
    ≡ (b'a' ∷ []) ++ (host.value ++ render both_vars (marker port.name))
render-marker_run =
    render-marker both_vars host (b'a' ∷ []) (marker port.name) one_value vars-Closed (inl refl)
      (omega arith, tt)

abbrev manifest : Manifest
manifest = record {
  requires = [];
  ignore = win_glob ∷ [];
  source = record { type = "local"; repo = ""; asset = ""; url = ""; version = ""; path = "/src" };
  layout_rules = [];
  template_rules = record { body = marker host.name; dest = b'c' ∷ [] } ∷ [];
}

abbrev overlay : FilePath
overlay = (b'o' ∷ []) ∷ []

abbrev tools : Tools
tools = record {
  parse = λ s. got manifest;
  fetch_release = λ repo tag. failed "no network";
  compile = λ s. got (λ name. true);
  is_abs = λ p. true;
  has_suffix = λ s t. false;
  make_temp = none;
  download = λ u. none;
  make_root = none;
  unpack_tar = λ u d. (d, got tree);
  unpack_zip = λ u d. (d, got tree);
  glob = λ p t. got (t ∷ []);
  remove_all = removes;
  faults = record {
    make_dirs = λ p. none;
    open_file = λ p. none;
    close_file = λ p. none;
    replace_file = λ p. none;
    masked = λ m. m;
  };
}

abbrev bare : Disk
bare q = if is_under q overlay then some folder else none

bare-Exists : (q : FilePath) → is_under q overlay ≡ true → bare q ≡ some folder
bare-Exists q h = rw h refl

abbrev world : World
world = record { disk = bare; local = λ p. tree; temps = 2 }

apply_to-temps_run : (apply_to tools manifest both_vars overlay world).0.temps ≡ 2
apply_to-temps_run = apply_to-temps tools manifest both_vars overlay world

confined : IsConfined manifest
unfolding rules_of components
confined = (((λ e. cc, tt), tt), ((λ e. cc, tt), tt))

lay-Inside_example : Inside overlay bare (lay tools manifest both_vars overlay tree bare).0
lay-Inside_example = lay-Inside tools overlay manifest both_vars confined tree bare bare-Exists

not_empty : ◌≢◌ {A = String} "/src" ""
not_empty e = false≢true ((eq_iff "/src" "").1 e)

applied_end : (apply_to tools manifest both_vars overlay world).1 ≡ none
unfolding apply_to match_string glob_to_regexp is_under ℕ_discrete String_discrete FilePath_discrete
applied_end = refl

apply_to-prunes_local_example :
    kind_at
      ((apply_to tools manifest both_vars overlay world).0.local "/src")
      (win ∷ (b'x' ∷ []) ∷ [])
    ≡ (if hidden (any_match (compile_all (win_glob ∷ []))) [] (win ∷ (b'x' ∷ []) ∷ [])
        then none
        else kind_at tree (win ∷ (b'x' ∷ []) ∷ []))
apply_to-prunes_local_example =
    apply_to-prunes_local tools manifest both_vars overlay world refl not_empty refl no_error
      (win ∷ (b'x' ∷ []) ∷ [])
