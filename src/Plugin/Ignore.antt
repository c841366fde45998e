-- ===== src/Plugin/Ignore.antt =====
-- orchestration/plugin/apply.go: applyIgnore, the walk over the source tree that removes what a glob
-- matches. globToRegexp compiles every glob, so its error branch is not there.
pub mod Pruned
use csfleet.Prelude.{
  ℕ, Bool, true, false, List, [], ◌∷◌, ◌++◌, Option, none, some, String, if◌then◌else◌,
}
use csfleet.Install.Paths.{Name}
use csfleet.Install.Trees.{Node, file, dir, unreadable, Entries, nil, entry}
use csfleet.Plugin.Glob.{slash, Regexp, glob_to_regexp, match_string}

-- mustRel and filepath.ToSlash: the path below the root, from its parent's and its name.
unfoldable pub rel_path : Name → Name → Name
rel_path [] n = n
rel_path (c ∷ p) n = (c ∷ p) ++ (slash ∷ n)

unfoldable pub any_match : List Regexp → Name → Bool
any_match [] rel = false
any_match (re ∷ res) rel =
    let rest = any_match res rel in if match_string re rel then true else rest

-- os.RemoveAll: nothing is left, or something and an error.
abbrev pub Removal : Type 0
Removal = Name → Node → Option (Node × String)

abbrev pub keep_rest :
    Name → Entries → Node × Option String → (Entries × Option String) → Entries × Option String
keep_rest n es (t, some e) rest = (entry n t es, some e)
keep_rest n es (t, none) (es', e) = (entry n t es', e)

abbrev pub removed :
    Name → Entries → Option (Node × String) → (Entries × Option String) → Entries × Option String
removed n es none rest = rest
removed n es (some (t, e)) rest = (entry n t es, some e)

abbrev pub as_dir : Entries × Option String → Node × Option String
as_dir (es, e) = (dir es, e)

module _ (remove_all : Removal) (hit : Name → Bool) where
  unfoldable mutual
    unfolding rel_path

    pub prune : Name → Node → Node × Option String
    prune rel (file opened mode) = (file opened mode, none)
    prune rel (unreadable m) = (unreadable m, some m)
    prune rel (dir es) = as_dir (prune_entries rel es)

    pub prune_entries : Name → Entries → Entries × Option String
    prune_entries rel nil = (nil, none)
    prune_entries rel (entry n t es) =
        let rest = prune_entries rel es in
        let inner = prune (rel_path rel n) t in
        if hit (rel_path rel n)
        then removed n es (remove_all (rel_path rel n) t) rest
        else keep_rest n es inner rest

abbrev pub compile_all : List (List ℕ) → List Regexp
compile_all [] = []
compile_all (g ∷ gs) = glob_to_regexp g ∷ compile_all gs

-- applyIgnore
unfoldable pub apply_ignore : Removal → Node → List (List ℕ) → Node × Option String
unfolding prune any_match
apply_ignore remove_all root [] = (root, none)
apply_ignore remove_all root (g ∷ gs) = prune remove_all (any_match (compile_all (g ∷ gs))) [] root
