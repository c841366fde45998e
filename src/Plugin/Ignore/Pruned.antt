-- ===== src/Plugin/Ignore/Pruned.antt =====
-- What applyIgnore leaves, path by path.
use csfleet.Prelude.{
  ℕ, Bool, true, false, List, [], ◌∷◌, Option, none, some, String, ite, ◌≡◌, ◌≢◌, inl, inr, refl,
  sym, ◌∙◌, ap, Bool-cases, if◌then◌else◌, arith,
}
use csfleet.Fleet.Services.{Answer}
use csfleet.Install.Disk.{Reader}
use csfleet.Install.Paths.{Name, FilePath, Name_discrete}
use csfleet.Install.Trees.{Node, file, dir, unreadable, Entries, nil, entry}
use csfleet.Plugin.Ignore.{
  rel_path, any_match, Removal, keep_rest, removed, prune, prune_entries, apply_ignore, compile_all,
}

-- What stands at a path of a tree.
pub data Kind : Type 0 where
  is_file : Answer Reader → ℕ → Kind
  is_dir : Kind
  is_closed : String → Kind

unfoldable mutual
  unfolding Name_discrete

  pub kind_at : Node → FilePath → Option Kind
  kind_at (file opened mode) [] = some (is_file opened mode)
  kind_at (file opened mode) (n ∷ p) = none
  kind_at (unreadable m) [] = some (is_closed m)
  kind_at (unreadable m) (n ∷ p) = none
  kind_at (dir es) [] = some is_dir
  kind_at (dir es) (n ∷ p) = kind_in es n p

  pub kind_in : Entries → Name → FilePath → Option Kind
  kind_in nil n p = none
  kind_in (entry m t es) n p =
      let rest = kind_in es n p in ite (Name_discrete m n) (kind_at t p) rest

-- A path has a component whose path from the root is hit: the path itself or a directory above it.
unfoldable pub hidden : (Name → Bool) → Name → FilePath → Bool
hidden hit rel [] = false
hidden hit rel (n ∷ p) =
    let below = hidden hit (rel_path rel n) p in if hit (rel_path rel n) then true else below

keep_rest_lem :
    (n : Name) (es : Entries) (r : Node × Option String) (rest : Entries × Option String)
    → (keep_rest n es r rest).1 ≡ none
    → (r.1 ≡ none) × (rest.1 ≡ none) × ((keep_rest n es r rest).0 ≡ entry n r.0 rest.0)
keep_rest_lem n es (t, some e) rest h = cc
keep_rest_lem n es (t, none) (es', e) h = (refl, h, refl)

removed_lem :
    (n : Name) (es : Entries) (o : Option (Node × String)) (rest : Entries × Option String)
    → (removed n es o rest).1 ≡ none
    → removed n es o rest ≡ rest
removed_lem n es none rest h = refl
removed_lem n es (some (t, e)) rest h = cc

module _ (remove_all : Removal) (hit : Name → Bool) where
  -- The kind at a path, without what is hidden.
  abbrev visible : Name → FilePath → Option Kind → Option Kind
  visible rel p k = if hidden hit rel p then none else k

  pruned_file :
      (rel : Name) (opened : Answer Reader) (mode : ℕ) (p : FilePath)
      → kind_at (prune remove_all hit rel (file opened mode)).0 p
        ≡ visible rel p (kind_at (file opened mode) p)
  unfolding prune hidden kind_at
  pruned_file rel opened mode [] = refl
  pruned_file rel opened mode (n ∷ p) = ground arith

  pruned_closed :
      (rel : Name) (m : String)
      → (prune remove_all hit rel (unreadable m)).1 ≡ none
      → (p : FilePath)
      → kind_at (prune remove_all hit rel (unreadable m)).0 p
        ≡ visible rel p (kind_at (unreadable m) p)
  unfolding prune
  pruned_closed rel m h p = cc

  dir_error :
      (rel : Name) (es : Entries)
      → (prune remove_all hit rel (dir es)).1 ≡ none
      → (prune_entries remove_all hit rel es).1 ≡ none
  unfolding prune
  dir_error rel es h = ground arith

  pruned_dir :
      (rel : Name) (es : Entries) (p : FilePath)
      → ((n : Name) (q : FilePath)
          → kind_in (prune_entries remove_all hit rel es).0 n q
            ≡ visible rel (n ∷ q) (kind_in es n q))
      → kind_at (prune remove_all hit rel (dir es)).0 p ≡ visible rel p (kind_at (dir es) p)
  unfolding prune hidden kind_at
  pruned_dir rel es [] h = ground arith
  pruned_dir rel es (n ∷ p) h = ground (arith, h n p)

  pruned_nil :
      (rel n : Name) (p : FilePath)
      → kind_in (prune_entries remove_all hit rel nil).0 n p ≡ visible rel (n ∷ p) (kind_in nil n p)
  unfolding prune_entries kind_in
  pruned_nil rel n p = ground arith

  module _ (rel m : Name) (t : Node) (es : Entries) where
    entry_hit :
        hit (rel_path rel m) ≡ true
        → (prune_entries remove_all hit rel (entry m t es)).1 ≡ none
        → prune_entries remove_all hit rel (entry m t es) ≡ prune_entries remove_all hit rel es
    unfolding prune_entries
    entry_hit e h =
        rw (e, prune_entries)
          (removed_lem m es (remove_all (rel_path rel m) t) (prune_entries remove_all hit rel es)
            (rw (e, prune_entries) at h))

    entry_kept :
        hit (rel_path rel m) ≡ false
        → prune_entries remove_all hit rel (entry m t es)
          ≡ keep_rest m es
              (prune remove_all hit (rel_path rel m) t)
              (prune_entries remove_all hit rel es)
    unfolding prune_entries
    entry_kept e = rw (e, prune_entries) refl

    hidden_under :
        (n : Name) (p : FilePath)
        → hit (rel_path rel m) ≡ true
        → visible rel (n ∷ p) (kind_in es n p) ≡ visible rel (n ∷ p) (kind_in (entry m t es) n p)
    unfolding hidden kind_in
    hidden_under n p e = ground (arith, ap (rel_path rel) {x = m} {y = n})

    same_entry :
        (r : Node) (rest : Entries) (n : Name) (p : FilePath)
        → hit (rel_path rel m) ≡ false
        → m ≡ n
        → kind_at r p ≡ visible (rel_path rel m) p (kind_at t p)
        → kind_in (entry m r rest) n p ≡ visible rel (n ∷ p) (kind_in (entry m t es) n p)
    unfolding hidden kind_in
    same_entry r rest n p e f a = ground (arith, ap (rel_path rel) f)

    other_entry :
        (r : Node) (rest : Entries) (n : Name) (p : FilePath)
        → hit (rel_path rel m) ≡ false
        → m ≢ n
        → kind_in rest n p ≡ visible rel (n ∷ p) (kind_in es n p)
        → kind_in (entry m r rest) n p ≡ visible rel (n ∷ p) (kind_in (entry m t es) n p)
    unfolding kind_in
    other_entry r rest n p e f b = ground arith

    shown_entry :
        (r : Node) (rest : Entries) (n : Name) (p : FilePath)
        → hit (rel_path rel m) ≡ false
        → kind_at r p ≡ visible (rel_path rel m) p (kind_at t p)
        → kind_in rest n p ≡ visible rel (n ∷ p) (kind_in es n p)
        → kind_in (entry m r rest) n p ≡ visible rel (n ∷ p) (kind_in (entry m t es) n p)
    unfolding hidden kind_in
    shown_entry r rest n p e a b = elim (Name_discrete m n) [
      | yes f ↦ same_entry r rest n p e f a
      | no f ↦ other_entry r rest n p e f b
    ]

  mutual
    pruned :
        (rel : Name) (t : Node)
        → (prune remove_all hit rel t).1 ≡ none
        → (p : FilePath) → kind_at (prune remove_all hit rel t).0 p ≡ visible rel p (kind_at t p)
    pruned rel (file opened mode) h p = pruned_file rel opened mode p
    pruned rel (unreadable m) h p = pruned_closed rel m h p
    pruned rel (dir es) h p = pruned_dir rel es p (pruned_entries rel es (dir_error rel es h))

    pruned_entries :
        (rel : Name) (es : Entries)
        → (prune_entries remove_all hit rel es).1 ≡ none
        → (n : Name) (p : FilePath)
        → kind_in (prune_entries remove_all hit rel es).0 n p ≡ visible rel (n ∷ p) (kind_in es n p)
    pruned_entries rel nil h n p = pruned_nil rel n p
    pruned_entries rel (entry m t es) h n p = elim (Bool-cases (hit (rel_path rel m))) [
      | inl e ↦
          let same = entry_hit rel m t es e h in
          rw same (
            pruned_entries rel es (ap (λ (r : Entries × Option String). r.1) (sym same) ∙ h) n p
            ∙ hidden_under rel m t es n p e)
      | inr e ↦
          let same = entry_kept rel m t es e in
          let (inner, rest, made) =
            keep_rest_lem m es (prune remove_all hit (rel_path rel m) t)
              (prune_entries remove_all hit rel es)
              (ap (λ (r : Entries × Option String). r.1) (sym same) ∙ h) in
          rw (same, made)
            (shown_entry rel m t es (prune remove_all hit (rel_path rel m) t).0
              (prune_entries remove_all hit rel es).0 n p e (pruned (rel_path rel m) t inner p)
              (pruned_entries rel es rest n p))
    ]

-- Without patterns nothing is hidden.
hidden_none : (rel : Name) (p : FilePath) → hidden (any_match []) rel p ≡ false
unfolding hidden any_match
hidden_none rel [] = refl
hidden_none rel (n ∷ p) = hidden_none (rel_path rel n) p

-- If the walk ends without an error, a path of the source tree is gone exactly if a pattern matches the
-- path itself or a directory above it. Every other path holds what it held.
pub apply_ignore-Pruned :
    (remove_all : Removal) (root : Node) (globs : List (List ℕ))
    → (apply_ignore remove_all root globs).1 ≡ none
    → (p : FilePath)
    → kind_at (apply_ignore remove_all root globs).0 p
      ≡ (if hidden (any_match (compile_all globs)) [] p then none else kind_at root p)
unfolding apply_ignore
apply_ignore-Pruned remove_all root [] h p = rw (hidden_none [] p) refl
apply_ignore-Pruned remove_all root (g ∷ gs) h p =
    pruned remove_all (any_match (compile_all (g ∷ gs))) [] root h p
