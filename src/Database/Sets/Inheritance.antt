-- ===== src/Database/Sets/Inheritance.antt =====
-- Which set a server runs: that of the most specific scope that overrides.
use csfleet.Prelude.{
  ℕ, ◌≡◌, refl, Bool, true, false, List, [], ◌∷◌, some, String, arith, ◌∙◌, if◌then◌else◌,
}
use text.Mathlib.Text.{◌==◌ as str_eq}
use csfleet.Database.Rows.{ok}
use csfleet.Database.Sets.{
  Scope, global, cluster, server, Sets, Collation, Statement, exec_all, transact, is_at, has_marker,
  delete_markers, items_at, delete_items, mark_override, clear_override, clear_items, assign_items,
  set_tx, set_scoped, clear_scoped, scoped, effective_set,
}
use csfleet.Database.Sets.Places.{
  is_at_self, items_at-delete_items, has_marker-delete_markers, items_at-delete_other,
  has_marker-delete_other, exec_all-Assigned,
}

-- No query fails.
abbrev pub healthy : Scope → Bool × Bool
healthy sc = (false, false)

-- What a server of the cluster `cl` inherits from; "" is none.
abbrev pub parents : String → List (Scope × String)
parents cl = if str_eq cl "" then (global, "") ∷ [] else (cluster, cl) ∷ (global, "") ∷ []

module _ (c : Collation) where
  open c use {same, order_by}

  -- The set of the first place of the walk that overrides.
  unfoldable pub walk : Sets → List (Scope × String) → List String
  walk t [] = []
  walk t ((sc, n) ∷ rest) =
      if has_marker c sc n t.overrides
      then order_by (items_at c sc n t.assignments)
      else walk t rest

  -- With no query failing, a server runs the set of the first place that overrides, of itself, its
  -- cluster unless it has none, and the global scope; none of them overriding is the empty set.
  pub effective_set-walk :
      (name cl : String) (t : Sets)
      → effective_set c healthy name cl t ≡ ok (walk t ((server, name) ∷ parents cl))
  unfolding effective_set scoped walk
  effective_set-walk name cl t = ground arith

  transact-true :
      {A : Type 0} (fault : ℕ → Bool) (qs : List (Statement A)) (a b : A)
      → transact fault qs a ≡ (true, b)
      → exec_all fault 1 qs a ≡ some b
  unfolding transact
  transact-true fault qs a b e = ground arith

  -- The tables before the first assignment of setPluginsTx.
  unfoldable pub cleared : Scope → String → Sets → Sets
  cleared sc n t = record t {
    overrides =
        (if has_marker c sc n t.overrides
          then t.overrides
          else record { scope = sc; scope_name = n } ∷ t.overrides);
    assignments = delete_items c sc n t.assignments;
  }

  exec_all-set_tx :
      (fault : ℕ → Bool) (sc : Scope) (n : String) (xs : List String) (t u : Sets)
      → exec_all fault 1 (set_tx c sc n xs) t ≡ some u
      → exec_all fault 3 (assign_items c sc n xs) (cleared sc n t) ≡ some u
  unfolding set_tx exec_all mark_override clear_items cleared
  exec_all-set_tx fault sc n xs t u e = ground arith

  has_marker-cleared :
      (sc : Scope) (n : String) (t : Sets)
      → (has_marker c sc n (cleared sc n t).overrides ≡ true)
        × ((sc' : Scope) (n' : String)
            → is_at c sc' n' sc n ≡ false
            → has_marker c sc' n' (cleared sc n t).overrides ≡ has_marker c sc' n' t.overrides)
  unfolding cleared has_marker
  has_marker-cleared sc n t = (ground (arith, is_at_self c sc n), λ sc' n' a. ground (arith))

  pub items_at-cleared :
      (sc : Scope) (n : String) (t : Sets)
      → (items_at c sc n (cleared sc n t).assignments ≡ [])
        × ((sc' : Scope) (n' : String)
            → is_at c sc' n' sc n ≡ false
            → items_at c sc' n' (cleared sc n t).assignments ≡ items_at c sc' n' t.assignments)
  unfolding cleared
  items_at-cleared sc n t = (
    items_at-delete_items c sc n t.assignments,
    λ sc' n' a. items_at-delete_other c sc' n' sc n t.assignments a,
  )

  -- What a set transaction that succeeds leaves.
  set_scoped-lem :
      (fault : ℕ → Bool) (sc : Scope) (n : String) (xs : List String) (t u : Sets)
      → set_scoped c fault sc n xs t ≡ (true, u)
      → (has_marker c sc n u.overrides ≡ true)
        × (items_at c sc n u.assignments ≡ xs)
        × ((sc' : Scope) (n' : String)
            → is_at c sc' n' sc n ≡ false
            → (has_marker c sc' n' u.overrides ≡ has_marker c sc' n' t.overrides)
              × (items_at c sc' n' u.assignments ≡ items_at c sc' n' t.assignments))
  unfolding set_scoped
  set_scoped-lem fault sc n xs t u e =
      let k = exec_all-set_tx fault sc n xs t u (transact-true fault (set_tx c sc n xs) t u e) in
      let done = exec_all-Assigned c fault 3 sc n xs (cleared sc n t) u k in
      let marks = has_marker-cleared sc n t in
      let items = items_at-cleared sc n t in
      (
        rw (done.0) (marks.0),
        ground (arith, done, items),
        λ sc' n' a. (rw (done.0) (marks.1 sc' n' a), done.2 sc' n' a ∙ items.1 sc' n' a),
      )

  -- What a clear transaction that succeeds leaves.
  clear_scoped-lem :
      (fault : ℕ → Bool) (sc : Scope) (n : String) (t u : Sets)
      → clear_scoped c fault sc n t ≡ (true, u)
      → u ≡ record t {
        overrides = delete_markers c sc n t.overrides;
        assignments = delete_items c sc n t.assignments;
      }
  unfolding clear_scoped transact exec_all clear_override clear_items
  clear_scoped-lem fault sc n t u e = ground arith

  -- A server that was set to a list, in a transaction that succeeded, runs that list in the order of
  -- the query, whatever it would inherit; and the effective set of every other server is as before.
  pub set_scoped-server :
      (fault : ℕ → Bool) (name : String) (xs : List String) (t u : Sets)
      → set_scoped c fault server name xs t ≡ (true, u)
      → ((cl : String) → effective_set c healthy name cl u ≡ ok (order_by xs))
        × ((other cl : String)
            → same other name ≡ false
            → effective_set c healthy other cl u ≡ effective_set c healthy other cl t)
  unfolding effective_set scoped
  set_scoped-server fault name xs t u e =
      let done = set_scoped-lem fault server name xs t u e in
      (
        λ cl. ground (arith, done),
        λ other cl a.
            ground (arith, done.2 server other a, done.2 cluster cl refl, done.2 global "" refl),
      )

  -- A cluster that was set to a list gives it to its members that do not override; a member that does,
  -- and a server of no cluster, run what they did.
  pub set_scoped-cluster :
      (fault : ℕ → Bool) (cl : String) (xs : List String) (t u : Sets)
      → set_scoped c fault cluster cl xs t ≡ (true, u)
      → str_eq cl "" ≡ false
      → (name : String)
      → (has_marker c server name t.overrides ≡ false
          → effective_set c healthy name cl u ≡ ok (order_by xs))
        × (has_marker c server name t.overrides ≡ true
            → effective_set c healthy name cl u ≡ effective_set c healthy name cl t)
        × (effective_set c healthy name "" u ≡ effective_set c healthy name "" t)
  unfolding effective_set scoped
  set_scoped-cluster fault cl xs t u e n name =
      let done = set_scoped-lem fault cluster cl xs t u e in
      ground (arith, done, done.2 server name refl, done.2 global "" refl)

  -- A server whose set was cleared inherits again: it runs what its cluster or the global scope had.
  pub clear_scoped-server :
      (fault : ℕ → Bool) (name cl : String) (t u : Sets)
      → clear_scoped c fault server name t ≡ (true, u)
      → effective_set c healthy name cl u ≡ ok (walk t (parents cl))
  unfolding effective_set scoped walk
  clear_scoped-server fault name cl t u e = ground (
    arith,
    clear_scoped-lem fault server name t u e,
    has_marker-delete_markers c server name t.overrides,
    has_marker-delete_other c cluster cl server name t.overrides refl,
    has_marker-delete_other c global "" server name t.overrides refl,
    items_at-delete_other c cluster cl server name t.assignments refl,
    items_at-delete_other c global "" server name t.assignments refl,
  )
