-- ===== src/Database/Sets.antt =====
-- orchestration/database/plugins.go and configs.go, which are the same code over two pairs of tables:
-- the plugins or the configs of a scope. A table is the list of its rows.
pub mod Places
pub mod Inheritance
pub mod Success
use csfleet.Prelude.{
  ℕ, ◌+◌, ◌≡◌, Bool, true, false, ◌&&◌, List, [], ◌∷◌, Option, none, some, String, length, not,
  if◌then◌else◌, ◌||◌, ◌++◌,
}
use text.Mathlib.Text.{◌==◌ as str_eq}
use csfleet.Database.Rows.{Result, ok, err, db_error, ◌>>=◌}

pub data Scope : Type 0 where
  global cluster server : Scope

abbrev pub same_scope : Scope → Scope → Bool
same_scope global global = true
same_scope cluster cluster = true
same_scope server server = true
same_scope _ _ = false

-- A row of csfleet_plugin_overrides or csfleet_config_overrides.
pub record Marker : Type 0 where
  pub scope : Scope
  pub scope_name : String

-- A row of csfleet_plugin_assignments or csfleet_config_assignments.
pub record Assignment : Type 0 where
  pub item : String
  pub scope : Scope
  pub scope_name : String

-- A row of csfleet_config_files, or of csfleet_plugin_manifests, which has no file name.
pub record Entry : Type 0 where
  pub name : String
  pub filename : String
  pub content : String

-- The foreign key of the assignments refers to the catalog's names.
pub record Sets : Type 0 where
  pub catalog : List Entry
  pub overrides : List Marker
  pub assignments : List Assignment

abbrev pub names : List Entry → List String
names [] = []
names (e ∷ es) = e.name ∷ names es

-- ScopedPlugin and ScopedConfig.
pub record ScopedSet : Type 0 where
  pub overridden : Bool
  pub items : List String

-- What the queries use of the database's collation: its equality of names, and ORDER BY.
pub record Collation : Type 0 where
  pub same : String → String → Bool
  pub order_by : List String → List String
  pub same_refl : (a : String) → same a a ≡ true
  pub same_euclid : (a b x : String) → same a x ≡ true → same b x ≡ true → same a b ≡ true

-- A statement on tables of type `A`: `none` is an error, a broken constraint.
abbrev pub Statement : Type 0 → Type 0
Statement A = A → Option A

module _ {A : Type 0} (fault : ℕ → Bool) where
  -- The statements in turn; `fault n` says that call `n` of the transaction fails by itself.
  unfoldable pub exec_all : ℕ → List (Statement A) → A → Option A
  exec_all n [] a = some a
  exec_all n (q ∷ qs) a = elim (fault n) [
    | true ↦ none
    | false ↦ elim (q a) [ none ↦ none | some b ↦ exec_all (n + 1) qs b ]
  ]

  -- Begin, the statements, Commit. An error rolls back: the flag is false and the tables are as before.
  unfoldable pub transact : List (Statement A) → A → Bool × A
  transact qs a = if fault 0 then (false, a) else elim (exec_all 1 qs a) [
    | none ↦ (false, a)
    | some b ↦ if fault (1 + length qs) then (false, a) else (true, b)
  ]

module _ (c : Collation) where
  open c use {same, order_by}

  abbrev pub is_at : Scope → String → Scope → String → Bool
  is_at sc n sc' n' = same_scope sc sc' && same n n'

  unfoldable pub has_marker : Scope → String → List Marker → Bool
  has_marker sc n [] = false
  has_marker sc n (m ∷ ms) = if is_at sc n m.scope m.scope_name then true else has_marker sc n ms

  unfoldable pub delete_markers : Scope → String → List Marker → List Marker
  delete_markers sc n [] = []
  delete_markers sc n (m ∷ ms) =
      let rest = delete_markers sc n ms in
      if is_at sc n m.scope m.scope_name then rest else m ∷ rest

  unfoldable pub items_at : Scope → String → List Assignment → List String
  items_at sc n [] = []
  items_at sc n (a ∷ rows) =
      let rest = items_at sc n rows in
      if is_at sc n a.scope a.scope_name then a.item ∷ rest else rest

  unfoldable pub delete_items : Scope → String → List Assignment → List Assignment
  delete_items sc n [] = []
  delete_items sc n (a ∷ rows) =
      let rest = delete_items sc n rows in
      if is_at sc n a.scope a.scope_name then rest else a ∷ rest

  unfoldable pub has_name : String → List String → Bool
  has_name x [] = false
  has_name x (y ∷ ys) = if same x y then true else has_name x ys

  -- INSERT IGNORE INTO the overrides.
  unfoldable pub mark_override : Scope → String → Statement Sets
  mark_override sc n t = some (
      if has_marker sc n t.overrides
      then t
      else record t { overrides = record { scope = sc; scope_name = n } ∷ t.overrides })

  unfoldable pub clear_override : Scope → String → Statement Sets
  clear_override sc n t = some (record t { overrides = delete_markers sc n t.overrides })

  unfoldable pub clear_items : Scope → String → Statement Sets
  clear_items sc n t = some (record t { assignments = delete_items sc n t.assignments })

  -- INSERT INTO the assignments: the item must be in the catalog, and the row new.
  unfoldable pub assign_item : Scope → String → String → Statement Sets
  assign_item sc n x t =
      if has_name x (names t.catalog) && not (has_name x (items_at sc n t.assignments))
      then some (record t {
        assignments = t.assignments ++ (record { item = x; scope = sc; scope_name = n } ∷ []);
      })
      else none

  unfoldable pub assign_items : Scope → String → List String → List (Statement Sets)
  assign_items sc n [] = []
  assign_items sc n (x ∷ xs) = assign_item sc n x ∷ assign_items sc n xs

  -- setPluginsTx and setConfigsTx, as the statements they run in the transaction.
  unfoldable pub set_tx : Scope → String → List String → List (Statement Sets)
  set_tx sc n xs = mark_override sc n ∷ clear_items sc n ∷ assign_items sc n xs

  -- setScopedPlugins and setScopedConfigs.
  unfoldable pub set_scoped : (ℕ → Bool) → Scope → String → List String → Sets → Bool × Sets
  set_scoped fault sc n xs = transact fault (set_tx sc n xs)

  -- clearScopedPlugins and clearScopedConfigs.
  unfoldable pub clear_scoped : (ℕ → Bool) → Scope → String → Sets → Bool × Sets
  clear_scoped fault sc n = transact fault (clear_override sc n ∷ clear_items sc n ∷ [])

  -- scopedPlugins and scopedConfigs; `marker_fails` and `rows_fail` say that a query fails.
  unfoldable pub scoped : Bool → Bool → Scope → String → Sets → Result ScopedSet
  scoped marker_fails rows_fail sc n t =
      if marker_fails
      then err db_error
      else if has_marker sc n t.overrides
      then (if rows_fail
          then err db_error
          else ok (record { overridden = true; items = order_by (items_at sc n t.assignments) }))
      else ok (record { overridden = false; items = [] })

  -- EffectivePlugins and EffectiveConfigs: server, then cluster unless it is "", then global. `fails`
  -- says of each scope whether its queries fail.
  unfoldable pub effective_set :
      (Scope → Bool × Bool) → String → String → Sets → Result (List String)
  effective_set fails name cl t = do
    own ← scoped (fails server).0 (fails server).1 server name t
    shared ←
        (if own.overridden || str_eq cl ""
          then ok own
          else scoped (fails cluster).0 (fails cluster).1 cluster cl t)
    root ←
        (if shared.overridden
          then ok shared
          else scoped (fails global).0 (fails global).1 global "" t)
    ok root.items
