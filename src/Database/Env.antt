-- ===== src/Database/Env.antt =====
-- The environment rows: orchestration/database/resolve.go's LoadEnv and EffectiveEnv, and the row
-- operations of crud.go's SetEnvVar and DeleteEnvVar.
use csfleet.Prelude.{
  ◌≡◌, refl, Bool, false, ◌&&◌, ◌||◌, List, [], ◌∷◌, ◌++◌, Option, none, some, String, Map,
  empty_map, update, String_discrete, if◌then◌else◌, arith,
}
use csfleet.Database.Sets.{Scope, global, cluster, server, same_scope, Collation, is_at}

pub record EnvVarRow : Type 0 where
  pub key : String
  pub value : String
  pub scope : Scope
  pub scope_name : String

-- The loop of LoadEnv: a later row overwrites an earlier one of its key.
unfoldable pub overlay : Map String String → List EnvVarRow → Map String String
overlay env [] = env
overlay env (r ∷ rs) = overlay (update String_discrete env r.key (some r.value)) rs

-- The loop of EffectiveEnv, which keeps the row.
unfoldable pub overlay_rows : Map String EnvVarRow → List EnvVarRow → Map String EnvVarRow
overlay_rows env [] = env
overlay_rows env (r ∷ rs) = overlay_rows (update String_discrete env r.key (some r)) rs

-- The last row of a key.
unfoldable pub last_row : String → List EnvVarRow → Option EnvVarRow
last_row k [] = none
last_row k (r ∷ rs) = elim (last_row k rs) [
  | some later ↦ some later
  | none ↦ elim (String_discrete r.key k) [ yes _ ↦ some r | no _ ↦ none ]
]

abbrev pub or_else : {A : Type 0} → Option A → Option A → Option A
or_else (some a) b = some a
or_else none b = b

abbrev pub value_of : Option EnvVarRow → Option String
value_of none = none
value_of (some r) = some r.value

-- scope = 'global', whatever the name.
unfoldable pub global_rows : List EnvVarRow → List EnvVarRow
global_rows [] = []
global_rows (r ∷ rs) =
    let rest = global_rows rs in if same_scope global r.scope then r ∷ rest else rest

module _ (c : Collation) where
  open c use {same}

  unfoldable pub rows_in : Scope → String → List EnvVarRow → List EnvVarRow
  rows_in sc n [] = []
  rows_in sc n (r ∷ rs) =
      let rest = rows_in sc n rs in if is_at c sc n r.scope r.scope_name then r ∷ rest else rest

  -- The query of LoadEnv and EffectiveEnv, with its ORDER BY FIELD(scope, ...).
  abbrev pub overlay_query : String → String → List EnvVarRow → List EnvVarRow
  overlay_query name cl rows =
      global_rows rows ++ (rows_in cluster cl rows ++ rows_in server name rows)

  unfoldable pub load_env : String → String → List EnvVarRow → Map String String
  load_env name cl rows = overlay empty_map (overlay_query name cl rows)

  -- EffectiveEnv's rows by key; it lists them sorted by key.
  unfoldable pub effective_env : String → String → List EnvVarRow → Map String EnvVarRow
  effective_env name cl rows = overlay_rows empty_map (overlay_query name cl rows)

  abbrev pub is_env : String → Scope → String → EnvVarRow → Bool
  is_env k sc n r = same k r.key && is_at c sc n r.scope r.scope_name

  unfoldable pub has_env : String → Scope → String → List EnvVarRow → Bool
  has_env k sc n [] = false
  has_env k sc n (r ∷ rs) = is_env k sc n r || has_env k sc n rs

  unfoldable pub set_value : String → String → Scope → String → List EnvVarRow → List EnvVarRow
  set_value k v sc n [] = []
  set_value k v sc n (r ∷ rs) =
      let rest = set_value k v sc n rs in
      if is_env k sc n r then record r { value = v } ∷ rest else r ∷ rest

  -- DeleteEnvVar
  unfoldable pub delete_env : String → Scope → String → List EnvVarRow → List EnvVarRow
  delete_env k sc n [] = []
  delete_env k sc n (r ∷ rs) =
      let rest = delete_env k sc n rs in if is_env k sc n r then rest else r ∷ rest

  -- The DELETE of deleteScopedServer and deleteScopedCluster.
  unfoldable pub clear_env_rows : Scope → String → List EnvVarRow → List EnvVarRow
  clear_env_rows sc n [] = []
  clear_env_rows sc n (r ∷ rs) =
      let rest = clear_env_rows sc n rs in
      if is_at c sc n r.scope r.scope_name then rest else r ∷ rest

overlay_rows-last_row :
    (env : Map String EnvVarRow) (rows : List EnvVarRow) (k : String)
    → overlay_rows env rows k ≡ or_else (last_row k rows) (env k)
unfolding overlay_rows last_row
overlay_rows-last_row env [] k = refl
overlay_rows-last_row env (r ∷ rs) k =
    ground (arith, overlay_rows-last_row (update String_discrete env r.key (some r)) rs k)

overlay-overlay_rows :
    (env : Map String String) (rows_env : Map String EnvVarRow) (rows : List EnvVarRow) (k : String)
    → ((j : String) → env j ≡ value_of (rows_env j))
    → overlay env rows k ≡ value_of (overlay_rows rows_env rows k)
unfolding overlay overlay_rows
overlay-overlay_rows env rows_env [] k agree = agree k
overlay-overlay_rows env rows_env (r ∷ rs) k agree =
    overlay-overlay_rows (update String_discrete env r.key (some r.value))
      (update String_discrete rows_env r.key (some r)) rs k (λ j. ground (arith, agree j))

last_row-append :
    (k : String) (as_ bs : List EnvVarRow)
    → last_row k (as_ ++ bs) ≡ or_else (last_row k bs) (last_row k as_)
unfolding last_row
last_row-append k [] bs = ground arith
last_row-append k (r ∷ rs) bs = ground (arith, last_row-append k rs bs)

module _ (c : Collation) where
  -- The container's value of a key is the one of the server's own row; without one, that of its
  -- cluster; without one, the global one. EffectiveEnv shows the row that this value comes from.
  pub load_env-precedence :
      (name cl : String) (rows : List EnvVarRow) (k : String)
      → (effective_env c name cl rows k
          ≡ or_else
              (last_row k (rows_in c server name rows))
              (or_else (last_row k (rows_in c cluster cl rows)) (last_row k (global_rows rows))))
        × (load_env c name cl rows k ≡ value_of (effective_env c name cl rows k))
  unfolding load_env effective_env
  load_env-precedence name cl rows k = (
    ground (
      arith,
      overlay_rows-last_row empty_map (overlay_query c name cl rows) k,
      last_row-append k (global_rows rows)
          (rows_in c cluster cl rows ++ rows_in c server name rows),
      last_row-append k (rows_in c cluster cl rows) (rows_in c server name rows),
    ),
    overlay-overlay_rows empty_map empty_map (overlay_query c name cl rows) k (λ j. refl),
  )
