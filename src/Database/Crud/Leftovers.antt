-- ===== src/Database/Crud/Leftovers.antt =====
-- A deleted server or cluster leaves no row behind that a later one of its name would take over.
use csfleet.Prelude.{ℕ, ◌≡◌, refl, Bool, true, false, List, [], ◌∷◌, none, String, arith}
use csfleet.Database.Rows.{Hours, ServerRow, ClusterRow, err, no_rows}
use csfleet.Database.Sets.{
  Scope, cluster, server, Collation, exec_all, transact, has_marker, items_at, clear_items,
  clear_override,
}
use csfleet.Database.Sets.Places.{items_at-delete_items, has_marker-delete_markers}
use csfleet.Database.Env.{EnvVarRow, rows_in, clear_env_rows}
use csfleet.Database.Tables.{
  Store, select, delete, get_server, get_cluster, has_member, delete_server_row, delete_cluster_row,
}
use csfleet.Database.Crud.{delete_server, delete_cluster, clear_env}

select-delete :
    {A : Type 0} (name : A → String) (same : String → String → Bool) (n : String) (rows : List A)
    → select name same n (delete name same n rows) ≡ none
unfolding select delete
select-delete name same n [] = refl
select-delete name same n (r ∷ rs) = ground (arith, select-delete name same n rs)

module _ (c : Collation) where
  rows_in-clear_env_rows :
      (sc : Scope) (n : String) (rows : List EnvVarRow)
      → rows_in c sc n (clear_env_rows c sc n rows) ≡ []
  unfolding rows_in clear_env_rows
  rows_in-clear_env_rows sc n [] = refl
  rows_in-clear_env_rows sc n (r ∷ rs) = ground (arith, rows_in-clear_env_rows sc n rs)

module _ {h : Hours} (c : Collation) where
  -- Nothing of the scope: no set of plugins or configs, and no variable.
  abbrev pub Bare : Scope → String → Store h → Type 0
  Bare sc n t =
      (has_marker c sc n t.plugins.overrides ≡ false)
      × (items_at c sc n t.plugins.assignments ≡ [])
      × (has_marker c sc n t.configs.overrides ≡ false)
      × (items_at c sc n t.configs.assignments ≡ [])
      × (rows_in c sc n t.env ≡ [])

  -- A deleted server is gone, with its own plugin set, config set and variables.
  pub delete_server-Bare :
      (fault : ℕ → Bool) (n : String) (t u : Store h)
      → delete_server c fault n t ≡ (true, u)
      → (get_server c u n ≡ err no_rows) × Bare server n u
  unfolding delete_server transact exec_all delete_server_row clear_env clear_items clear_override
      get_server
  delete_server-Bare fault n t u e = ground (
    arith,
    select-delete (λ (r : ServerRow h). r.name) c.same n t.servers,
    rows_in-clear_env_rows c server n t.env,
    items_at-delete_items c server n t.plugins.assignments,
    items_at-delete_items c server n t.configs.assignments,
    has_marker-delete_markers c server n t.plugins.overrides,
    has_marker-delete_markers c server n t.configs.overrides,
  )

  -- A cluster is deleted only when no server belongs to it, and then it is gone with all of its own.
  pub delete_cluster-Bare :
      (fault : ℕ → Bool) (n : String) (t u : Store h)
      → delete_cluster c fault n t ≡ (true, u)
      → (has_member c n t.servers ≡ false)
        × (get_cluster c u n ≡ err no_rows)
        × (u.servers ≡ t.servers)
        × Bare cluster n u
  unfolding delete_cluster transact exec_all delete_cluster_row clear_env clear_items clear_override
      get_cluster
  delete_cluster-Bare fault n t u e = ground (
    arith,
    select-delete (λ (r : ClusterRow h). r.name) c.same n t.clusters,
    rows_in-clear_env_rows c cluster n t.env,
    items_at-delete_items c cluster n t.plugins.assignments,
    items_at-delete_items c cluster n t.configs.assignments,
    has_marker-delete_markers c cluster n t.plugins.overrides,
    has_marker-delete_markers c cluster n t.configs.overrides,
  )
