-- ===== src/Database/Crud.antt =====
-- orchestration/database/crud.go: the operations on the rows, each one statement or one transaction.
-- What the caller gets is whether it succeeded, and the tables afterwards.
pub mod Leftovers
pub mod Links
pub mod Writes
pub mod Creates
pub mod Reachable
use csfleet.Prelude.{
  ℕ, ◌+◌, ◌≡◌, Bool, true, false, ◌&&◌, ◌||◌, not, List, [], ◌∷◌, ◌++◌, map, Option, none, some,
  String, if◌then◌else◌, ◌==◌,
}
use csfleet.Database.Rows.{
  Hours, ServerRow, ClusterRow, stored_server, stored_cluster, DesiredState, Result, ok, err,
  no_rows,
}
use csfleet.Database.Sets.{
  Scope, global, cluster, server, Sets, Entry, Collation, Statement, transact, set_tx, is_at, names,
  clear_items, clear_override, has_name, Assignment,
}
use csfleet.Database.Env.{EnvVarRow, has_env, set_value, clear_env_rows}
use csfleet.Database.Tables.{
  Store, select, delete, update_where, upsert, same_port, is_none, server_named, cluster_named,
  clashes, cluster_has_port, server_has_port, placed, fits_int, insert_server, insert_cluster,
  delete_server_row, delete_cluster_row,
}

module _ {h : Hours} (c : Collation) where
  open c use {same}

  pub on_plugins : Statement Sets → Statement (Store h)
  on_plugins q t = elim (q t.plugins) [ none ↦ none | some p ↦ some (record t { plugins = p }) ]

  pub on_configs : Statement Sets → Statement (Store h)
  on_configs q t = elim (q t.configs) [ none ↦ none | some p ↦ some (record t { configs = p }) ]

  -- setEnvTx
  unfoldable pub set_env_tx : String → String → Scope → String → Statement (Store h)
  set_env_tx k v sc n t =
      let new : EnvVarRow = record { key = k; value = v; scope = sc; scope_name = n } in
      some (record t {
        env = (if has_env c k sc n t.env then set_value c k v sc n t.env else t.env ++ (new ∷ []));
      })

  unfoldable pub clear_env : Scope → String → Statement (Store h)
  clear_env sc n t = some (record t { env = clear_env_rows c sc n t.env })

  -- A nil list inherits: no marker is written.
  set_optional :
      (Statement Sets → Statement (Store h))
      → Scope
      → String
      → Option (List String)
      → List (Statement (Store h))
  set_optional lift sc n none = []
  set_optional lift sc n (some xs) = map lift (set_tx c sc n xs)

  set_all_env : Scope → String → List (String × String) → List (Statement (Store h))
  set_all_env sc n [] = []
  set_all_env sc n ((k, v) ∷ rest) = set_env_tx k v sc n ∷ set_all_env sc n rest

  -- The create-time assignments, in the order of the source; `env` is in the order of Go's range.
  pub assignments_tx :
      Scope
      → String
      → Option (List String)
      → Option (List String)
      → List (String × String)
      → List (Statement (Store h))
  unfolding set_optional set_all_env on_plugins on_configs
  assignments_tx sc n plugins configs env =
      set_optional on_plugins sc n plugins
      ++ set_optional on_configs sc n configs
      ++ set_all_env sc n env

  unfoldable pub create_server :
      (ℕ → Bool)
      → ServerRow h
      → Option (List String)
      → Option (List String)
      → List (String × String)
      → Store h
      → Bool × Store h
  unfolding assignments_tx
  create_server fault r plugins configs env =
      transact fault (insert_server c r ∷ assignments_tx server r.name plugins configs env)

  unfoldable pub create_cluster :
      (ℕ → Bool)
      → ClusterRow h
      → Option (List String)
      → Option (List String)
      → List (String × String)
      → Store h
      → Bool × Store h
  unfolding assignments_tx
  create_cluster fault r plugins configs env =
      transact fault (insert_cluster c r ∷ assignments_tx cluster r.name plugins configs env)

  -- deleteScopedServer
  unfoldable pub delete_server : (ℕ → Bool) → String → Store h → Bool × Store h
  unfolding on_plugins on_configs
  delete_server fault n = transact fault (
      delete_server_row c n
      ∷ clear_env server n
      ∷ on_plugins (clear_items c server n)
      ∷ on_plugins (clear_override c server n)
      ∷ on_configs (clear_items c server n)
      ∷ on_configs (clear_override c server n)
      ∷ [])

  -- deleteScopedCluster
  unfoldable pub delete_cluster : (ℕ → Bool) → String → Store h → Bool × Store h
  unfolding on_plugins on_configs
  delete_cluster fault n = transact fault (
      delete_cluster_row c n
      ∷ clear_env cluster n
      ∷ on_plugins (clear_items c cluster n)
      ∷ on_plugins (clear_override c cluster n)
      ∷ on_configs (clear_items c cluster n)
      ∷ on_configs (clear_override c cluster n)
      ∷ [])

  -- UpdateServer's one statement. A name that is not there is no error; the other columns are those
  -- of `r`, which the constraints check against the other rows.
  unfoldable pub update_server : String → ServerRow h → Statement (Store h)
  update_server n r t = elim (server_named c n t.servers) [
    | none ↦ some t
    | some old ↦
        let new = stored_server (record r { name = old.name }) in
        let others = delete (λ (s : ServerRow h). s.name) same n t.servers in
        if placed c t.clusters r.port r.cluster && not (clashes c new others)
        then some (record t {
          servers = update_where (λ (s : ServerRow h). s.name) same n (λ s. new) t.servers;
        })
        else none
  ]

  unfoldable pub update_server_desired_state : String → DesiredState → Statement (Store h)
  update_server_desired_state n d t = some (record t {
    servers =
        update_where (λ (s : ServerRow h). s.name) same n (λ s. record s { desired_state = d })
          t.servers;
  })

  unfoldable pub update_cluster : String → ClusterRow h → Statement (Store h)
  update_cluster n r t = elim (cluster_named c n t.clusters) [
    | none ↦ some t
    | some old ↦
        let new = stored_cluster (record r { name = old.name }) in
        let others = delete (λ (k : ClusterRow h). k.name) same n t.clusters in
        if fits_int r.port
          && not (cluster_has_port c r.port others)
          && not (server_has_port c r.port t.servers)
        then some (record t {
          clusters = update_where (λ (k : ClusterRow h). k.name) same n (λ k. new) t.clusters;
        })
        else none
  ]
