-- ===== src/Database/Scopes.antt =====
-- orchestration/database/plugins.go and configs.go: the exported operations, by scope, and crud.go's
-- SetEnvVar and DeleteEnvVar.
use csfleet.Prelude.{ℕ, ◌≡◌, refl, Bool, true, List, [], ◌∷◌, String, arith}
use csfleet.Database.Rows.{Hours, Result, ok}
use csfleet.Database.Sets.{
  Scope, global, cluster, server, Sets, ScopedSet, Collation, transact, set_scoped, clear_scoped,
  scoped, effective_set,
}
use csfleet.Database.Sets.Inheritance.{healthy, set_scoped-server}
use csfleet.Database.Env.{delete_env}
use csfleet.Database.Tables.{Store}
use csfleet.Database.Crud.{set_env_tx}

-- Whether the queries of a scope fail, as scoped takes it.
abbrev at_scope : Collation → (Scope → Bool × Bool) → Scope → String → Sets → Result ScopedSet
at_scope c fails sc n = scoped c (fails sc).0 (fails sc).1 sc n

module _ {h : Hours} (c : Collation) where
  put_plugins : Store h → Bool × Sets → Bool × Store h
  put_plugins t (good, p) = (good, record t { plugins = p })

  put_configs : Store h → Bool × Sets → Bool × Store h
  put_configs t (good, p) = (good, record t { configs = p })

  module _ (fails : Scope → Bool × Bool) where
    unfoldable pub global_plugins : Store h → Result ScopedSet
    global_plugins t = at_scope c fails global "" t.plugins

    unfoldable pub cluster_plugins : String → Store h → Result ScopedSet
    cluster_plugins n t = at_scope c fails cluster n t.plugins

    unfoldable pub server_plugins : String → Store h → Result ScopedSet
    server_plugins n t = at_scope c fails server n t.plugins

    unfoldable pub global_configs : Store h → Result ScopedSet
    global_configs t = at_scope c fails global "" t.configs

    unfoldable pub cluster_configs : String → Store h → Result ScopedSet
    cluster_configs n t = at_scope c fails cluster n t.configs

    unfoldable pub server_configs : String → Store h → Result ScopedSet
    server_configs n t = at_scope c fails server n t.configs

    unfoldable pub effective_plugins : String → String → Store h → Result (List String)
    effective_plugins name cl t = effective_set c fails name cl t.plugins

    unfoldable pub effective_configs : String → String → Store h → Result (List String)
    effective_configs name cl t = effective_set c fails name cl t.configs

  module _ (fault : ℕ → Bool) where
    unfoldable pub set_scoped_configs : Scope → String → List String → Store h → Bool × Store h
    unfolding put_configs
    set_scoped_configs sc n xs t = put_configs t (set_scoped c fault sc n xs t.configs)

    unfoldable pub set_scoped_plugins : Scope → String → List String → Store h → Bool × Store h
    unfolding put_plugins
    set_scoped_plugins sc n xs t = put_plugins t (set_scoped c fault sc n xs t.plugins)

    unfoldable pub clear_scoped_configs : Scope → String → Store h → Bool × Store h
    unfolding put_configs
    clear_scoped_configs sc n t = put_configs t (clear_scoped c fault sc n t.configs)

    unfoldable pub clear_scoped_plugins : Scope → String → Store h → Bool × Store h
    unfolding put_plugins
    clear_scoped_plugins sc n t = put_plugins t (clear_scoped c fault sc n t.plugins)

    unfoldable pub set_global_plugins : List String → Store h → Bool × Store h
    set_global_plugins = set_scoped_plugins global ""

    unfoldable pub set_cluster_plugins : String → List String → Store h → Bool × Store h
    set_cluster_plugins = set_scoped_plugins cluster

    unfoldable pub set_server_plugins : String → List String → Store h → Bool × Store h
    set_server_plugins = set_scoped_plugins server

    unfoldable pub clear_cluster_plugins : String → Store h → Bool × Store h
    clear_cluster_plugins = clear_scoped_plugins cluster

    unfoldable pub clear_server_plugins : String → Store h → Bool × Store h
    clear_server_plugins = clear_scoped_plugins server

    unfoldable pub set_global_configs : List String → Store h → Bool × Store h
    set_global_configs = set_scoped_configs global ""

    unfoldable pub set_cluster_configs : String → List String → Store h → Bool × Store h
    set_cluster_configs = set_scoped_configs cluster

    unfoldable pub set_server_configs : String → List String → Store h → Bool × Store h
    set_server_configs = set_scoped_configs server

    unfoldable pub clear_cluster_configs : String → Store h → Bool × Store h
    clear_cluster_configs = clear_scoped_configs cluster

    unfoldable pub clear_server_configs : String → Store h → Bool × Store h
    clear_server_configs = clear_scoped_configs server

    unfoldable pub set_env_var : String → String → Scope → String → Store h → Bool × Store h
    set_env_var k v sc n = transact fault (set_env_tx c k v sc n ∷ [])

  -- DeleteEnvVar's one statement.
  unfoldable pub delete_env_var : String → Scope → String → Store h → Store h
  delete_env_var k sc n t = record t { env = delete_env c k sc n t.env }

  -- A server's plugin set, written by a call that succeeds, is what EffectivePlugins gives for it from
  -- then on, and no write of plugins changes the configs or the variables of any server.
  pub set_server_plugins_lem :
      (fault : ℕ → Bool) (name cl : String) (xs : List String) (t u : Store h)
      → set_server_plugins fault name xs t ≡ (true, u)
      → (effective_plugins healthy name cl u ≡ ok (c.order_by xs))
        × ((other cl' : String)
            → effective_configs healthy other cl' u ≡ effective_configs healthy other cl' t)
        × (u.env ≡ t.env)
        × (u.servers ≡ t.servers)
  unfolding set_server_plugins set_scoped_plugins effective_plugins effective_configs
  set_server_plugins_lem fault name cl xs t u e =
      let p = set_scoped c fault server name xs t.plugins in
      let good : p ≡ (true, u.plugins) = ground arith in
      let rest : u ≡ record t { plugins = u.plugins } = ground arith in
      (
        (set_scoped-server c fault name xs t.plugins u.plugins good).0 cl,
        λ other cl'. rw rest refl,
        ground arith,
        ground arith,
      )
