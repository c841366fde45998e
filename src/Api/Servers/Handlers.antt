-- ===== src/Api/Servers/Handlers.antt =====
-- orchestration/api/servers.go: the handlers.
use csfleet.Prelude.{
  ℕ, Bool, ◌||◌, ◌&&◌, not, List, map, Option, none, some, String, Map, if◌then◌else◌,
}
use text.Mathlib.Text.{◌==◌ as str_eq}
use csfleet.Database.Rows.{Hours, ServerRow, DesiredState, running, stopped, Result, ok, err}
use csfleet.Database.Sets.{Scope, Collation}
use csfleet.Database.Env.{EnvVarRow, effective_env, load_env}
use csfleet.Database.Tables.{Store, get_server, get_cluster, is_none}
use csfleet.Database.Scopes.{server_plugins, server_configs, effective_plugins, effective_configs}
use csfleet.Database.Crud.{
  create_server as create_server_tx, update_server as update_server_row,
  update_server_desired_state, delete_server as delete_server_tx,
}
use csfleet.Api.Http.{
  Status, status_ok, status_created, status_no_content, status_bad_request, status_conflict,
  fixed_text, error_text, Response, write_json, write_err, write_header, db_err, internal_error,
  invalid_body, query, World, nudge, reply, reply_500, exec_one,
}
use csfleet.Api.Requests.{
  ServerStatus, ServerResponse, to_server_response, CreateServerRequest, to_server_row,
  UpdateServerRequest, apply_to_server, SetResponse,
}
use csfleet.Api.Servers.{
  allocate_ip, validate_reachable, cluster_of, Live, status_for, server_statuses,
}

abbrev pub or_else : {A : Type 0} → Result A → A → A
or_else (ok a) d = a
or_else (err e) d = d

-- The failures of the queries of withEffective.
pub record Failing : Type 0 where
  pub port : Bool
  pub plugins : Scope → Bool × Bool
  pub configs : Scope → Bool × Bool
  pub env : Bool

module _ {h : Hours} (c : Collation) (failing : Failing) where
  effective_port : Store h → Option ℕ → Option String → Option ℕ
  effective_port t (some p) k = some p
  effective_port t none none = none
  effective_port t none (some k) = elim (query failing.port (get_cluster c t k)) [
    | err e ↦ none
    | ok cl ↦ some cl.port
  ]

  -- A nil slice or map is an empty one here.
  unfoldable pub with_effective : Store h → ServerResponse h → ServerRow h → ServerResponse h
  unfolding effective_port
  with_effective t resp row =
      let cl = cluster_of row in
      record resp {
        port = effective_port t resp.port row.cluster;
        plugins = or_else (effective_plugins c failing.plugins row.name cl t) resp.plugins;
        configs = or_else (effective_configs c failing.configs row.name cl t) resp.configs;
        env = if failing.env then resp.env else load_env c row.name cl t.env;
      }

  unfoldable pub server_response : Store h → ServerStatus h → ServerResponse h
  server_response t st = with_effective t (to_server_response h st) st.row

  unfoldable pub server_responses : Store h → List (ServerStatus h) → List (ServerResponse h)
  server_responses t = map (server_response t)

abbrev pub or_running : String → String
or_running state = if str_eq state "" then "running" else state

abbrev pub state_or : Option DesiredState → DesiredState → DesiredState
state_or (some d) old = d
state_or none old = old

abbrev own_set : Bool → List String → Response SetResponse
own_set own items = write_json status_ok (record { overridden = own; items = items })

-- `reads n` says that query or statement `n` of the handler fails by itself, and `fault` is that of its
-- transaction. `column` is what the desired_state column makes of a text, `none` if it refuses it.
module _ {h : Hours} (c : Collation) (prefix : String) (column : String → Option DesiredState)
    (failing : Failing) (reads fault : ℕ → Bool) (statuses : List Live) where
  unfoldable pub list_servers : World h → Response (List (ServerResponse h))
  list_servers w = elim (server_statuses (reads 0) statuses w.store.servers) [
    | none ↦ internal_error
    | some sts ↦ write_json status_ok (server_responses c failing w.store sts)
  ]

  -- The answer with a row that has been read.
  abbrev shown : Status → Store h → ServerRow h → Response (ServerResponse h)
  shown code t row = write_json code (server_response c failing t (status_for statuses row))

  unfoldable pub get_server_handler : String → World h → Response (ServerResponse h)
  get_server_handler n w =
      reply (query (reads 0) (get_server c w.store n)) (shown status_ok w.store)

  -- After the write: the nudge, and the row read back.
  unfoldable pub read_back :
      Bool → Status → String → World h → World h × Response (ServerResponse h)
  read_back fails code n w =
      (nudge w, reply (query fails (get_server c w.store n)) (shown code w.store))

  unfoldable pub create_row :
      CreateServerRequest h → String → World h → World h × Response (ServerResponse h)
  unfolding read_back
  create_row req ip w = elim (column (or_running req.desired_state)) [
    | none ↦ (w, write_err status_bad_request error_text)
    | some state ↦
        let row = record (to_server_row h req state) { ip = ip } in
        let written = create_server_tx c fault row req.plugins req.configs req.env w.store in
        let after = record w { store = written.1 } in
        if written.0
        then read_back (reads 1) status_created row.name after
        else (after, write_err status_bad_request error_text)
  ]

  unfoldable pub create_server :
      Option (CreateServerRequest h) → World h → World h × Response (ServerResponse h)
  create_server none w = (w, invalid_body)
  create_server (some req) w =
      if str_eq req.name ""
      then (w, write_err status_bad_request (fixed_text "name is required"))
      else if validate_reachable (to_server_row h req running)
      then (elim (allocate_ip prefix (reads 0) w.store.servers) [
        | none ↦ (w, write_err status_conflict error_text)
        | some ip ↦ create_row req ip w
      ])
      else (
        w,
        write_err status_bad_request
            (fixed_text "set exactly one of port (standalone) or cluster (member)"),
      )

  unfoldable pub update_row :
      String → ServerRow h → UpdateServerRequest h → World h → World h × Response (ServerResponse h)
  unfolding read_back
  update_row n existing req w =
      let state = state_or (column req.desired_state) existing.desired_state in
      elim (apply_to_server h req state existing) [
        | none ↦ (
          w,
          write_err status_bad_request
              (fixed_text "port is managed by the cluster for a member server"),
        )
        | some row ↦
            let refused = not (str_eq req.desired_state "") && is_none (column req.desired_state) in
            elim (exec_one (refused || reads 1) (update_server_row c n row) w.store) [
              | none ↦ (w, write_err status_conflict error_text)
              | some t ↦ read_back (reads 2) status_ok n (record w { store = t })
            ]
      ]

  unfoldable pub update_server :
      String → Option (UpdateServerRequest h) → World h → World h × Response (ServerResponse h)
  update_server n body w = elim (query (reads 0) (get_server c w.store n)) [
    | err e ↦ (w, db_err e)
    | ok existing ↦ elim body [ none ↦ (w, invalid_body) | some req ↦ update_row n existing req w ]
  ]

  unfoldable pub delete_server : String → World h → World h × Response Unit
  delete_server n w =
      let written = delete_server_tx c fault n w.store in
      let after = record w { store = written.1 } in
      if written.0 then (nudge after, write_header status_no_content) else (after, internal_error)

  unfoldable pub set_desired : String → DesiredState → World h → World h × Response Unit
  set_desired n d w = elim (exec_one (reads 0) (update_server_desired_state c n d) w.store) [
    | none ↦ (w, internal_error)
    | some t ↦ (nudge (record w { store = t }), write_header status_no_content)
  ]

  unfoldable pub start_server : String → World h → World h × Response Unit
  start_server n = set_desired n running

  unfoldable pub stop_server : String → World h → World h × Response Unit
  stop_server n = set_desired n stopped

  unfoldable pub get_server_plugins :
      (Scope → Bool × Bool) → String → World h → Response SetResponse
  get_server_plugins own n w = reply (query (reads 0) (get_server c w.store n)) (λ row.
      reply_500 (server_plugins c own n w.store) (λ set.
        reply_500 (effective_plugins c failing.plugins n (cluster_of row) w.store)
          (own_set set.overridden)))

  unfoldable pub get_server_configs :
      (Scope → Bool × Bool) → String → World h → Response SetResponse
  get_server_configs own n w = reply (query (reads 0) (get_server c w.store n)) (λ row.
      reply_500 (server_configs c own n w.store) (λ set.
        reply_500 (effective_configs c failing.configs n (cluster_of row) w.store)
          (own_set set.overridden)))

  -- The rows by key.
  unfoldable pub get_server_env : String → World h → Response (Map String EnvVarRow)
  get_server_env n w = reply (query (reads 0) (get_server c w.store n)) (λ row.
      reply_500 (query (reads 1) (ok (effective_env c n (cluster_of row) w.store.env)))
        (write_json status_ok))
