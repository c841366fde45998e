-- ===== src/Api/Clusters.antt =====
-- orchestration/api/clusters.go: the handlers of the clusters.
use csfleet.Prelude.{ℕ, Bool, ◌==◌, List, Option, none, some, String, if◌then◌else◌}
use text.Mathlib.Text.{◌==◌ as str_eq}
use csfleet.Database.Rows.{Hours, ClusterRow, ok, err}
use csfleet.Database.Sets.{Scope, cluster, Collation}
use csfleet.Database.Env.{EnvVarRow, rows_in}
use csfleet.Database.Tables.{get_cluster}
use csfleet.Database.Scopes.{cluster_plugins, cluster_configs}
use csfleet.Database.Crud.{
  create_cluster as create_cluster_tx, update_cluster as update_cluster_row,
  delete_cluster as delete_cluster_tx,
}
use csfleet.Api.Http.{
  Status, status_ok, status_created, status_no_content, status_bad_request, status_conflict,
  fixed_text, error_text, Response, write_json, write_err, write_header, db_err, invalid_body,
  query, World, nudge, notify, reply, reply_500, exec_one,
}
use csfleet.Api.Requests.{
  ClusterResponse, to_cluster_response, to_cluster_responses, CreateClusterRequest, to_cluster_row,
  UpdateClusterRequest, apply_to_cluster, SetResponse, to_set_response,
}

-- `reads n` says that query or statement `n` of the handler fails by itself, and `fault` is that of its
-- transaction.
module _ {h : Hours} (c : Collation) (reads fault : ℕ → Bool) where
  -- In the order of the table here.
  unfoldable pub list_clusters : World h → Response (List (ClusterResponse h))
  list_clusters w =
      reply_500 (query (reads 0) (ok w.store.clusters))
        (λ rows. write_json status_ok (to_cluster_responses h rows))

  unfoldable pub get_cluster_handler : String → World h → Response (ClusterResponse h)
  get_cluster_handler n w =
      reply (query (reads 0) (get_cluster c w.store n))
        (λ row. write_json status_ok (to_cluster_response h row))

  unfoldable pub cluster_read_back : Bool → Status → String → World h → Response (ClusterResponse h)
  cluster_read_back fails code n w =
      reply (query fails (get_cluster c w.store n))
        (λ row. write_json code (to_cluster_response h row))

  unfoldable pub create_cluster :
      Option (CreateClusterRequest h) → World h → World h × Response (ClusterResponse h)
  create_cluster none w = (w, invalid_body)
  create_cluster (some req) w =
      let written =
        create_cluster_tx c fault (to_cluster_row h req) req.plugins req.configs req.env w.store in
      let after = notify (record w { store = written.1 }) in
      if str_eq req.name ""
      then (w, write_err status_bad_request (fixed_text "name is required"))
      else if req.port == 0
      then (w, write_err status_bad_request (fixed_text "port is required"))
      else if written.0
      then (after, cluster_read_back (reads 0) status_created req.name after)
      else (record w { store = written.1 }, write_err status_bad_request error_text)

  -- The row that is there, with the update.
  unfoldable pub update_cluster_as :
      String
      → ClusterRow h
      → UpdateClusterRequest h
      → World h
      → World h × Response (ClusterResponse h)
  update_cluster_as n existing req w =
      if req.port == 0
      then (w, write_err status_bad_request (fixed_text "port is required"))
      else (elim (exec_one (reads 1) (update_cluster_row c n (apply_to_cluster h req existing))
          w.store) [
            | none ↦ (w, write_err status_conflict error_text)
            | some t ↦
                let after = notify (nudge (record w { store = t })) in
                (after, cluster_read_back (reads 2) status_ok n after)
          ])

  unfoldable pub update_cluster :
      String → Option (UpdateClusterRequest h) → World h → World h × Response (ClusterResponse h)
  update_cluster n body w = elim (query (reads 0) (get_cluster c w.store n)) [
    | err e ↦ (w, db_err e)
    | ok existing ↦ elim body [
      | none ↦ (w, invalid_body)
      | some req ↦ update_cluster_as n existing req w
    ]
  ]

  unfoldable pub delete_cluster : String → World h → World h × Response Unit
  delete_cluster n w =
      let written = delete_cluster_tx c fault n w.store in
      let after = record w { store = written.1 } in
      if written.0
      then (notify after, write_header status_no_content)
      else (after, write_err status_conflict error_text)

  module _ (fails : Scope → Bool × Bool) where
    unfoldable pub get_cluster_plugins : String → World h → Response SetResponse
    get_cluster_plugins n w =
        reply_500 (cluster_plugins c fails n w.store)
          (λ set. write_json status_ok (to_set_response set))

    unfoldable pub get_cluster_configs : String → World h → Response SetResponse
    get_cluster_configs n w =
        reply_500 (cluster_configs c fails n w.store)
          (λ set. write_json status_ok (to_set_response set))

  unfoldable pub get_cluster_env : String → World h → Response (List EnvVarRow)
  get_cluster_env n w =
      reply_500 (query (reads 0) (ok (rows_in c cluster n w.store.env))) (write_json status_ok)
