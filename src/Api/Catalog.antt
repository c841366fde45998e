-- ===== src/Api/Catalog.antt =====
-- orchestration/api/catalog.go: the handlers of the manifests, the config files, the global sets and the
-- variables.
use csfleet.Prelude.{ℕ, Bool, List, [], map, Option, none, some, String, if◌then◌else◌}
use text.Mathlib.Text.{◌==◌ as str_eq}
use csfleet.Database.Rows.{Hours, ok}
use csfleet.Database.Sets.{Scope, global, cluster, server, Sets, Entry, Collation}
use csfleet.Database.Env.{EnvVarRow, rows_in}
use csfleet.Database.Tables.{Store}
use csfleet.Database.Catalog.{upsert_entry, get_entry, delete_entry}
use csfleet.Database.Scopes.{
  global_plugins, global_configs, set_global_plugins as write_global_plugins,
  set_global_configs as write_global_configs, set_env_var, delete_env_var,
}
use csfleet.Api.Http.{
  status_ok, status_no_content, status_bad_request, status_conflict, fixed_text, error_text,
  Response, write_json, write_err, write_header, internal_error, invalid_body, query, World, reply,
  reply_500, exec_one,
}
use csfleet.Api.Requests.{
  SetResponse, to_set_response, ConfigFileResponse, to_config_file_response, ManifestResponse,
  to_manifest_response,
}

-- The body of PUT /api/configs/{name}.
pub record PutConfigFileRequest : Type 0 where
  pub filename : String
  pub content : String

-- The body of PUT /api/env; a scope is a text there.
pub record SetEnvRequest : Type 0 where
  pub key : String
  pub value : String
  pub scope : String
  pub scope_name : String

abbrev global_only : {A : Type 0} → Response A
global_only =
    write_err status_bad_request
      (fixed_text "only global env is editable; cluster/server env is set at creation")

-- `scope`, with its default.
unfoldable pub env_scope : String → String
env_scope scope = if str_eq scope "" then "global" else scope

module _ {h : Hours} where
  -- One statement on a table, which may fail by itself or by a constraint.
  abbrev wrote : World h → Response Unit → Option (Store h) → World h × Response Unit
  wrote w failure none = (w, failure)
  wrote w failure (some t) = (record w { store = t }, write_header status_no_content)

  abbrev put_plugins : Store h → Option Sets → Option (Store h)
  put_plugins t none = none
  put_plugins t (some p) = some (record t { plugins = p })

  abbrev put_configs : Store h → Option Sets → Option (Store h)
  put_configs t none = none
  put_configs t (some p) = some (record t { configs = p })

  -- A transaction's flag and tables.
  abbrev committed : World h → Response Unit → Bool × Store h → World h × Response Unit
  committed w failure written = (
    record w { store = written.1 },
    (if written.0 then write_header status_no_content else failure),
  )

-- ListEnvVars compares the scope's text in the database; a text that is no scope has no rows.
unfoldable pub env_rows : Collation → String → String → List EnvVarRow → List EnvVarRow
env_rows c scope n rows =
    if str_eq scope "global"
    then rows_in c global n rows
    else if str_eq scope "cluster"
    then rows_in c cluster n rows
    else if str_eq scope "server"
    then rows_in c server n rows
    else []

-- Lists are in the order of the table here. `fails` says that the one statement fails by itself.
module _ {h : Hours} (c : Collation) (fails : Bool) where
  unfoldable pub list_manifests : World h → Response (List ManifestResponse)
  list_manifests w =
      reply_500 (query fails (ok w.store.plugins.catalog))
        (λ rows. write_json status_ok (map to_manifest_response rows))

  unfoldable pub get_manifest : String → World h → Response ManifestResponse
  get_manifest n w =
      reply (query fails (get_entry c w.store.plugins n))
        (λ row. write_json status_ok (record { name = n; manifest = row.content }))

  -- A manifest has no file name.
  unfoldable pub put_manifest : String → Option String → World h → World h × Response Unit
  put_manifest n none w = (w, invalid_body)
  put_manifest n (some manifest) w =
      let row : Entry = record { name = n; filename = ""; content = manifest } in
      wrote w internal_error
        (put_plugins w.store (exec_one fails (λ t. some (upsert_entry c row t)) w.store.plugins))

  unfoldable pub delete_manifest : String → World h → World h × Response Unit
  delete_manifest n w =
      wrote w (write_err status_conflict error_text)
        (put_plugins w.store (exec_one fails (delete_entry c n) w.store.plugins))

  unfoldable pub list_config_files : World h → Response (List ConfigFileResponse)
  list_config_files w =
      reply_500 (query fails (ok w.store.configs.catalog))
        (λ rows. write_json status_ok (map to_config_file_response rows))

  unfoldable pub get_config_file : String → World h → Response ConfigFileResponse
  get_config_file n w =
      reply (query fails (get_entry c w.store.configs n))
        (λ row. write_json status_ok (to_config_file_response row))

  unfoldable pub put_config_file :
      String → Option PutConfigFileRequest → World h → World h × Response Unit
  put_config_file n none w = (w, invalid_body)
  put_config_file n (some body) w =
      let row : Entry = record { name = n; filename = body.filename; content = body.content } in
      if str_eq body.filename ""
      then (w, write_err status_bad_request (fixed_text "filename is required"))
      else wrote w internal_error
          (put_configs w.store (exec_one fails (λ t. some (upsert_entry c row t)) w.store.configs))

  unfoldable pub delete_config_file : String → World h → World h × Response Unit
  delete_config_file n w =
      wrote w (write_err status_conflict error_text)
        (put_configs w.store (exec_one fails (delete_entry c n) w.store.configs))

  unfoldable pub list_env : String → String → World h → Response (List EnvVarRow)
  list_env scope n w =
      reply_500 (query fails (ok (env_rows c (env_scope scope) n w.store.env)))
        (write_json status_ok)

  unfoldable pub delete_env : String → String → String → World h → World h × Response Unit
  delete_env key scope n w =
      if str_eq key ""
      then (w, write_err status_bad_request (fixed_text "key query param is required"))
      else if str_eq (env_scope scope) "global"
      then wrote w internal_error
          (exec_one fails (λ t. some (delete_env_var c key global n t)) w.store)
      else (w, global_only)

module _ {h : Hours} (c : Collation) (failing : Scope → Bool × Bool) where
  unfoldable pub get_global_plugins : World h → Response SetResponse
  get_global_plugins w =
      reply_500 (global_plugins c failing w.store)
        (λ set. write_json status_ok (to_set_response set))

  unfoldable pub get_global_configs : World h → Response SetResponse
  get_global_configs w =
      reply_500 (global_configs c failing w.store)
        (λ set. write_json status_ok (to_set_response set))

module _ {h : Hours} (c : Collation) (fault : ℕ → Bool) where
  unfoldable pub set_global_plugins : Option (List String) → World h → World h × Response Unit
  set_global_plugins none w = (w, invalid_body)
  set_global_plugins (some items) w =
      committed w (write_err status_bad_request error_text)
        (write_global_plugins c fault items w.store)

  unfoldable pub set_global_configs : Option (List String) → World h → World h × Response Unit
  set_global_configs none w = (w, invalid_body)
  set_global_configs (some items) w =
      committed w (write_err status_bad_request error_text)
        (write_global_configs c fault items w.store)

  unfoldable pub set_env : Option SetEnvRequest → World h → World h × Response Unit
  set_env none w = (w, invalid_body)
  set_env (some req) w =
      if str_eq req.key ""
      then (w, write_err status_bad_request (fixed_text "key is required"))
      else if str_eq (env_scope req.scope) "global"
      then committed w internal_error
          (set_env_var c fault req.key req.value global req.scope_name w.store)
      else (w, global_only)
