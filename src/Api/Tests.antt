-- ===== src/Api/Tests.antt =====
-- The theorems on the API at one server of a cluster.
use csfleet.Database.Crud.{delete_cluster as delete_cluster_tx}
use csfleet.Api.Clusters.{delete_cluster, list_clusters}
use csfleet.Prelude.{
  String_discrete, ℕ, ◌≡◌, ◌≢◌, ◌⊎◌, refl, true, false, none, some, List, [], ◌∷◌, map, String,
  Option, if◌then◌else◌,
}
use text.Mathlib.Text.{◌==◌ as str_eq}
use csfleet.Database.Rows.{DesiredState, running, ok, err, no_rows}
use csfleet.Database.Sets.{exec_all, transact, server}
use csfleet.Database.Env.{rows_in}
use csfleet.Database.Tables.{
  has_member, delete_cluster_row, get_server, get_cluster, placed, clashes, select,
}
use csfleet.Database.Resolve.{resolve_server}
use csfleet.Database.Crud.Links.{IsLinked, all_linked}
use csfleet.Database.Tests.{whole_hours, binary, no_fault, both, dust}
use csfleet.Api.Http.{
  write_json, write_err, status_ok, status_unauthorized, fixed_text, gate, gate-require_auth, World,
}
use csfleet.Api.Requests.{
  CreateServerRequest, UpdateServerRequest, to_server_row, to_cluster_responses,
}
use csfleet.Api.Servers.{
  live_map, merge_status, Live, allocate_ip, server_statuses, status_for, used, first_free, decimal,
}
use csfleet.Api.Servers.Allocation.{IsLowest, allocate_ip-IsLowest}
use csfleet.Api.Servers.Handlers.{
  Failing, create_server, update_server, server_responses, list_servers,
}
use csfleet.Api.Servers.Creation.{Answers, create_server-Answers, IsShown, create_server-IsShown}
use csfleet.Api.Servers.Statuses.{server_statuses-status_for}
use csfleet.Api.Servers.Updates.{Changes, update_server-Changes}
use csfleet.Api.Events.{
  Hub, new_hub, add, client, rounds, rounds-first, SnapshotPayload, fleet_snapshot,
  fleet_snapshot-list_servers,
}
use csfleet.Api.Reachable.{
  WriteRequest, delete_cluster_request, Weather, serve_all, serve_all-resolve_server,
}
use csfleet.Api.Variables.{EnvRequest, env_set, env_deleted, env_run, env_run-own}

-- A token is the user's name.
gate-require_auth_example :
    (gate some (λ u. write_json status_ok u) (record { path = "/api/users"; cookie = some "ann" })
      ≡ write_err status_unauthorized (fixed_text "not authenticated"))
    ⊎ ((token username : String) × (some "ann" ≡ some token)
        × (some token ≡ some username)
        × (gate some
              (λ u. write_json status_ok u)
              (record { path = "/api/users"; cookie = some "ann" })
            ≡ write_json status_ok username))
gate-require_auth_example =
    gate-require_auth some (λ u. write_json status_ok u)
      (record { path = "/api/users"; cookie = some "ann" }) refl refl

allocate_ip-IsLowest_example :
    IsLowest "10.0.0." both.servers 10 255 (allocate_ip "10.0.0." false both.servers)
allocate_ip-IsLowest_example = allocate_ip-IsLowest "10.0.0." both.servers refl

abbrev all_well : Failing
all_well = record {
  port = false;
  plugins = λ sc. (false, false);
  configs = λ sc. (false, false);
  env = false;
}

abbrev column : String → Option DesiredState
column s =
    if str_eq s "running"
    then some running
    else if str_eq s "stopped"
    then some DesiredState.stopped
    else none

abbrev one_live : List Live
one_live = record { name = "dust"; actual_state = "running"; last_error = "" } ∷ []

abbrev world : World whole_hours
world = record { store = both; nudged = false; poked = false }

abbrev new_server : CreateServerRequest whole_hours
new_server = record {
  name = "nuke";
  port = none;
  cluster = some "eu";
  accepting_conns = none;
  restart_after_hrs = none;
  stop_after_hrs = none;
  desired_state = "";
  plugins = none;
  configs = none;
  env = [];
}

both-IsLinked : IsLinked binary both
unfolding all_linked select String_discrete
both-IsLinked = refl

create_server-Answers_example :
    Answers binary "10.0.0." column all_well no_fault no_fault one_live new_server world (
      create_server binary "10.0.0." column all_well no_fault no_fault one_live
        (some new_server)
        world)
create_server-Answers_example =
    create_server-Answers binary "10.0.0." column all_well no_fault no_fault one_live new_server
      world both-IsLinked

first_address : allocate_ip "10.0.0." false both.servers ≡ some "10.0.0.10"
unfolding allocate_ip first_free used decimal
first_address = refl

eu_placed : placed binary both.clusters none (some "eu") ≡ true
unfolding placed select String_discrete
eu_placed = refl

nuke_is_new :
    clashes binary
      (record (to_server_row whole_hours new_server running) { ip = "10.0.0.10" })
      both.servers
    ≡ false
unfolding clashes String_discrete to_server_row
nuke_is_new = refl

create_server-IsShown_run :
    IsShown binary "10.0.0." column all_well one_live
      (record (to_server_row whole_hours new_server running) { ip = "10.0.0.10" })
      (create_server binary "10.0.0." column all_well
        (λ n. false)
        (λ n. false)
        one_live
        (some new_server)
        world).1
create_server-IsShown_run =
    create_server-IsShown binary "10.0.0." column all_well one_live new_server world "10.0.0.10"
      running refl refl first_address eu_placed nuke_is_new refl refl refl

server_statuses-status_for_run :
    server_statuses false one_live both.servers ≡ some (map (status_for one_live) both.servers)
server_statuses-status_for_run = server_statuses-status_for one_live both.servers (tt, tt)

abbrev stop_it : UpdateServerRequest whole_hours
stop_it = record {
  port = none;
  accepting_conns = some false;
  restart_after_hrs = none;
  stop_after_hrs = none;
  desired_state = "stopped";
}

update_server-Changes_example :
    Changes binary "10.0.0." column all_well no_fault no_fault one_live "dust" world
      (update_server binary "10.0.0." column all_well no_fault no_fault one_live "dust"
        (some stop_it)
        world).0
      (update_server binary "10.0.0." column all_well no_fault no_fault one_live "dust"
        (some stop_it)
        world).1
update_server-Changes_example =
    update_server-Changes binary "10.0.0." column all_well no_fault no_fault one_live "dust"
      (some stop_it) world both-IsLinked

abbrev fair : Weather
fair = record { failing = all_well; reads = no_fault; fault = no_fault; statuses = one_live }

-- The cluster stays, because "dust" belongs to it.
abbrev asked : List (Weather × WriteRequest whole_hours)
asked = (fair, delete_cluster_request "eu") ∷ []

dust_stays :
    get_server binary (serve_all binary "10.0.0." column asked world).store "dust" ≡ ok dust
unfolding get_server select delete_cluster delete_cluster_tx transact exec_all delete_cluster_row
    has_member String_discrete
dust_stays = refl

serve_all-resolve_server_example :
    resolve_server whole_hours
      (get_server binary (serve_all binary "10.0.0." column asked world).store)
      (get_cluster binary (serve_all binary "10.0.0." column asked world).store)
      "dust"
    ≢ err no_rows
serve_all-resolve_server_example =
    serve_all-resolve_server binary "10.0.0." column asked world "dust" dust no_rows both-IsLinked
      dust_stays

abbrev env_requests : List EnvRequest
env_requests =
    env_set no_fault (some (record { key = "gslt"; value = "z"; scope = ""; scope_name = "dust" }))
    ∷ env_deleted false "gslt" "server" "dust"
    ∷ []

env_run-own_run :
    rows_in binary server "dust" (env_run binary env_requests world).store.env
    ≡ rows_in binary server "dust" world.store.env
env_run-own_run = env_run-own binary server "dust" tt env_requests world

-- One client, which has read nothing since it joined.
abbrev one_client : Hub ℕ ℕ
one_client = (add new_hub).0

rounds-first_example :
    client 0 (rounds (some 5 ∷ none ∷ some 6 ∷ []) one_client).clients
    ≡ some (record { id = 0; state = some 5; host = none })
unfolding add new_hub client
rounds-first_example =
    rounds-first 5 (none ∷ some 6 ∷ []) 0 (record { id = 0; state = none; host = none }) one_client
      refl refl

abbrev now_shown : SnapshotPayload whole_hours
now_shown = record {
  servers = server_responses binary all_well both (map (status_for one_live) both.servers);
  clusters = to_cluster_responses whole_hours both.clusters;
}

it_is_shown : fleet_snapshot binary all_well one_live (λ n. false) world ≡ some now_shown
unfolding fleet_snapshot server_statuses status_for merge_status String_discrete live_map
it_is_shown = refl

fleet_snapshot-list_servers_run :
    (list_servers binary "10.0.0." column all_well (λ n. false) no_fault one_live world
      ≡ write_json status_ok now_shown.servers)
    × (list_clusters binary (λ n. false) no_fault world ≡ write_json status_ok now_shown.clusters)
fleet_snapshot-list_servers_run =
    fleet_snapshot-list_servers binary all_well one_live "10.0.0." column no_fault world now_shown
      it_is_shown
