-- ===== src/Api/Servers.antt =====
-- orchestration/api/servers.go: the handlers of the servers. Each takes the failures of its queries, in
-- the order in which it makes them, and the snapshot that mgr.Status gives it.
pub mod Allocation
pub mod Handlers
pub mod Creation
pub mod Statuses
pub mod Updates
use csfleet.Prelude.{
  ℕ, zero, suc, ◌+◌, ◌-◌, Bool, true, false, ◌&&◌, not, List, [], ◌∷◌, map, Option, none, some,
  String, Map, String_discrete, ite, get_or, if◌then◌else◌, ◌==◌,
}
use Prim.Native.Nat.{◌/◌, ◌%◌}
use Prim.Native.String.{◌++◌ as str_append}
use text.Mathlib.Text.{◌==◌ as str_eq}
use csfleet.Database.Rows.{
  Hours, ServerRow, ClusterRow, DesiredState, running, StoreError, Result, ok, err,
}
use csfleet.Database.Sets.{Scope, Collation, ScopedSet}
use csfleet.Database.Env.{EnvVarRow, effective_env, load_env}
use csfleet.Database.Tables.{Store, get_server, get_cluster, is_none}
use csfleet.Database.Scopes.{server_plugins, server_configs, effective_plugins, effective_configs}
use csfleet.Database.Crud
use csfleet.Api.Http.{
  Status, status_ok, status_created, status_no_content, status_bad_request, status_conflict,
  Message, fixed_text, error_text, Response, write_json, write_err, write_header, db_err,
  internal_error, invalid_body, query, World, nudge,
}
use csfleet.Api.Requests.{
  ServerStatus, ServerResponse, to_server_response, CreateServerRequest, to_server_row,
  UpdateServerRequest, apply_to_server, SetResponse, to_set_response,
}

abbrev digit : ℕ → String
digit n = get_or ("0" ∷ "1" ∷ "2" ∷ "3" ∷ "4" ∷ "5" ∷ "6" ∷ "7" ∷ "8" ∷ "9" ∷ []) n ""

-- The verb %d, of a number of at most so many digits.
unfoldable pub decimal : ℕ → ℕ → String
decimal zero n = ""
decimal (suc k) n =
    let front = decimal k (n / 10) in
    str_append (if n / 10 == 0 then "" else front) (digit (n % 10))

abbrev pub ip_alloc_min : ℕ
ip_alloc_min = 10

abbrev pub ip_alloc_max : ℕ
ip_alloc_max = 254

-- fmt.Sprintf("%s%d", prefix, i)
abbrev pub host_ip : String → ℕ → String
host_ip prefix i = str_append prefix (decimal 3 i)

module _ {h : Hours} where
  unfoldable pub used : String → List (ServerRow h) → Bool
  used ip [] = false
  used ip (r ∷ rows) = if str_eq r.ip ip then true else used ip rows

  -- The loop of allocateIP, for `k` more numbers from `i`.
  unfoldable pub first_free : String → List (ServerRow h) → ℕ → ℕ → Option String
  first_free prefix rows zero i = none
  first_free prefix rows (suc k) i =
      let rest = first_free prefix rows k (i + 1) in
      if used (host_ip prefix i) rows then rest else some (host_ip prefix i)

  -- `none` is an error.
  unfoldable pub allocate_ip : String → Bool → List (ServerRow h) → Option String
  allocate_ip prefix list_fails rows =
      if str_eq prefix ""
      then none
      else if list_fails
      then none
      else first_free prefix rows (ip_alloc_max + 1 - ip_alloc_min) ip_alloc_min

  -- validateReachable, whose error is `false`.
  unfoldable pub validate_reachable : ServerRow h → Bool
  validate_reachable row =
      if is_none row.port then not (is_none row.cluster) else is_none row.cluster

  unfoldable pub cluster_of : ServerRow h → String
  cluster_of row = elim row.cluster [ none ↦ "" | some k ↦ k ]

-- What the handlers read of an entry of mgr.Status.
pub record Live : Type 0 where
  pub name : String
  pub actual_state : String
  pub last_error : String

abbrev pub no_live : Live
no_live = record { name = ""; actual_state = ""; last_error = "" }

-- The map `live` of serverStatuses, a missing key of which reads as the zero value.
unfoldable pub live_map : (String → Live) → List Live → String → Live
live_map live [] = live
live_map live (st ∷ sts) = live_map (λ n. ite (String_discrete st.name n) st (live n)) sts

module _ {h : Hours} where
  unfoldable pub merge_status : ServerRow h → Live → ServerStatus h
  merge_status row live = record {
    row = row;
    actual_state = if str_eq live.actual_state "" then "stopped" else live.actual_state;
    last_error = live.last_error;
  }

  unfoldable pub status_for : List Live → ServerRow h → ServerStatus h
  status_for [] row = merge_status row no_live
  status_for (st ∷ sts) row =
      ite (String_discrete st.name row.name) (merge_status row st) (status_for sts row)

  unfoldable pub server_statuses :
      Bool → List Live → List (ServerRow h) → Option (List (ServerStatus h))
  server_statuses list_fails statuses rows =
      if list_fails
      then none
      else some (map (λ r. merge_status r (live_map (λ n. no_live) statuses r.name)) rows)
