-- ===== src/Api/Requests.antt =====
-- orchestration/api/types.go: the bodies of requests and responses, and the rows they become. A nil
-- pointer is `none`; `updated_at` is not modelled, as in the rows.
use csfleet.Prelude.{
  ℕ, Bool, true, List, [], map, Option, none, some, String, Map, empty_map, if◌then◌else◌,
}
use text.Mathlib.Text.{◌==◌ as str_eq}
use csfleet.Database.Rows.{Hours, ServerRow, ClusterRow, DesiredState}
use csfleet.Database.Sets.{ScopedSet, Entry}

module _ (h : Hours) where
  open h use {Value}

  -- fleet.ServerStatus: a row with the worker's live state.
  pub record ServerStatus : Type 0 where
    pub row : ServerRow h
    pub actual_state : String
    pub last_error : String

  pub record ServerResponse : Type 0 where
    pub name : String
    pub ip : String
    pub port : Option ℕ
    pub cluster : Option String
    pub accepting_conns : Option Bool
    pub restart_after_hrs : Option Value
    pub stop_after_hrs : Option Value
    pub desired_state : DesiredState
    pub actual_state : String
    pub last_error : String
    pub plugins : List String
    pub configs : List String
    pub env : Map String String

  unfoldable pub to_server_response : ServerStatus → ServerResponse
  to_server_response st = record {
    name = st.row.name;
    ip = st.row.ip;
    port = st.row.port;
    cluster = st.row.cluster;
    accepting_conns = st.row.accepting_conns;
    restart_after_hrs = st.row.restart_after_hrs;
    stop_after_hrs = st.row.stop_after_hrs;
    desired_state = st.row.desired_state;
    actual_state = st.actual_state;
    last_error = st.last_error;
    plugins = [];
    configs = [];
    env = empty_map;
  }

  -- `env` is in the order of Go's range over the map.
  pub record CreateServerRequest : Type 0 where
    pub name : String
    pub port : Option ℕ
    pub cluster : Option String
    pub accepting_conns : Option Bool
    pub restart_after_hrs : Option Value
    pub stop_after_hrs : Option Value
    pub desired_state : String
    pub plugins : Option (List String)
    pub configs : Option (List String)
    pub env : List (String × String)

  -- createServerRequest.toRow. The rows have the state that the column holds, so it is given next to
  -- the request's text.
  unfoldable pub to_server_row : CreateServerRequest → DesiredState → ServerRow h
  to_server_row req state = record {
    name = req.name;
    ip = "";
    port = req.port;
    cluster = req.cluster;
    accepting_conns = req.accepting_conns;
    restart_after_hrs = req.restart_after_hrs;
    stop_after_hrs = req.stop_after_hrs;
    desired_state = state;
  }

  pub record UpdateServerRequest : Type 0 where
    pub port : Option ℕ
    pub accepting_conns : Option Bool
    pub restart_after_hrs : Option Value
    pub stop_after_hrs : Option Value
    pub desired_state : String

  -- updateServerRequest.applyTo, on the row with the state that the update asks for; `none` is its
  -- error.
  unfoldable pub apply_to_server :
      UpdateServerRequest → DesiredState → ServerRow h → Option (ServerRow h)
  apply_to_server req state row =
      let fields = record row {
        accepting_conns = req.accepting_conns;
        restart_after_hrs = req.restart_after_hrs;
        stop_after_hrs = req.stop_after_hrs;
        desired_state = if str_eq req.desired_state "" then row.desired_state else state;
      } in
      elim req.port [
        | none ↦ some fields
        | some p ↦ elim row.cluster [
          | some k ↦ none
          | none ↦ some (record fields { port = some p })
        ]
      ]

  pub record ClusterResponse : Type 0 where
    pub name : String
    pub port : ℕ
    pub accepting_conns : Bool
    pub restart_after_hrs : Option Value
    pub stop_after_hrs : Option Value
    pub lb_policy : String

  unfoldable pub to_cluster_response : ClusterRow h → ClusterResponse
  to_cluster_response r = record {
    name = r.name;
    port = r.port;
    accepting_conns = r.accepting_conns;
    restart_after_hrs = r.restart_after_hrs;
    stop_after_hrs = r.stop_after_hrs;
    lb_policy = r.lb_policy;
  }

  abbrev pub to_cluster_responses : List (ClusterRow h) → List ClusterResponse
  to_cluster_responses = map to_cluster_response

  pub record CreateClusterRequest : Type 0 where
    pub name : String
    pub port : ℕ
    pub accepting_conns : Option Bool
    pub restart_after_hrs : Option Value
    pub stop_after_hrs : Option Value
    pub lb_policy : String
    pub plugins : Option (List String)
    pub configs : Option (List String)
    pub env : List (String × String)

  abbrev lb_round_robin : String
  lb_round_robin = "round_robin"

  abbrev or_bool : Option Bool → Bool → Bool
  or_bool (some b) default = b
  or_bool none default = default

  -- createClusterRequest.toRow
  unfoldable pub to_cluster_row : CreateClusterRequest → ClusterRow h
  to_cluster_row req = record {
    name = req.name;
    port = req.port;
    accepting_conns = or_bool req.accepting_conns true;
    restart_after_hrs = req.restart_after_hrs;
    stop_after_hrs = req.stop_after_hrs;
    lb_policy = if str_eq req.lb_policy "" then lb_round_robin else req.lb_policy;
  }

  pub record UpdateClusterRequest : Type 0 where
    pub port : ℕ
    pub accepting_conns : Option Bool
    pub restart_after_hrs : Option Value
    pub stop_after_hrs : Option Value
    pub lb_policy : String

  -- updateClusterRequest.applyTo
  unfoldable pub apply_to_cluster : UpdateClusterRequest → ClusterRow h → ClusterRow h
  apply_to_cluster req row = record row {
    port = req.port;
    accepting_conns = or_bool req.accepting_conns row.accepting_conns;
    restart_after_hrs = req.restart_after_hrs;
    stop_after_hrs = req.stop_after_hrs;
    lb_policy = if str_eq req.lb_policy "" then row.lb_policy else req.lb_policy;
  }

-- pluginSetResponse and configSetResponse.
pub record SetResponse : Type 0 where
  pub overridden : Bool
  pub items : List String

-- toPluginSetResponse and toConfigSetResponse.
unfoldable pub to_set_response : ScopedSet → SetResponse
to_set_response s = record { overridden = s.overridden; items = s.items }

pub record ConfigFileResponse : Type 0 where
  pub name : String
  pub filename : String
  pub content : String

unfoldable pub to_config_file_response : Entry → ConfigFileResponse
to_config_file_response r = record { name = r.name; filename = r.filename; content = r.content }

pub record ManifestResponse : Type 0 where
  pub name : String
  pub manifest : String

unfoldable pub to_manifest_response : Entry → ManifestResponse
to_manifest_response r = record { name = r.name; manifest = r.content }
