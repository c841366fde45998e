-- ===== src/Database/Resolve.antt =====
-- orchestration/database/resolve.go: ResolveServer, resolveBool and resolveHrs. The two row queries
-- are arguments.
use csfleet.Prelude.{ℕ, ◌%◌, ◌^◌, Bool, true, false, Option, none, some, String, if◌then◌else◌}
use csfleet.Database.Rows.{
  Hours, ServerRow, ClusterRow, EffectiveServer, Result, ok, err, unplaced, ◌>>=◌,
}

unfoldable pub resolve_bool : Option Bool → Bool → Bool → Bool → Bool
resolve_bool (some own) clustered cluster def = own
resolve_bool none clustered cluster def = if clustered then cluster else def

module _ (h : Hours) where
  open h use {Value, no_limit}

  unfoldable pub resolve_hrs : Option Value → Option Value → Value
  resolve_hrs (some own) cluster = own
  resolve_hrs none (some v) = v
  resolve_hrs none none = no_limit

  -- uint16 keeps the low 16 bits of the port.
  structural : ServerRow h → Option (ClusterRow h) → Result (ℕ × Bool × String)
  structural row cl = elim row.port [
    | some p ↦ ok (p % 2 ^ 16, true, "")
    | none ↦ elim cl [ some c ↦ ok (c.port % 2 ^ 16, false, c.lb_policy) | none ↦ err unplaced ]
  ]

  -- What the zero ClusterRow gives a standalone server.
  abbrev cluster_restart : Option (ClusterRow h) → Option Value
  cluster_restart none = none
  cluster_restart (some c) = c.restart_after_hrs

  abbrev cluster_stop : Option (ClusterRow h) → Option Value
  cluster_stop none = none
  cluster_stop (some c) = c.stop_after_hrs

  abbrev cluster_accepting : Option (ClusterRow h) → Bool
  cluster_accepting none = false
  cluster_accepting (some c) = c.accepting_conns

  abbrev is_some : {A : Type 0} → Option A → Bool
  is_some none = false
  is_some (some a) = true

  effective : ServerRow h → Option (ClusterRow h) → ℕ × Bool × String → EffectiveServer h
  effective row cl (port, standalone, lb) = record {
    row = row;
    port = port;
    standalone = standalone;
    accepting = resolve_bool row.accepting_conns (is_some cl) (cluster_accepting cl) true;
    restart_hrs = resolve_hrs row.restart_after_hrs (cluster_restart cl);
    stop_hrs = resolve_hrs row.stop_after_hrs (cluster_stop cl);
    lb_policy = lb;
  }

  module _ (get_server : String → Result (ServerRow h))
      (get_cluster : String → Result (ClusterRow h)) where
    cluster_of : ServerRow h → Result (Option (ClusterRow h))
    cluster_of row = elim row.cluster [
      | none ↦ ok none
      | some c ↦ (do cl ← get_cluster c; ok (some cl))
    ]

    unfoldable pub resolve_server : String → Result (EffectiveServer h)
    unfolding cluster_of structural effective
    resolve_server name = do
      row ← get_server name
      cl ← cluster_of row
      placed ← structural row cl
      ok (effective row cl placed)
