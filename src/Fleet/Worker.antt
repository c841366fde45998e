-- ===== src/Fleet/Worker.antt =====
-- orchestration/fleet/worker.go: the controller of one server. A worker's own goroutine is the only
-- one that changes its fields, so each method is a function on the worker and the history of its
-- calls outward; log lines are left out.
pub mod Soundness
pub mod Ordering
pub mod LeftBehind
pub mod Backing
use Prim.Native.String.{◌++◌ as concat}
use csfleet.Prelude.{
  ℕ, ◌+◌, ◌-◌, Bool, true, false, not, ◌&&◌, List, [], ◌∷◌, Option, none, some, String, ltb, leb,
  ◌==◌, if◌then◌else◌,
}
use csfleet.Database.Rows.{
  Hours, ServerRow, EffectiveServer, DesiredState, Result, ok, err, StoreError, no_rows, db_error,
  unplaced,
}
use csfleet.Fleet.Backoff.{backoff}
use csfleet.Fleet.Services.{
  Instance, ConfigPayload, Definition, Event, signalled, flushed, started, start_failed, added,
  removed, removed_unbinding, stopped, unmanaged, persisted, retry_after, History, Answer, got,
  failed, ◌>>=◌, Services,
}

-- `at_rest` is phaseStopped.
pub data Phase : Type 0 where
  pending starting running stopping at_rest crashed : Phase

module _ (h : Hours) where
  -- `nudged` is the one slot of the nudge channel; `cancelled` says that the context is done.
  pub record Worker : Type 0 where
    pub name : String
    pub nudged : Bool
    pub cancelled : Bool
    -- `none` is the row of a new worker, which holds only the name.
    pub row : Option (ServerRow h)
    pub phase : Phase
    pub inst : Option Instance
    pub ip : String
    pub port : ℕ
    pub standalone : Bool
    pub started_at : ℕ
    pub last_err : String
    pub crash_count : ℕ
    pub crashed_at : ℕ
    pub history : History

  abbrev pub emit : Event → Worker → Worker
  emit e w = record w { history = e ∷ w.history }

  abbrev pub signal : Worker → Worker
  signal = emit signalled

  abbrev pub set_phase : Phase → Worker → Worker
  set_phase p w = record w { phase = p }

  unfoldable pub wake : Worker → Worker
  wake w = record w { nudged = true }

module _ {h : Hours} (s : Services h) where
  open s use {
    resolve_server, load_env, effective_plugins, effective_configs, get_config_file, persist_stop,
    flush_conntrack, add_backend, start, is_alive, now, quote,
  }

  unfoldable pub mark_crashed : String → Worker h → Worker h
  mark_crashed reason w =
      let c = record w {
        phase = crashed;
        last_err = reason;
        crash_count = w.crash_count + 1;
        crashed_at = now w.history;
      } in
      emit h (retry_after (backoff c.crash_count)) (signal h c)

  unfoldable pub fail : String → String → Worker h → Worker h
  unfolding mark_crashed
  fail op e w = mark_crashed (concat op (concat ": " e)) w

  -- The rest of teardownLive, with the instance that it found.
  teardown_instance : Option Instance → Worker h → Worker h
  teardown_instance none w = w
  teardown_instance (some i) w =
      emit h (stopped i) (emit h (flushed w.ip) (emit h (removed w.port w.ip) w))

  unfoldable pub teardown_live : Worker h → Worker h
  unfolding teardown_instance
  teardown_live w = teardown_instance w.inst (record w { inst = none })

  live_phase : Phase → Bool
  live_phase running = true
  live_phase stopping = true
  live_phase _ = false

  unfoldable pub bring_down : Worker h → Worker h
  unfolding live_phase
  bring_down w =
      if live_phase w.phase
      then signal h (set_phase h at_rest (teardown_live (signal h (set_phase h stopping w))))
      else w

  unfoldable pub handle_crash : Worker h → Worker h
  handle_crash w = mark_crashed "container exited" (teardown_live w)

  unfoldable pub container_alive : Worker h → Bool
  container_alive w = elim w.inst [ none ↦ false | some i ↦ is_alive w.history i ]

  unfoldable pub backing_off : Worker h → Bool
  backing_off w = ltb (now w.history - w.crashed_at) (backoff w.crash_count)

  -- rebind
  unfoldable pub rebind : ℕ → Worker h → Worker h
  rebind new_port w =
      let w1 = emit h (removed_unbinding w.port w.ip) w in
      elim (add_backend w1.history new_port w.ip) [
        | some e ↦ fail "rebind add backend" e (emit h (added new_port w.ip false) w1)
        | none ↦ signal h (record (emit h (added new_port w.ip true) w1) { port = new_port })
      ]

  -- checkLifecycle: the stop limit first, then the restart limit.
  unfoldable pub check_lifecycle : EffectiveServer h → Worker h → Worker h
  check_lifecycle eff w =
      let age = now w.history - w.started_at in
      if h.positive eff.stop_hrs && leb (h.duration eff.stop_hrs) age
      then (if persist_stop w.history w.name
          then bring_down (emit h (persisted true) w)
          else emit h (persisted false) w)
      else if h.positive eff.restart_hrs && leb (h.duration eff.restart_hrs) age
      then wake h (bring_down w)
      else w

  -- An error under the operation's name, as fail puts it together.
  named : {A : Type 0} → String → Answer A → Answer A
  named op (got a) = got a
  named op (failed e) = failed (concat op (concat ": " e))

  -- The loop of bringUp over the config names; the first that fails ends it.
  load_configs : History → List String → Answer (List ConfigPayload)
  unfolding named
  load_configs l [] = got []
  load_configs l (n ∷ ns) =
      let rest = load_configs l ns in
      do c ← named (concat "load config " (quote n)) (get_config_file l n); cs ← rest; got (c ∷ cs)

  cluster_name : Option String → String
  cluster_name none = ""
  cluster_name (some c) = c

  -- bringUp from AddBackend on, with the started instance.
  bring_up_added : EffectiveServer h → Instance → Worker h → Worker h
  bring_up_added eff i w = elim (add_backend w.history eff.port eff.row.ip) [
    | some e ↦
        fail "add backend" e (emit h (stopped i) (emit h (added eff.port eff.row.ip false) w))
    | none ↦
        let w' = emit h (added eff.port eff.row.ip true) w in
        signal h (record w' {
          inst = some i;
          ip = eff.row.ip;
          port = eff.port;
          started_at = now w'.history;
          phase = running;
          last_err = "";
          crash_count = 0;
        })
  ]

  -- bringUp from server.Start on.
  bring_up_start :
      EffectiveServer h
      → List (String × String)
      → List String
      → List ConfigPayload
      → Worker h
      → Worker h
  unfolding bring_up_added
  bring_up_start eff env plugins configs w =
      elim (start w.history (record { name = eff.row.name; ip = eff.row.ip; env = env }) plugins
        configs) [
          | failed e ↦ fail "server start" e (emit h start_failed w)
          | got i ↦ bring_up_added eff i (emit h (started i) w)
        ]

  -- bringUp's reads of the store, which change nothing: env, plugins and configs.
  pub load_all :
      EffectiveServer h
      → History
      → Answer (List (String × String) × List String × List ConfigPayload)
  unfolding named cluster_name load_configs
  load_all eff l =
      let name = eff.row.name in
      let cluster = cluster_name eff.row.cluster in
      do
        env ← named "load env" (load_env l name cluster)
        plugins ← named "load plugin list" (effective_plugins l name cluster)
        names ← named "load config list" (effective_configs l name cluster)
        configs ← load_configs l names
        got (env, plugins, configs)

  -- bringUp past the flush.
  bring_up_load : EffectiveServer h → Worker h → Worker h
  unfolding bring_up_start
  bring_up_load eff w = elim (load_all eff w.history) [
    | failed e ↦ mark_crashed e w
    | got (env, plugins, configs) ↦ bring_up_start eff env plugins configs w
  ]

  unfoldable pub bring_up : EffectiveServer h → Worker h → Worker h
  unfolding bring_up_load
  bring_up eff w =
      let w1 = signal h (set_phase h starting w) in
      let w2 = emit h (flushed eff.row.ip) w1 in
      elim (flush_conntrack w1.history eff.row.ip) [
        | some e ↦ fail "flush conntrack" e w2
        | none ↦ bring_up_load eff w2
      ]

  -- reap: bring the server down, give its own port back, and end the worker.
  unfoldable pub reap : Worker h → Worker h
  reap w =
      let d = bring_down w in
      let u = if d.standalone && not (d.port == 0) then emit h (unmanaged d.port) d else d in
      record u { cancelled = true }

  check_port : EffectiveServer h → ℕ → Worker h → Worker h
  check_port eff port w = if port == eff.port then w else rebind eff.port w

  -- reconcile with desired state "running".
  want_running : EffectiveServer h → ℕ → Phase → Worker h → Worker h
  unfolding check_port
  want_running eff port running w = check_lifecycle eff (check_port eff port w)
  want_running eff port crashed w = if backing_off w then w else bring_up eff w
  want_running eff port at_rest w = bring_up eff w
  want_running eff port pending w = bring_up eff w
  want_running eff port starting w = w
  want_running eff port stopping w = w

  -- reconcile with desired state "stopped".
  want_stopped : Phase → Worker h → Worker h
  want_stopped running w = bring_down w
  want_stopped stopping w = bring_down w
  want_stopped pending w = signal h (set_phase h at_rest w)
  want_stopped crashed w = signal h (set_phase h at_rest w)
  want_stopped at_rest w = w
  want_stopped starting w = w

  toward : EffectiveServer h → ℕ → Phase → Worker h → Worker h
  unfolding want_running want_stopped
  toward eff port ph w = elim eff.row.desired_state [
    | DesiredState.running ↦ want_running eff port ph w
    | DesiredState.stopped ↦ want_stopped ph w
  ]

  is_running : Phase → Bool
  is_running running = true
  is_running _ = false

  -- reconcile past the resolution: the crash check, then one transition.
  unfoldable pub reconcile_to : EffectiveServer h → Worker h → Worker h
  unfolding toward is_running
  reconcile_to eff w =
      let w1 = record w { row = some eff.row; standalone = eff.standalone } in
      if is_running w1.phase && not (container_alive w1)
      then toward eff w.port crashed (handle_crash w1)
      else toward eff w.port w.phase w1

  resolved : Result (EffectiveServer h) → Worker h → Worker h
  resolved (ok eff) w = reconcile_to eff w
  resolved (err no_rows) w = reap w
  resolved (err db_error) w = w
  resolved (err unplaced) w = w

  unfoldable pub reconcile : Worker h → Worker h
  unfolding resolved
  reconcile w = resolved (resolve_server w.history w.name) w

  -- The loop of run: each wake, by a nudge (`false`) or by the done context (`true`), which ends it.
  unfoldable pub run_loop : List Bool → Worker h → Worker h
  run_loop [] w = w
  run_loop (true ∷ rest) w = bring_down w
  run_loop (false ∷ rest) w = run_loop rest (reconcile (record w { nudged = false }))

  unfoldable pub run : List Bool → Worker h → Worker h
  run wakes w = run_loop wakes (reconcile w)
