-- ===== src/Fleet/Tests.antt =====
-- The worker's theorems at services that all work, or of which one fails.
use Prim.Native.Nat.{min}
use csfleet.Prelude.{
  String_discrete, ℕ_discrete, ℕ, ◌+◌, ◌*◌, ◌≤◌, ◌≡◌, ◌≢◌, ◌⊎◌, refl, true, false, Option, none,
  some, List, [], ◌∷◌, arith, String, Has,
}
use csfleet.Database.Rows.{EffectiveServer, DesiredState, ok}
use csfleet.Database.Tests.{whole_hours}
use csfleet.Fleet.Backoff.{backoff, backoff_base, backoff_max, backoff_doubles, backoff_bounds}
use csfleet.Fleet.Services.{
  Instance, History, signalled, flushed, removed, stopped, unmanaged, persisted, got, Services,
}
use csfleet.Fleet.Manager.{
  worker_exited, container_died, Manager, Handle, Step, dispatched, died, exited, new_manager,
  dispatch, steps, spawn, spawn_missing, step, one_worker_per_name, dispatch_covers,
}
use csfleet.Fleet.Worker.{
  Worker, pending, running, at_rest, bring_down, rebind, check_lifecycle, bring_up, reap, reconcile,
  run, run_loop, emit,
}
use csfleet.Fleet.Routing.{IsRouted, run-IsRouted}
use csfleet.Proxy.Addr.{Addr, v6}
use csfleet.Fleet.Worker.Soundness.{IsSound, reconcile-IsSound, run-IsSound, reap_ends}
use csfleet.Fleet.Worker.LeftBehind.{IsLeft, rebind_leak}
use csfleet.Fleet.Worker.Ordering.{BroughtUp, bring_up-BroughtUp, bring_down_order, stop_limit}

abbrev spec : EffectiveServer whole_hours
spec = record {
  row = record {
    name = "dust";
    ip = "10.0.0.2";
    port = some 27015;
    cluster = none;
    accepting_conns = none;
    restart_after_hrs = none;
    stop_after_hrs = some 4;
    desired_state = DesiredState.running;
  };
  port = 27015;
  standalone = true;
  accepting = true;
  restart_hrs = 0;
  stop_hrs = 4;
  lb_policy = "";
}

-- Every call succeeds, but AddBackend as `adds` says, and the clock stands at `clock`.
abbrev services : Option String → ℕ → Services whole_hours
services adds clock = record {
  resolve_server = λ l n. ok spec;
  load_env = λ l n k. got [];
  effective_plugins = λ l n k. got [];
  effective_configs = λ l n k. got ("match" ∷ []);
  get_config_file = λ l n. got (record { name = n; filename = "match.cfg"; content = "" });
  persist_stop = λ l n. true;
  flush_conntrack = λ l ip. none;
  add_backend = λ l port ip. adds;
  start = λ l d ps cs. got (record { container = 7 });
  is_alive = λ l i. true;
  now = λ l. clock;
  quote = λ n. n;
}

abbrev healthy : Services whole_hours
healthy = services none 1000

abbrev fresh : Worker whole_hours
fresh = record {
  name = "dust";
  nudged = false;
  cancelled = false;
  row = none;
  phase = pending;
  inst = none;
  ip = "";
  port = 0;
  standalone = false;
  started_at = 0;
  last_err = "";
  crash_count = 0;
  crashed_at = 0;
  history = [];
}

abbrev box : Instance
box = record { container = 7 }

abbrev up : Worker whole_hours
up = record fresh {
  phase = running;
  inst = some box;
  ip = "10.0.0.2";
  port = 27015;
  standalone = true;
}

delay_doubles :
    (backoff 1 ≡ backoff_base) × (backoff (5 + 1 + 1) ≡ min (2 * backoff (5 + 1)) backoff_max)
delay_doubles = backoff_doubles 5

backoff_at_40 : (backoff_base ≤ backoff 40) × (backoff 40 ≤ backoff_max)
backoff_at_40 = backoff_bounds 40

reconciled_once : IsSound (reconcile healthy up)
reconciled_once = reconcile-IsSound healthy up (λ l old new ip. refl) tt

run-IsSound_example : IsSound (run healthy (false ∷ false ∷ true ∷ []) fresh)
run-IsSound_example =
    run-IsSound healthy (false ∷ false ∷ true ∷ []) fresh (λ l old new ip. refl) refl refl

reaped :
    ((reap healthy up).cancelled ≡ true)
    × ((reap healthy up).inst ≡ none)
    × ((reap healthy up).phase ≢ running)
    × (up.standalone ≡ true
        → up.port ≢ 0
        → (reap healthy up).history ≡ unmanaged 27015 ∷ (bring_down healthy up).history)
reaped = reap_ends healthy up tt

bring_up-BroughtUp_example : BroughtUp spec [] (bring_up (services (some "busy") 1000) spec fresh)
bring_up-BroughtUp_example = bring_up-BroughtUp (services (some "busy") 1000) spec fresh

bring_down_order_run :
    ((bring_down healthy up).phase ≡ at_rest)
    × ((bring_down healthy up).inst ≡ none)
    × ((bring_down healthy up).history
        ≡ signalled ∷ stopped box ∷ flushed "10.0.0.2" ∷ removed 27015 "10.0.0.2" ∷ signalled ∷ [])
    × (bring_down healthy (bring_down healthy up) ≡ bring_down healthy up)
bring_down_order_run = bring_down_order healthy up box refl refl

abbrev late : Services whole_hours
late = services none 14400000000001

stopped_at_limit :
    (true ≡ true
      × (check_lifecycle late spec up).phase ≡ at_rest
      × (check_lifecycle late spec up).inst ≡ none
      × (check_lifecycle late spec up).history
        ≡ signalled
          ∷ stopped box
          ∷ flushed "10.0.0.2"
          ∷ removed 27015 "10.0.0.2"
          ∷ signalled
          ∷ persisted true
          ∷ [])
    ⊎ (true ≡ false × check_lifecycle late spec up ≡ emit whole_hours (persisted false) up)
stopped_at_limit = stop_limit late spec up box refl refl refl (omega arith)

abbrev stop_wanted : EffectiveServer whole_hours
stop_wanted = record spec { row = record (spec.row) { desired_state = DesiredState.stopped } }

-- Every AddBackend fails, and the row is set to stopped.
abbrev unlucky : Services whole_hours
unlucky = record (services (some "busy") 1000) { resolve_server = λ l n. ok stop_wanted }

unwanted :
    (m : History) (n : String) (eff : EffectiveServer whole_hours)
    → ok stop_wanted ≡ ok eff
    → eff.row.desired_state ≡ DesiredState.stopped
unwanted m n eff e = ground arith

rebind_leak_example :
    IsLeft box [] (run_loop unlucky (false ∷ false ∷ true ∷ []) (rebind unlucky 27020 up))
rebind_leak_example =
    rebind_leak unlucky 27020 up box "busy" (false ∷ false ∷ true ∷ []) refl refl unwanted

abbrev two_rounds : List Step
two_rounds =
    dispatched (some ("dust" ∷ [])) ∷ exited 0 ∷ dispatched (some ("dust" ∷ [])) ∷ died "dust" ∷ []

dust_respawned : (steps two_rounds new_manager).alive 1 ≡ some "dust"
unfolding steps step container_died dispatch spawn_missing worker_exited spawn ℕ_discrete
    String_discrete
dust_respawned = refl

abbrev second : ℕ
second = 1

one_worker_per_name_example : second ≡ second
one_worker_per_name_example =
    one_worker_per_name two_rounds second second "dust" dust_respawned dust_respawned

abbrev after_rounds : Manager
after_rounds = steps two_rounds new_manager

abbrev mirage : String
mirage = "mirage"

every_row_is_covered :
    (Has mirage (mirage ∷ []) → (dispatch (some (mirage ∷ [])) after_rounds).workers mirage ≢ none)
    × ((w : Handle)
        → after_rounds.workers mirage ≡ some w
        → (dispatch none after_rounds).workers mirage ≡ some (record w { nudged = true }))
every_row_is_covered = dispatch_covers (mirage ∷ []) none after_rounds mirage

-- Each text is an address of its own.
abbrev text_addr : String → Addr
text_addr j = v6 0 j

text_addr_injective : (j k : String) → text_addr j ≡ text_addr k → j ≡ k
text_addr_injective j k e = ground arith

run-IsRouted_example :
    IsRouted text_addr 27015 "10.0.0.2"
      (λ j. text_addr_injective j "10.0.0.2")
      healthy
      (run healthy (false ∷ false ∷ []) fresh)
run-IsRouted_example =
    run-IsRouted text_addr 27015 "10.0.0.2" (λ j. text_addr_injective j "10.0.0.2") healthy
      (false ∷ false ∷ []) fresh refl refl
