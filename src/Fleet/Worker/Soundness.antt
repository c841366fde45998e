-- ===== src/Fleet/Worker/Soundness.antt =====
-- A worker holds a container exactly while it is running, and no reconcile leaves it half way.
use csfleet.Prelude.{
  ℕ, ◌≡◌, ◌≢◌, inl, inr, refl, Bool, true, false, not, ◌&&◌, List, [], ◌∷◌, Option, none, some,
  String, arith, Bool-cases, ◌==◌,
}
use csfleet.Database.Rows.{Hours, EffectiveServer, Result, ok, err, no_rows, db_error, unplaced}
use csfleet.Fleet.Services.{
  Instance, History, removed_unbinding, flushed, persisted, unmanaged, Services, Answer-cases,
  ConfigPayload,
}
use csfleet.Fleet.Worker.{
  Worker, Phase, pending, starting, running, stopping, at_rest, crashed, mark_crashed, fail,
  teardown_live, bring_down, handle_crash, container_alive, rebind, check_lifecycle, bring_up_start,
  load_all, bring_up_load, bring_up_added, bring_up, reap, toward, resolved, reconcile_to,
  reconcile, run_loop, run, wake, emit, signal, set_phase, want_running, want_stopped, is_running,
}

abbrev SoundAt : Phase → Option Instance → Type 0
SoundAt running (some i) = Unit
SoundAt running none = ⊥
SoundAt starting i = ⊥
SoundAt stopping i = ⊥
SoundAt _ none = Unit
SoundAt _ (some i) = ⊥

-- An instance exactly in phase running, and no transient phase.
abbrev pub IsSound : {h : Hours} → Worker h → Type 0
IsSound w = SoundAt w.phase w.inst

module _ {h : Hours} (s : Services h) where
  open s use {add_backend}

  mark_crashed-IsSound : (e : String) (w : Worker h) → w.inst ≡ none → IsSound (mark_crashed s e w)
  unfolding mark_crashed
  mark_crashed-IsSound e w n = rw n tt

  fail-IsSound : (op e : String) (w : Worker h) → w.inst ≡ none → IsSound (fail s op e w)
  unfolding fail
  fail-IsSound op e w n = rw n tt

  bring_down-IsSound : (w : Worker h) → IsSound w → IsSound (bring_down s w)
  unfolding bring_down teardown_live
  bring_down-IsSound w v = ground arith

  bring_up_added-IsSound :
      (eff : EffectiveServer h) (i : Instance) (w : Worker h)
      → w.inst ≡ none
      → IsSound (bring_up_added s eff i w)
  unfolding bring_up_added fail
  bring_up_added-IsSound eff i w n = ground arith

  bring_up_start-IsSound :
      (eff : EffectiveServer h) (env : List (String × String)) (ps : List String)
      (cs : List ConfigPayload) (w : Worker h)
      → w.inst ≡ none
      → IsSound (bring_up_start s eff env ps cs w)
  unfolding bring_up_start fail
  bring_up_start-IsSound eff env ps cs w n = ground arith

  bring_up_load-IsSound :
      (eff : EffectiveServer h) (w : Worker h) → w.inst ≡ none → IsSound (bring_up_load s eff w)
  unfolding bring_up_load mark_crashed
  bring_up_load-IsSound eff w n = elim (Answer-cases (load_all s eff w.history)) [
    | inl ((env, ps, cs), k) ↦ rw (k, bring_up_load) (bring_up_start-IsSound eff env ps cs w n)
    | inr (m, k) ↦ rw (k, bring_up_load) (mark_crashed-IsSound m w n)
  ]

  bring_up-IsSound :
      (eff : EffectiveServer h) (w : Worker h) → w.inst ≡ none → IsSound (bring_up s eff w)
  unfolding bring_up fail
  bring_up-IsSound eff w n = ground (
    arith,
    bring_up_load-IsSound eff (emit h (flushed eff.row.ip) (signal h (set_phase h starting w))) n,
  )

  reap-IsSound : (w : Worker h) → IsSound w → IsSound (reap s w)
  unfolding reap
  reap-IsSound w v = ground (arith, bring_down-IsSound w v)

  check_lifecycle-IsSound :
      (eff : EffectiveServer h) (w : Worker h) → IsSound w → IsSound (check_lifecycle s eff w)
  unfolding check_lifecycle wake
  check_lifecycle-IsSound eff w v =
      ground (arith, bring_down-IsSound w v, bring_down-IsSound (emit h (persisted true) w) v)

  -- A rebind adds the backend right after removing it.
  abbrev pub RebindsSucceed : Type 0
  RebindsSucceed =
      (l : History) (old new : ℕ) (ip : String)
      → add_backend (removed_unbinding old ip ∷ l) new ip ≡ none

  rebind-IsSound :
      (port : ℕ) (w : Worker h) → RebindsSucceed → IsSound w → IsSound (rebind s port w)
  unfolding rebind
  rebind-IsSound port w fine v = ground (arith, fine w.history w.port port w.ip)

  handle_crash-IsSound : (w : Worker h) → IsSound (handle_crash s w)
  unfolding handle_crash teardown_live mark_crashed
  handle_crash-IsSound w = ground arith

  idle-inst : (w : Worker h) → w.phase ≢ running → IsSound w → w.inst ≡ none
  idle-inst w n v = ground arith

  want_running-IsSound :
      (eff : EffectiveServer h) (port : ℕ) (ph : Phase) (w : Worker h)
      → RebindsSucceed
      → w.phase ≡ ph
      → IsSound w
      → IsSound (want_running s eff port ph w)
  unfolding want_running
  want_running-IsSound eff port running w fine e v = elim (Bool-cases (port == eff.port)) [
    | inl k ↦ rw k (check_lifecycle-IsSound eff w v)
    | inr k ↦
        rw k (check_lifecycle-IsSound eff (rebind s eff.port w) (rebind-IsSound eff.port w fine v))
  ]
  want_running-IsSound eff port crashed w fine e v =
      ground (arith, bring_up-IsSound eff w (idle-inst w (λ k. cc) v))
  want_running-IsSound eff port at_rest w fine e v =
      bring_up-IsSound eff w (idle-inst w (λ k. cc) v)
  want_running-IsSound eff port pending w fine e v =
      bring_up-IsSound eff w (idle-inst w (λ k. cc) v)
  want_running-IsSound eff port starting w fine e v = v
  want_running-IsSound eff port stopping w fine e v = v

  want_stopped-IsSound : (w : Worker h) → IsSound w → IsSound (want_stopped s w.phase w)
  unfolding want_stopped
  want_stopped-IsSound w v = ground (arith, bring_down-IsSound w v)

  phase-handle_crash : (w : Worker h) → (handle_crash s w).phase ≡ crashed
  unfolding handle_crash mark_crashed
  phase-handle_crash w = refl

  toward-IsSound :
      (eff : EffectiveServer h) (port : ℕ) (w : Worker h)
      → RebindsSucceed
      → IsSound w
      → IsSound (toward s eff port w.phase w)
  unfolding toward
  toward-IsSound eff port w fine v =
      ground (arith, want_running-IsSound eff port w.phase w fine refl v, want_stopped-IsSound w v)

  reconcile_to-IsSound :
      (eff : EffectiveServer h) (w : Worker h)
      → RebindsSucceed
      → IsSound w
      → IsSound (reconcile_to s eff w)
  unfolding reconcile_to
  reconcile_to-IsSound eff w fine v =
      let w1 = record w { row = some eff.row; standalone = eff.standalone } in
      let dead = handle_crash s w1 in
      elim (Bool-cases (is_running s w1.phase && not (container_alive s w1))) [
        | inl k ↦ rw k (
            rw (← phase-handle_crash w1)
              (toward-IsSound eff w.port dead fine (handle_crash-IsSound w1)))
        | inr k ↦ rw k (toward-IsSound eff w.port w1 fine v)
      ]

  resolved-IsSound :
      (r : Result (EffectiveServer h)) (w : Worker h)
      → RebindsSucceed
      → IsSound w
      → IsSound (resolved s r w)
  unfolding resolved
  resolved-IsSound (ok eff) w fine v = reconcile_to-IsSound eff w fine v
  resolved-IsSound (err no_rows) w fine v = reap-IsSound w v
  resolved-IsSound (err db_error) w fine v = v
  resolved-IsSound (err unplaced) w fine v = v

  -- A sound worker stays sound through a reconcile, whatever the store, docker and the proxy answer,
  -- except that a rebind's AddBackend must succeed: it holds a container exactly when its phase is
  -- running, and is not left starting or stopping.
  pub reconcile-IsSound : (w : Worker h) → RebindsSucceed → IsSound w → IsSound (reconcile s w)
  unfolding reconcile
  reconcile-IsSound w fine v = resolved-IsSound (s.resolve_server w.history w.name) w fine v

  run_loop-IsSound :
      (wakes : List Bool) (w : Worker h) → RebindsSucceed → IsSound w → IsSound (run_loop s wakes w)
  unfolding run_loop
  run_loop-IsSound [] w fine v = v
  run_loop-IsSound (true ∷ rest) w fine v = bring_down-IsSound w v
  run_loop-IsSound (false ∷ rest) w fine v =
      let w' = record w { nudged = false } in
      run_loop-IsSound rest (reconcile s w') fine (reconcile-IsSound w' fine v)

  -- After any schedule of wakes, a new worker holds a container exactly when its phase is running and
  -- is neither starting nor stopping, whatever the store, docker and the proxy answer, except that a
  -- rebind's AddBackend must succeed.
  pub run-IsSound :
      (wakes : List Bool) (w : Worker h)
      → RebindsSucceed
      → w.phase ≡ pending
      → w.inst ≡ none
      → IsSound (run s wakes w)
  unfolding run
  run-IsSound wakes w fine p i =
      run_loop-IsSound wakes (reconcile s w) fine (reconcile-IsSound w fine (rw (p, i) tt))

  -- A worker whose row is gone ends: its context is cancelled, it holds no container, and if the
  -- server had its own port, the last thing it does is to give that port back.
  pub reap_ends :
      (w : Worker h)
      → IsSound w
      → ((reap s w).cancelled ≡ true)
        × ((reap s w).inst ≡ none)
        × ((reap s w).phase ≢ running)
        × (w.standalone ≡ true
            → w.port ≢ 0
            → (reap s w).history ≡ unmanaged w.port ∷ (bring_down s w).history)
  unfolding reap bring_down teardown_live
  reap_ends w v = ground arith
