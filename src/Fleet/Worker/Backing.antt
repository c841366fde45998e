-- ===== src/Fleet/Worker/Backing.antt =====
-- Which backends a worker has with the proxy, by its calls: just the one of its running container.
use csfleet.Prelude.{
  ℕ, ◌≡◌, ◌≢◌, inl, inr, refl, Bool, true, false, not, ◌&&◌, List, [], ◌∷◌, none, some, String, ite,
  String_discrete, arith, Bool-cases, Option-cases, ◌==◌, if◌then◌else◌,
}
use mathlib.Core.Bool.{false≢true}
use csfleet.Database.Rows.{
  DesiredState, Hours, EffectiveServer, Result, ok, err, no_rows, db_error, unplaced,
}
use csfleet.Fleet.Services.{
  Instance, History, flushed, started, start_failed, added, removed, removed_unbinding, unmanaged,
  persisted, Services, Answer-cases, ConfigPayload,
}
use csfleet.Fleet.Worker.{
  Worker, Phase, pending, starting, running, stopping, at_rest, crashed, mark_crashed, fail,
  teardown_live, bring_down, handle_crash, container_alive, rebind, check_lifecycle, bring_up_start,
  load_all, bring_up_load, bring_up_added, bring_up, reap, toward, resolved, reconcile_to,
  reconcile, run_loop, run, wake, emit, signal, set_phase, want_running, want_stopped, is_running,
  check_port, backing_off,
}

-- A backend stands from an AddBackend that succeeded until a removal, or until its port is given back.
-- An AddBackend that fails takes the address out again.
unfoldable pub is_backed : History → ℕ → String → Bool
is_backed [] p i = false
is_backed (added q j good ∷ l) p i =
    let rest = is_backed l p i in if q == p then ite (String_discrete j i) good rest else rest
is_backed (removed q j ∷ l) p i =
    let rest = is_backed l p i in if q == p then ite (String_discrete j i) false rest else rest
is_backed (removed_unbinding q j ∷ l) p i =
    let rest = is_backed l p i in if q == p then ite (String_discrete j i) false rest else rest
is_backed (unmanaged q ∷ l) p i = let rest = is_backed l p i in if q == p then false else rest
is_backed (_ ∷ l) p i = is_backed l p i

module _ {h : Hours} (p : ℕ) (i : String) where
  -- The address `i` stands behind the port `p` exactly if they are those of the running container.
  pub record IsBacked (w : Worker h) : Type 0 where
    pub only : is_backed w.history p i ≡ true → (w.phase ≡ running) × (p ≡ w.port) × (i ≡ w.ip)
    pub stands : w.phase ≡ running → p ≡ w.port → i ≡ w.ip → is_backed w.history p i ≡ true
    pub holds : w.phase ≡ running → w.inst ≢ none

  module _ (s : Services h) where
    mark_crashed-IsBacked :
        (e : String) (w : Worker h)
        → is_backed w.history p i ≡ false
        → IsBacked (mark_crashed s e w)
    unfolding mark_crashed is_backed
    mark_crashed-IsBacked e w n = record {
      only = ground arith;
      stands = ground arith;
      holds = ground arith;
    }

    bring_down-IsBacked : (w : Worker h) → IsBacked w → IsBacked (bring_down s w)
    unfolding bring_down teardown_live is_backed
    bring_down-IsBacked w v = record {
      only = ground (arith, v.only, v.stands, v.holds);
      stands = ground (arith, v.only, v.stands, v.holds);
      holds = ground (arith, v.only, v.stands, v.holds);
    }

    -- Nothing stands.
    abbrev IsBare : Worker h → Type 0
    IsBare w = is_backed w.history p i ≡ false

    idle-IsBare : (w : Worker h) → w.phase ≢ running → IsBacked w → IsBare w
    idle-IsBare w n v = elim (Bool-cases (is_backed w.history p i)) [
      | inl e ↦ absurd (n (v.only e).0)
      | inr e ↦ e
    ]

    bring_up_added-IsBacked :
        (eff : EffectiveServer h) (x : Instance) (w : Worker h)
        → IsBare w
        → IsBacked (bring_up_added s eff x w)
    unfolding bring_up_added fail mark_crashed is_backed
    bring_up_added-IsBacked eff x w n = record {
      only = ground arith;
      stands = ground arith;
      holds = ground arith;
    }

    bring_up_start-IsBacked :
        (eff : EffectiveServer h) (env : List (String × String)) (ps : List String)
        (cs : List ConfigPayload) (w : Worker h)
        → IsBare w
        → IsBacked (bring_up_start s eff env ps cs w)
    unfolding bring_up_start fail is_backed
    bring_up_start-IsBacked eff env ps cs w n =
        elim (Answer-cases
          (s.start w.history (record { name = eff.row.name; ip = eff.row.ip; env = env }) ps cs)) [
            | inr (m, k) ↦
                rw (k, bring_up_start) (mark_crashed-IsBacked _ (emit h start_failed w) n)
            | inl (x, k) ↦
                rw (k, bring_up_start) (bring_up_added-IsBacked eff x (emit h (started x) w) n)
          ]

    bring_up_load-IsBacked :
        (eff : EffectiveServer h) (w : Worker h) → IsBare w → IsBacked (bring_up_load s eff w)
    unfolding bring_up_load
    bring_up_load-IsBacked eff w n = elim (Answer-cases (load_all s eff w.history)) [
      | inl ((env, ps, cs), k) ↦ rw (k, bring_up_load) (bring_up_start-IsBacked eff env ps cs w n)
      | inr (m, k) ↦ rw (k, bring_up_load) (mark_crashed-IsBacked m w n)
    ]

    bring_up-IsBacked :
        (eff : EffectiveServer h) (w : Worker h) → IsBare w → IsBacked (bring_up s eff w)
    unfolding bring_up fail is_backed
    bring_up-IsBacked eff w n =
        let w1 = signal h (set_phase h starting w) in
        let w2 = emit h (flushed eff.row.ip) w1 in
        elim (Option-cases (s.flush_conntrack w1.history eff.row.ip)) [
          | inl e ↦ rw (e, bring_up) (bring_up_load-IsBacked eff w2 n)
          | inr (m, e) ↦ rw (e, bring_up) (mark_crashed-IsBacked _ w2 n)
        ]

    reap-IsBacked : (w : Worker h) → IsBacked w → IsBacked (reap s w)
    unfolding reap is_backed bring_down teardown_live
    reap-IsBacked w v = record {
      only = ground (arith, v.only, v.stands, v.holds);
      stands = ground (arith, v.only, v.stands, v.holds);
      holds = ground (arith, v.only, v.stands, v.holds);
    }

    check_lifecycle-IsBacked :
        (eff : EffectiveServer h) (w : Worker h) → IsBacked w → IsBacked (check_lifecycle s eff w)
    unfolding check_lifecycle wake is_backed
    check_lifecycle-IsBacked eff w v =
        let down = bring_down-IsBacked w v in
        let limited =
          bring_down-IsBacked (emit h (persisted true) w)
            (record { only = v.only; stands = v.stands; holds = v.holds }) in
        record {
          only = ground (arith, v.only, down.only, limited.only);
          stands = ground (arith, v.stands, down.stands, limited.stands);
          holds = ground (arith, v.holds, down.holds, limited.holds);
        }

    rebind-IsBacked :
        (port : ℕ) (w : Worker h) → w.phase ≡ running → IsBacked w → IsBacked (rebind s port w)
    unfolding rebind fail mark_crashed is_backed
    rebind-IsBacked port w r v = record {
      only = ground (arith, v.only, v.stands, v.holds);
      stands = ground (arith, v.only, v.stands, v.holds);
      holds = ground (arith, v.only, v.stands, v.holds);
    }

    handle_crash-IsBacked : (w : Worker h) → IsBacked w → IsBacked (handle_crash s w)
    unfolding handle_crash teardown_live mark_crashed is_backed
    handle_crash-IsBacked w v = record {
      only = ground (arith, v.only, v.stands, v.holds);
      stands = ground (arith, v.only, v.stands, v.holds);
      holds = ground (arith, v.only, v.stands, v.holds);
    }

    want_running-IsBacked :
        (eff : EffectiveServer h) (port : ℕ) (ph : Phase) (w : Worker h)
        → w.phase ≡ ph
        → IsBacked w
        → IsBacked (want_running s eff port ph w)
    unfolding want_running check_port
    want_running-IsBacked eff port running w e v = elim (Bool-cases (port == eff.port)) [
      | inl k ↦ rw k (check_lifecycle-IsBacked eff w v)
      | inr k ↦
          rw k (check_lifecycle-IsBacked eff (rebind s eff.port w) (rebind-IsBacked eff.port w e v))
    ]
    want_running-IsBacked eff port crashed w e v = elim (Bool-cases (backing_off s w)) [
      | inl k ↦ rw k v
      | inr k ↦ rw k (bring_up-IsBacked eff w (idle-IsBare w (λ q. cc) v))
    ]
    want_running-IsBacked eff port at_rest w e v =
        bring_up-IsBacked eff w (idle-IsBare w (λ q. cc) v)
    want_running-IsBacked eff port pending w e v =
        bring_up-IsBacked eff w (idle-IsBare w (λ q. cc) v)
    want_running-IsBacked eff port starting w e v = v
    want_running-IsBacked eff port stopping w e v = v

    at_rest-IsBacked :
        (w : Worker h)
        → w.phase ≢ running
        → IsBacked w
        → IsBacked (signal h (set_phase h at_rest w))
    unfolding is_backed
    at_rest-IsBacked w n v = record {
      only = λ e. absurd (n (v.only e).0);
      stands = ground arith;
      holds = ground arith;
    }

    want_stopped-IsBacked :
        (ph : Phase) (w : Worker h) → w.phase ≡ ph → IsBacked w → IsBacked (want_stopped s ph w)
    unfolding want_stopped
    want_stopped-IsBacked running w e v = bring_down-IsBacked w v
    want_stopped-IsBacked stopping w e v = bring_down-IsBacked w v
    want_stopped-IsBacked pending w e v = at_rest-IsBacked w (λ q. cc) v
    want_stopped-IsBacked crashed w e v = at_rest-IsBacked w (λ q. cc) v
    want_stopped-IsBacked at_rest w e v = v
    want_stopped-IsBacked starting w e v = v

    toward-IsBacked :
        (eff : EffectiveServer h) (port : ℕ) (ph : Phase) (w : Worker h)
        → w.phase ≡ ph
        → IsBacked w
        → IsBacked (toward s eff port ph w)
    unfolding toward
    toward-IsBacked eff port ph w e v =
        elim eff.row.desired_state
          as (λ d. IsBacked (elim d [
            | DesiredState.running ↦ want_running s eff port ph w
            | DesiredState.stopped ↦ want_stopped s ph w
          ])) [
            | DesiredState.running ↦ want_running-IsBacked eff port ph w e v
            | DesiredState.stopped ↦ want_stopped-IsBacked ph w e v
          ]

    phase-handle_crash : (w : Worker h) → (handle_crash s w).phase ≡ crashed
    unfolding handle_crash mark_crashed
    phase-handle_crash w = refl

    reconcile_to-IsBacked :
        (eff : EffectiveServer h) (w : Worker h) → IsBacked w → IsBacked (reconcile_to s eff w)
    unfolding reconcile_to
    reconcile_to-IsBacked eff w v =
        let w1 = record w { row = some eff.row; standalone = eff.standalone } in
        let v1 : IsBacked w1 = record { only = v.only; stands = v.stands; holds = v.holds } in
        elim (Bool-cases (is_running s w1.phase && not (container_alive s w1))) [
          | inl k ↦ rw k (
              toward-IsBacked eff w.port crashed (handle_crash s w1) (phase-handle_crash w1)
                (handle_crash-IsBacked w1 v1))
          | inr k ↦ rw k (toward-IsBacked eff w.port w.phase w1 refl v1)
        ]

    resolved-IsBacked :
        (r : Result (EffectiveServer h)) (w : Worker h) → IsBacked w → IsBacked (resolved s r w)
    unfolding resolved
    resolved-IsBacked (ok eff) w v = reconcile_to-IsBacked eff w v
    resolved-IsBacked (err no_rows) w v = reap-IsBacked w v
    resolved-IsBacked (err db_error) w v = v
    resolved-IsBacked (err unplaced) w v = v

    run_loop-IsBacked :
        (wakes : List Bool) (w : Worker h) → IsBacked w → IsBacked (run_loop s wakes w)
    unfolding run_loop reconcile
    run_loop-IsBacked [] w v = v
    run_loop-IsBacked (true ∷ rest) w v = bring_down-IsBacked w v
    run_loop-IsBacked (false ∷ rest) w v =
        let w' = record w { nudged = false } in
        run_loop-IsBacked rest (reconcile s w') (
          resolved-IsBacked (s.resolve_server w'.history w'.name) w'
            (record { only = v.only; stands = v.stands; holds = v.holds }))

    -- After any schedule of wakes of a new worker, and whatever the store, docker and the proxy answer,
    -- an address stands behind a port, by the calls that the worker has made to the proxy, exactly if
    -- the worker is running and they are its own: no restart, port change, crash or stop leaves an old
    -- backend behind, and a running server is never without its own.
    pub run-IsBacked :
        (wakes : List Bool) (w : Worker h)
        → w.phase ≡ pending
        → w.history ≡ []
        → IsBacked (run s wakes w)
    unfolding run reconcile is_backed
    run-IsBacked wakes w e n = run_loop-IsBacked wakes (reconcile s w) (
        resolved-IsBacked (s.resolve_server w.history w.name) w (record {
          only = rw n (λ q. absurd (false≢true q));
          stands = λ q. absurd (cc);
          holds = λ q. absurd (cc);
        }))
