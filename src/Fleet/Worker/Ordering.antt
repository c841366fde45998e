-- ===== src/Fleet/Worker/Ordering.antt =====
-- In which order a worker calls the proxy and docker.
use csfleet.Prelude.{
  ◌-◌, ◌≤◌, ◌≡◌, ◌⊎◌, inl, inr, refl, true, false, List, ◌∷◌, none, some, String, arith,
  Option-cases,
}
use csfleet.Database.Rows.{Hours, EffectiveServer}
use csfleet.Fleet.Services.{
  Instance, History, signalled, flushed, started, start_failed, added, removed, stopped, persisted,
  retry_after, Services, Answer-cases, ConfigPayload,
}
use csfleet.Fleet.Backoff.{backoff}
use csfleet.Fleet.Worker.{
  Worker, starting, running, at_rest, crashed, mark_crashed, fail, teardown_live, bring_down,
  check_lifecycle, bring_up_start, bring_up_load, load_all, bring_up_added, bring_up, emit, signal,
  set_phase,
}

-- How a bring-up may end, from the history `l` before it.
pub data BroughtUp {h : Hours} (eff : EffectiveServer h) (l : History) (w : Worker h) : Type 0 where
  up :
      (i : Instance)
      → w.phase ≡ running
      → w.inst ≡ some i
      → w.port ≡ eff.port
      → w.ip ≡ eff.row.ip
      → w.history
        ≡ signalled
          ∷ added eff.port eff.row.ip true
          ∷ started i
          ∷ flushed eff.row.ip
          ∷ signalled
          ∷ l
      → BroughtUp eff l w
  not_started :
      w.phase ≡ crashed
      → w.history
        ≡ retry_after (backoff w.crash_count) ∷ signalled ∷ flushed eff.row.ip ∷ signalled ∷ l
      → BroughtUp eff l w
  start_refused :
      w.phase ≡ crashed
      → w.history
        ≡ retry_after (backoff w.crash_count)
          ∷ signalled
          ∷ start_failed
          ∷ flushed eff.row.ip
          ∷ signalled
          ∷ l
      → BroughtUp eff l w
  rolled_back :
      (i : Instance)
      → w.phase ≡ crashed
      → w.history
        ≡ retry_after (backoff w.crash_count)
          ∷ signalled
          ∷ stopped i
          ∷ added eff.port eff.row.ip false
          ∷ started i
          ∷ flushed eff.row.ip
          ∷ signalled
          ∷ l
      → BroughtUp eff l w

module _ {h : Hours} (s : Services h) where
  added-BroughtUp :
      (eff : EffectiveServer h) (i : Instance) (l : History) (w : Worker h)
      → w.history ≡ started i ∷ flushed eff.row.ip ∷ signalled ∷ l
      → BroughtUp eff l (bring_up_added s eff i w)
  unfolding bring_up_added fail
  added-BroughtUp eff i l w e = elim (Option-cases (s.add_backend w.history eff.port eff.row.ip)) [
    | inl k ↦ up i (ground arith) (ground arith) (ground arith) (ground arith) (ground arith)
    | inr (m, k) ↦ rolled_back i (ground arith) (ground arith)
  ]

  start-BroughtUp :
      (eff : EffectiveServer h) (env : List (String × String)) (ps : List String)
      (cs : List ConfigPayload) (l : History) (w : Worker h)
      → w.history ≡ flushed eff.row.ip ∷ signalled ∷ l
      → BroughtUp eff l (bring_up_start s eff env ps cs w)
  unfolding bring_up_start fail
  start-BroughtUp eff env ps cs l w e =
      elim (Answer-cases
        (s.start w.history (record { name = eff.row.name; ip = eff.row.ip; env = env }) ps cs)) [
          | inl (i, k) ↦
              rw (k, bring_up_start) (added-BroughtUp eff i l (emit h (started i) w) (ground arith))
          | inr (m, k) ↦ start_refused (ground arith) (ground arith)
        ]

  load-BroughtUp :
      (eff : EffectiveServer h) (l : History) (w : Worker h)
      → w.history ≡ flushed eff.row.ip ∷ signalled ∷ l
      → BroughtUp eff l (bring_up_load s eff w)
  unfolding bring_up_load mark_crashed
  load-BroughtUp eff l w e = elim (Answer-cases (load_all s eff w.history)) [
    | inl ((env, ps, cs), k) ↦ rw (k, bring_up_load) (start-BroughtUp eff env ps cs l w e)
    | inr (m, k) ↦ not_started (ground arith) (ground arith)
  ]

  -- A bring-up flushes the address's conntrack entries before it starts the container, and adds the
  -- backend only after the start: it ends running, with the container it started and the bound port
  -- and address recorded, or crashed with a retry after the backoff, and then every container that it
  -- started is stopped again.
  pub bring_up-BroughtUp :
      (eff : EffectiveServer h) (w : Worker h) → BroughtUp eff w.history (bring_up s eff w)
  unfolding bring_up fail
  bring_up-BroughtUp eff w =
      let w1 = signal h (set_phase h starting w) in
      elim (Option-cases (s.flush_conntrack w1.history eff.row.ip)) [
        | inl k ↦
            rw (k, bring_up) (load-BroughtUp eff w.history (emit h (flushed eff.row.ip) w1) refl)
        | inr (m, k) ↦ not_started (ground arith) (ground arith)
      ]

  -- Bringing a running server down takes its backend out of the proxy, then flushes the conntrack
  -- entries of its address, and only then stops the container; the worker ends at rest without an
  -- instance, and a second bring-down changes nothing.
  pub bring_down_order :
      (w : Worker h) (i : Instance)
      → w.phase ≡ running
      → w.inst ≡ some i
      → ((bring_down s w).phase ≡ at_rest)
        × ((bring_down s w).inst ≡ none)
        × ((bring_down s w).history
            ≡ signalled ∷ stopped i ∷ flushed w.ip ∷ removed w.port w.ip ∷ signalled ∷ w.history)
        × (bring_down s (bring_down s w) ≡ bring_down s w)
  unfolding bring_down teardown_live
  bring_down_order w i p e = ground arith

  -- A stop limit that is reached, of a running server: the row is set to stopped before anything is
  -- torn down, and when that write fails, the server keeps running and nothing else happens.
  pub stop_limit :
      (eff : EffectiveServer h) (w : Worker h) (i : Instance)
      → w.phase ≡ running
      → w.inst ≡ some i
      → h.positive eff.stop_hrs ≡ true
      → h.duration eff.stop_hrs ≤ s.now w.history - w.started_at
      → (s.persist_stop w.history w.name ≡ true
          × (check_lifecycle s eff w).phase ≡ at_rest
          × (check_lifecycle s eff w).inst ≡ none
          × (check_lifecycle s eff w).history
            ≡ signalled
              ∷ stopped i
              ∷ flushed w.ip
              ∷ removed w.port w.ip
              ∷ signalled
              ∷ persisted true
              ∷ w.history)
        ⊎ (s.persist_stop w.history w.name ≡ false
            × check_lifecycle s eff w ≡ emit h (persisted false) w)
  unfolding check_lifecycle bring_down teardown_live
  stop_limit eff w i p e q a = ground (arith)
