-- ===== src/Fleet/Worker/LeftBehind.antt =====
-- A container that a failed rebind leaves behind: what the later wakes of the worker do about it.
use csfleet.Prelude.{
  ℕ, suc, ◌≡◌, ◌⊎◌, inl, inr, refl, Bool, true, false, List, [], ◌∷◌, some, String, arith,
}
use csfleet.Database.Rows.{
  Hours, EffectiveServer, DesiredState, ok, no_rows, db_error, unplaced, Result-cases,
}
use csfleet.Fleet.Services.{Instance, History, stopped, removed_unbinding, Services}
use csfleet.Fleet.Worker.{
  Worker, at_rest, crashed, bring_down, fail, rebind, reap, reconcile_to, reconcile, run_loop,
}

unfoldable pub count_stops : History → ℕ
count_stops [] = 0
count_stops (stopped i ∷ l) = suc (count_stops l)
count_stops (_ ∷ l) = count_stops l

-- Out of the phases that have a container, with one, after as many stops as in `l`.
abbrev pub IsLeft : {h : Hours} → Instance → History → Worker h → Type 0
IsLeft i l w =
    ((w.phase ≡ crashed) ⊎ (w.phase ≡ at_rest))
    × (w.inst ≡ some i)
    × (count_stops w.history ≡ count_stops l)

module _ {h : Hours} (s : Services h) (i : Instance) (l : History) where
  rebind-IsLeft :
      (port : ℕ) (w : Worker h) (e : String)
      → w.inst ≡ some i
      → w.history ≡ l
      → s.add_backend (removed_unbinding w.port w.ip ∷ w.history) port w.ip ≡ some e
      → IsLeft i l (rebind s port w)
  unfolding rebind fail count_stops
  rebind-IsLeft port w e k same a = ground arith

  bring_down-IsLeft : (w : Worker h) → IsLeft i l w → IsLeft i l (bring_down s w)
  unfolding bring_down
  bring_down-IsLeft w v = ground arith

  reap-IsLeft : (w : Worker h) → IsLeft i l w → IsLeft i l (reap s w)
  unfolding reap count_stops
  reap-IsLeft w v = ground (arith, bring_down-IsLeft w v)

  reconcile_to-IsLeft :
      (eff : EffectiveServer h) (w : Worker h)
      → eff.row.desired_state ≡ DesiredState.stopped
      → IsLeft i l w
      → IsLeft i l (reconcile_to s eff w)
  unfolding reconcile_to count_stops
  reconcile_to-IsLeft eff w d (inl p, k, n) = ground arith
  reconcile_to-IsLeft eff w d (inr p, k, n) = ground arith

  -- The store never asks for the server to run: whenever it resolves it, the desired state is stopped.
  abbrev pub IsUnwanted : Type 0
  IsUnwanted =
      (m : History) (n : String) (eff : EffectiveServer h)
      → s.resolve_server m n ≡ ok eff
      → eff.row.desired_state ≡ DesiredState.stopped

  reconcile-IsLeft : (w : Worker h) → IsUnwanted → IsLeft i l w → IsLeft i l (reconcile s w)
  unfolding reconcile
  reconcile-IsLeft w u v = elim (Result-cases (s.resolve_server w.history w.name)) [
    | inl (eff, e) ↦ rw (e, reconcile) (reconcile_to-IsLeft eff w (u w.history w.name eff e) v)
    | inr (no_rows, e) ↦ rw (e, reconcile) (reap-IsLeft w v)
    | inr (db_error, e) ↦ rw (e, reconcile) v
    | inr (unplaced, e) ↦ rw (e, reconcile) v
  ]

  run_loop-IsLeft :
      (wakes : List Bool) (w : Worker h)
      → IsUnwanted
      → IsLeft i l w
      → IsLeft i l (run_loop s wakes w)
  unfolding run_loop
  run_loop-IsLeft [] w u v = v
  run_loop-IsLeft (true ∷ rest) w u v = bring_down-IsLeft w v
  run_loop-IsLeft (false ∷ rest) w u v =
      let w' = record w { nudged = false } in
      run_loop-IsLeft rest (reconcile s w') u (reconcile-IsLeft w' u v)

module _ {h : Hours} (s : Services h) where
  -- When a port change fails to add the backend and the store never asks for the server to run, the
  -- container is not stopped: after any schedule of later wakes, a deleted row and the shutdown
  -- included, whatever docker and the proxy answer, the worker still holds it, is not running, and has
  -- stopped no container since.
  pub rebind_leak :
      (port : ℕ) (w : Worker h) (i : Instance) (e : String) (wakes : List Bool)
      → w.inst ≡ some i
      → s.add_backend (removed_unbinding w.port w.ip ∷ w.history) port w.ip ≡ some e
      → IsUnwanted s i w.history
      → IsLeft i w.history (run_loop s wakes (rebind s port w))
  rebind_leak port w i e wakes k a u =
      run_loop-IsLeft s i w.history wakes (rebind s port w) u
        (rebind-IsLeft s i w.history port w e k refl a)
