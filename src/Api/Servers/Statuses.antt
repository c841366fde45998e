-- ===== src/Api/Servers/Statuses.antt =====
-- The two ways in which the handlers join the rows with the workers' states: by a map over all of them,
-- and by a search for one.
use csfleet.Prelude.{
  ◌≡◌, ◌≢◌, refl, ◌∙◌, sym, ap, List, [], ◌∷◌, map, some, String, ite, String_discrete, All, arith,
  false,
}
use csfleet.Database.Rows.{Hours, ServerRow}
use csfleet.Api.Requests.{ServerStatus}
use csfleet.Api.Servers.{Live, no_live, merge_status, status_for, live_map, server_statuses}

abbrev first_live : Live → List Live → String → Live
first_live d [] n = d
first_live d (st ∷ sts) n = ite (String_discrete st.name n) st (first_live d sts n)

-- mgr.Status has one entry for each worker, and the workers are kept by name.
abbrev pub DistinctNames : List Live → Type 0
DistinctNames [] = Unit
DistinctNames (st ∷ sts) = All (λ (o : Live). o.name ≢ st.name) sts × DistinctNames sts

first_live-absent :
    (d : Live) (sts : List Live) (n : String)
    → All (λ (o : Live). o.name ≢ n) sts
    → first_live d sts n ≡ d
first_live-absent d [] n a = refl
first_live-absent d (st ∷ sts) n a = ground (arith, first_live-absent d sts n a.1, a.0)

live_map-first_live :
    (live : String → Live) (sts : List Live) (n : String)
    → DistinctNames sts
    → live_map live sts n ≡ first_live (live n) sts n
unfolding live_map
live_map-first_live live [] n u = refl
live_map-first_live live (st ∷ sts) n u =
    live_map-first_live (λ m. ite (String_discrete st.name m) st (live m)) sts n u.1
    ∙ (elim (String_discrete st.name n)
        as (λ d. first_live (ite d st (live n)) sts n ≡ ite d st (first_live (live n) sts n)) [
          | yes e ↦ first_live-absent st sts n (rw (sym e) u.0)
          | no e ↦ refl
        ])

module _ {h : Hours} where
  status_for-first_live :
      (sts : List Live) (row : ServerRow h)
      → status_for sts row ≡ merge_status row (first_live no_live sts row.name)
  unfolding status_for
  status_for-first_live [] row = refl
  status_for-first_live (st ∷ sts) row = ground (arith, status_for-first_live sts row)

  pub status_for-row : (sts : List Live) (row : ServerRow h) → (status_for sts row).row ≡ row
  unfolding merge_status
  status_for-row sts row = ap (λ st. st.row) (status_for-first_live sts row)

  map-all :
      (f g : ServerRow h → ServerStatus h) (rows : List (ServerRow h))
      → ((r : ServerRow h) → f r ≡ g r)
      → map f rows ≡ map g rows
  map-all f g [] e = refl
  map-all f g (r ∷ rows) e = ground (arith, e r, map-all f g rows e)

  -- The server list shows each row with the state that the search for its name alone gives; without a
  -- worker that is the stopped state. No two entries of the snapshot have one name.
  pub server_statuses-status_for :
      (sts : List Live) (rows : List (ServerRow h))
      → DistinctNames sts
      → server_statuses false sts rows ≡ some (map (status_for sts) rows)
  unfolding server_statuses
  server_statuses-status_for sts rows u = ap some (
      map-all _ (status_for sts) rows (λ r. sym (
        status_for-first_live sts r
        ∙ ap (merge_status r) (sym (live_map-first_live (λ n. no_live) sts r.name u)))))
