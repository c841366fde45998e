-- ===== src/Api/Servers/Creation.antt =====
-- What createServer does to the store.
use csfleet.Prelude.{
  ℕ, ◌≡◌, refl, inl, inr, ◌⊎◌, Bool, true, false, List, [], ◌∷◌, ◌++◌, Option, none, some, String,
  arith, Bool-cases, Option-cases, if◌then◌else◌,
}
use text.Mathlib.Text.{◌==◌ as str_eq}
use csfleet.Database.Rows.{Hours, ServerRow, stored_server, DesiredState, running, ok}
use csfleet.Database.Sets.{Collation}
use csfleet.Database.Tables.{Store, get_server, placed, clashes}
use csfleet.Database.Crud.{create_server as create_server_tx}
use csfleet.Database.Crud.Links.{IsLinked}
use csfleet.Database.Crud.Creates.{
  Commits, Creates, create_server-Creates, create_server-insert_server, get_server-Creates,
  IsLinked-Creates,
}
use csfleet.Api.Http.{
  status_created, error_text, status_bad_request, status_conflict, Response, write_json, write_err,
  World, nudge, reply,
}
use csfleet.Api.Requests.{ServerResponse, CreateServerRequest, to_server_row, to_server_response}
use csfleet.Api.Servers.{allocate_ip, validate_reachable, Live}
use csfleet.Api.Servers.Statuses.{status_for-row}
use csfleet.Api.Servers.Handlers.{
  Failing, create_server, create_row, read_back, or_running, with_effective, server_response,
}

module _ {h : Hours} (c : Collation) (prefix : String) (column : String → Option DesiredState)
    (failing : Failing) (reads fault : ℕ → Bool) (statuses : List Live) where
  abbrev pub IsRefusal : Response (ServerResponse h) → Type 0
  IsRefusal (write_err status_bad_request m) = Unit
  IsRefusal (write_err status_conflict m) = Unit
  IsRefusal _ = ⊥

  -- The new row, in the store after it.
  pub record Created (req : CreateServerRequest h) (w w' : World h) (row : ServerRow h)
      : Type 0 where
    pub asked : row ≡ record (stored_server (to_server_row h req row.desired_state)) { ip = row.ip }
    pub state : column (or_running req.desired_state) ≡ some row.desired_state
    pub address : allocate_ip prefix (reads 0) w.store.servers ≡ some row.ip
    pub added : w'.store.servers ≡ w.store.servers ++ (row ∷ [])
    pub clusters : w'.store.clusters ≡ w.store.clusters
    pub read : get_server c w'.store req.name ≡ ok row
    pub linked : IsLinked c w'.store
    pub nudged : w'.nudged ≡ true

  abbrev pub Answers :
      CreateServerRequest h → World h → World h × Response (ServerResponse h) → Type 0
  Answers req w (w', r) = ((w' ≡ w) × IsRefusal r) ⊎ ((row : ServerRow h) × Created req w w' row)

  written-Answers :
      (req : CreateServerRequest h) (w : World h) (ip : String) (state : DesiredState)
      (o : Bool × Store h)
      → IsLinked c w.store
      → allocate_ip prefix (reads 0) w.store.servers ≡ some ip
      → column (or_running req.desired_state) ≡ some state
      → Commits (Creates c (record (to_server_row h req state) { ip = ip }) w.store) w.store o
      → Answers req w (
          if o.0
          then read_back c prefix column failing reads fault statuses
              (reads 1)
              status_created
              req.name
              (record w { store = o.1 })
          else (record w { store = o.1 }, write_err status_bad_request error_text))
  unfolding read_back nudge to_server_row
  written-Answers req w ip state (false, u) l a k e = inl (rw e refl, tt)
  written-Answers req w ip state (true, u) l a k e =
      let row : ServerRow h = record (to_server_row h req state) { ip = ip } in
      inr (
        stored_server row,
        record {
          asked = refl;
          state = k;
          address = a;
          added = e.servers;
          clusters = e.clusters;
          read = get_server-Creates c row w.store u e;
          linked = IsLinked-Creates c row w.store u e l;
          nudged = refl;
        },
      )

  create_row-Answers :
      (req : CreateServerRequest h) (ip : String) (w : World h)
      → IsLinked c w.store
      → allocate_ip prefix (reads 0) w.store.servers ≡ some ip
      → Answers req w (create_row c prefix column failing reads fault statuses req ip w)
  unfolding create_row to_server_row
  create_row-Answers req ip w l a = elim (Option-cases (column (or_running req.desired_state))) [
    | inl k ↦ rw (k, create_row) (inl (refl, tt))
    | inr (state, k) ↦
        let row : ServerRow h = record (to_server_row h req state) { ip = ip } in
        rw (k, create_row)
          (written-Answers req w ip state
            (create_server_tx c fault row req.plugins req.configs req.env w.store) l a k
            (create_server-Creates c fault row req.plugins req.configs req.env w.store))
  ]

  -- A request to create a server is answered 400 or 409 and changes nothing, or it adds the row asked
  -- for, with the address that allocateIP chose and with its hours as the FLOAT columns round them,
  -- touches no other row, leaves every row reachable, and nudges the manager; the row is then the one that
  -- is read under its name. Every row was reachable.
  pub create_server-Answers :
      (req : CreateServerRequest h) (w : World h)
      → IsLinked c w.store
      → Answers req w (create_server c prefix column failing reads fault statuses (some req) w)
  unfolding create_server
  create_server-Answers req w l = elim (Bool-cases (str_eq req.name "")) [
    | inl e ↦ rw e (inl (refl, tt))
    | inr e ↦ elim (Bool-cases (validate_reachable (to_server_row h req running))) [
      | inr v ↦ rw (e, v) (inl (refl, tt))
      | inl v ↦ elim (Option-cases (allocate_ip prefix (reads 0) w.store.servers)) [
        | inl a ↦ rw (e, v, a) (inl (refl, tt))
        | inr (ip, a) ↦ rw (e, v, a) (create_row-Answers req ip w l a)
      ]
    ]
  ]

abbrev no_fault : ℕ → Bool
no_fault n = false

module _ {h : Hours} (c : Collation) where
  placed-validate_reachable :
      (req : CreateServerRequest h) (t : Store h)
      → placed c t.clusters req.port req.cluster ≡ true
      → validate_reachable (to_server_row h req running) ≡ true
  unfolding placed validate_reachable to_server_row
  placed-validate_reachable req t e = ground arith

module _ {h : Hours} (c : Collation) (prefix : String) (column : String → Option DesiredState)
    (failing : Failing) (statuses : List Live) where
  abbrev pub IsShown : ServerRow h → Response (ServerResponse h) → Type 0
  IsShown row (write_json status_created r) = (r.name ≡ row.name) × (r.ip ≡ row.ip)
  IsShown row _ = ⊥

  read_back-IsShown :
      (row : ServerRow h) (w : World h)
      → get_server c w.store row.name ≡ ok row
      → IsShown row
          (read_back c prefix column failing no_fault no_fault statuses false status_created
            row.name w).1
  unfolding read_back server_response with_effective to_server_response
  read_back-IsShown row w e = rw (e, reply) (rw (status_for-row statuses row) (refl, refl))

  -- A request without sets of its own that names a free name and a free port or a cluster that is
  -- there is answered 201 with the row, if an address is free and nothing fails.
  pub create_server-IsShown :
      (req : CreateServerRequest h) (w : World h) (ip : String) (state : DesiredState)
      → str_eq req.name "" ≡ false
      → column (or_running req.desired_state) ≡ some state
      → allocate_ip prefix false w.store.servers ≡ some ip
      → placed c w.store.clusters req.port req.cluster ≡ true
      → clashes c (record (to_server_row h req state) { ip = ip }) w.store.servers ≡ false
      → req.plugins ≡ none
      → req.configs ≡ none
      → req.env ≡ []
      → IsShown
          (record (to_server_row h req state) { ip = ip })
          (create_server c prefix column failing no_fault no_fault statuses (some req) w).1
  unfolding create_server create_row to_server_row
  create_server-IsShown req w ip state e k a p q x y z =
      let row : ServerRow h = record (to_server_row h req state) { ip = ip } in
      rw (e, placed-validate_reachable c req w.store p, a)
        (rw (k, create_row)
          (rw (x, y, z)
            (rw (create_server-insert_server c row w.store p q) (
              read_back-IsShown (stored_server row)
                (record w {
                  store = record w.store { servers = w.store.servers ++ (stored_server row ∷ []) };
                })
                (get_server-Creates c row w.store _
                  (record { servers = refl; clusters = refl; new = q; is_placed = p }))))))
