-- ===== src/Api/Servers/Updates.antt =====
-- What updateServer does to the store.
use csfleet.Prelude.{
  ℕ, ◌≡◌, refl, inl, inr, ◌⊎◌, Bool, true, ◌||◌, ◌&&◌, not, List, Option, none, some, String, arith,
  Option-cases,
}
use text.Mathlib.Text.{◌==◌ as str_eq}
use csfleet.Database.Rows.{
  Hours, ServerRow, stored_server, DesiredState, StoreError, no_rows, db_error, unplaced,
  Result-cases, ok,
}
use csfleet.Database.Sets.{Collation}
use csfleet.Database.Tables.{Store, get_server, update_where, is_none}
use csfleet.Database.Crud.{update_server as update_server_row}
use csfleet.Database.Crud.Links.{IsLinked}
use csfleet.Database.Crud.Writes.{server_updated, exec-IsLinked}
use csfleet.Api.Http.{Response, write_err, db_err, query, World, nudge, exec_one}
use csfleet.Api.Requests.{ServerResponse, UpdateServerRequest, apply_to_server}
use csfleet.Api.Servers.{Live}
use csfleet.Api.Servers.Handlers.{Failing, update_server, update_row, read_back, state_or}

module _ {h : Hours} (c : Collation) where
  -- What an update may change of a row: a port only without a cluster, and never the address.
  pub record Keeps (old new : ServerRow h) : Type 0 where
    pub ip : new.ip ≡ old.ip
    pub cluster : new.cluster ≡ old.cluster
    pub port : (old.cluster ≡ none) ⊎ (new.port ≡ old.port)

  apply_to_server-Keeps :
      (req : UpdateServerRequest h) (s : DesiredState) (old new : ServerRow h)
      → apply_to_server h req s old ≡ some new
      → Keeps old new
  unfolding apply_to_server
  apply_to_server-Keeps req s old new e = record {
    ip = ground arith;
    cluster = ground arith;
    port = ground arith;
  }

  -- The row `new`, under the old name and as the columns keep it, in place of the row read.
  pub record Updated (n : String) (w w' : World h) (old new : ServerRow h) : Type 0 where
    pub read : get_server c w.store n ≡ ok old
    pub keeps : Keeps old new
    pub store : w'.store ≡ record w.store {
      servers =
          update_where
            (λ (s : ServerRow h). s.name)
            c.same
            n
            (λ s. stored_server (record new { name = old.name }))
            w.store.servers;
    }
    pub linked : IsLinked c w'.store
    pub nudged : w'.nudged ≡ true

  update_server_row-store :
      (n : String) (new old : ServerRow h) (t u : Store h)
      → get_server c t n ≡ ok old
      → update_server_row c n new t ≡ some u
      → u ≡ record t {
        servers =
            update_where
              (λ (s : ServerRow h). s.name)
              c.same
              n
              (λ s. stored_server (record new { name = old.name }))
              t.servers;
      }
  unfolding update_server_row get_server
  update_server_row-store n new old t u g e = ground arith

abbrev pub IsError : {A : Type 0} → Response A → Type 0
IsError (write_err code m) = Unit
IsError _ = ⊥

IsError-db_err : (A : Type 0) (e : StoreError) → IsError {A = A} (db_err e)
unfolding db_err
IsError-db_err A no_rows = tt
IsError-db_err A db_error = tt
IsError-db_err A unplaced = tt

module _ {h : Hours} (c : Collation) (prefix : String) (column : String → Option DesiredState)
    (failing : Failing) (reads fault : ℕ → Bool) (statuses : List Live) where
  -- What a request to update a server gives: the world after it and the response.
  pub data Changes (n : String) (w w' : World h) (r : Response (ServerResponse h)) : Type 0 where
    unchanged : w' ≡ w → IsError r → Changes n w w' r
    changed : (old new : ServerRow h) → Updated c n w w' old new → Changes n w w' r

  update_row-Changes :
      (n : String) (old : ServerRow h) (req : UpdateServerRequest h) (w : World h)
      → IsLinked c w.store
      → get_server c w.store n ≡ ok old
      → Changes n w
          (update_row c prefix column failing reads fault statuses n old req w).0
          (update_row c prefix column failing reads fault statuses n old req w).1
  unfolding update_row read_back nudge
  update_row-Changes n old req w l g =
      let state = state_or (column req.desired_state) old.desired_state in
      elim (Option-cases (apply_to_server h req state old)) [
        | inl e ↦ rw (e, update_row) (unchanged refl tt)
        | inr (new, e) ↦
            let refused = not (str_eq req.desired_state "") && is_none (column req.desired_state) in
            elim (Option-cases
              (exec_one (refused || reads 1) (update_server_row c n new) w.store)) [
                | inl k ↦ rw (e, update_row) (rw k (unchanged refl tt))
                | inr (t, k) ↦
                    let done : update_server_row c n new w.store ≡ some t = ground arith in
                    rw (e, update_row)
                      (rw k (
                        changed old new (record {
                          read = g;
                          keeps = apply_to_server-Keeps c req state old new e;
                          store = update_server_row-store c n new old w.store t g done;
                          linked = exec-IsLinked c (server_updated n new) w.store t done l;
                          nudged = refl;
                        })))
              ]
      ]

  -- A request to update a server is answered with an error and changes nothing, or it changes the one
  -- row, leaving its name, its address and its cluster, and its port if it has a cluster; it leaves
  -- every row reachable, and nudges the manager. Every row was reachable.
  pub update_server-Changes :
      (n : String) (body : Option (UpdateServerRequest h)) (w : World h)
      → IsLinked c w.store
      → Changes n w
          (update_server c prefix column failing reads fault statuses n body w).0
          (update_server c prefix column failing reads fault statuses n body w).1
  unfolding update_server
  update_server-Changes n body w l =
      elim (Result-cases (query (reads 0) (get_server c w.store n))) [
        | inr (e, q) ↦ rw (q, update_server) (unchanged refl (IsError-db_err _ e))
        | inl (old, q) ↦ elim (Option-cases body) [
          | inl b ↦ rw (q, update_server) (rw b (unchanged refl tt))
          | inr (req, b) ↦
              rw (q, update_server) (rw b (update_row-Changes n old req w l (ground arith)))
        ]
      ]
