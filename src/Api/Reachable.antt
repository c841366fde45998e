-- ===== src/Api/Reachable.antt =====
-- Every request that the API serves keeps the server rows reachable.
use csfleet.Prelude.{
  ℕ, ◌≡◌, ◌≢◌, inl, inr, Bool, ◌==◌, List, [], ◌∷◌, Option, none, some, String, arith, Option-cases,
  split_if,
}
use text.Mathlib.Text.{◌==◌ as str_eq}
use csfleet.Database.Rows.{Hours, ServerRow, DesiredState, StoreError, Result-cases, ok, err}
use csfleet.Database.Sets.{Collation}
use csfleet.Database.Tables.{get_server, get_cluster}
use csfleet.Database.Resolve.{resolve_server}
use csfleet.Database.Crud.{update_server_desired_state, update_cluster as update_cluster_row}
use csfleet.Database.Crud.Links.{IsLinked}
use csfleet.Database.Crud.Writes.{
  state_updated, cluster_updated, exec-IsLinked, resolve_server-IsLinked,
}
use csfleet.Database.Crud.Reachable.{
  create_cluster-IsLinked, delete_server-IsLinked, delete_cluster-IsLinked,
}
use csfleet.Api.Http.{Response, World, nudge, notify, query, exec_one}
use csfleet.Api.Requests.{
  CreateServerRequest, UpdateServerRequest, CreateClusterRequest, UpdateClusterRequest,
  to_cluster_row, apply_to_cluster,
}
use csfleet.Api.Servers.{Live}
use csfleet.Api.Servers.Handlers.{Failing, create_server, update_server, delete_server, set_desired}
use csfleet.Api.Servers.Creation.{Answers, create_server-Answers}
use csfleet.Api.Servers.Updates.{Changes, unchanged, changed, update_server-Changes}
use csfleet.Api.Clusters.{create_cluster, update_cluster, update_cluster_as, delete_cluster}

-- The requests that write rows of servers and clusters.
pub data WriteRequest (h : Hours) : Type 0 where
  create_server_request : Option (CreateServerRequest h) → WriteRequest h
  update_server_request : String → Option (UpdateServerRequest h) → WriteRequest h
  delete_server_request : String → WriteRequest h
  desired_request : String → DesiredState → WriteRequest h
  create_cluster_request : Option (CreateClusterRequest h) → WriteRequest h
  update_cluster_request : String → Option (UpdateClusterRequest h) → WriteRequest h
  delete_cluster_request : String → WriteRequest h

-- What the database, and the snapshot of the workers, are to one request.
pub record Weather : Type 0 where
  pub failing : Failing
  pub reads : ℕ → Bool
  pub fault : ℕ → Bool
  pub statuses : List Live

module _ {h : Hours} (c : Collation) (prefix : String) (column : String → Option DesiredState) where
  abbrev pub serve : Weather → WriteRequest h → World h → World h
  serve e (create_server_request body) w =
      (create_server c prefix column e.failing e.reads e.fault e.statuses body w).0
  serve e (update_server_request n body) w =
      (update_server c prefix column e.failing e.reads e.fault e.statuses n body w).0
  serve e (delete_server_request n) w =
      (delete_server c prefix column e.failing e.reads e.fault e.statuses n w).0
  serve e (desired_request n d) w =
      (set_desired c prefix column e.failing e.reads e.fault e.statuses n d w).0
  serve e (create_cluster_request body) w = (create_cluster c e.reads e.fault body w).0
  serve e (update_cluster_request n body) w = (update_cluster c e.reads e.fault n body w).0
  serve e (delete_cluster_request n) w = (delete_cluster c e.reads e.fault n w).0

  abbrev pub serve_all : List (Weather × WriteRequest h) → World h → World h
  serve_all [] w = w
  serve_all ((e, r) ∷ rs) w = serve_all rs (serve e r w)

  -- The tables after a handler.
  abbrev Linked : {A : Type 0} → World h × Response A → Type 0
  Linked o = IsLinked c o.0.store

  Answers-Linked :
      (e : Weather) (req : CreateServerRequest h) (w w' : World h) (r : Response _)
      → IsLinked c w.store
      → Answers c prefix column e.failing e.reads e.fault e.statuses req w (w', r)
      → IsLinked c w'.store
  Answers-Linked e req w w' r l (inl (q, _)) = rw q l
  Answers-Linked e req w w' r l (inr (row, made)) = made.linked

  Changes-Linked :
      (e : Weather) (n : String) (w w' : World h) (r : Response _)
      → IsLinked c w.store
      → Changes c prefix column e.failing e.reads e.fault e.statuses n w w' r
      → IsLinked c w'.store
  Changes-Linked e n w w' r l (unchanged q _) = rw q l
  Changes-Linked e n w w' r l (changed old new made) = made.linked

  set_desired-Linked :
      (e : Weather) (n : String) (d : DesiredState) (w : World h)
      → IsLinked c w.store
      → Linked (set_desired c prefix column e.failing e.reads e.fault e.statuses n d w)
  unfolding set_desired nudge
  set_desired-Linked e n d w l =
      elim (Option-cases (exec_one (e.reads 0) (update_server_desired_state c n d) w.store)) [
        | inl q ↦ rw (q, set_desired) l
        | inr (t, q) ↦
            rw (q, set_desired) (exec-IsLinked c (state_updated n d) w.store t (ground arith) l)
      ]

  delete_server-Linked :
      (e : Weather) (n : String) (w : World h)
      → IsLinked c w.store
      → Linked (delete_server c prefix column e.failing e.reads e.fault e.statuses n w)
  unfolding delete_server nudge
  delete_server-Linked e n w l =
      let after = delete_server-IsLinked h c e.fault n w.store l in
      split_if Linked _ _ _ (λ q. after) (λ q. after)

  create_cluster-Linked :
      (e : Weather) (req : CreateClusterRequest h) (w : World h)
      → IsLinked c w.store
      → Linked (create_cluster c e.reads e.fault (some req) w)
  unfolding create_cluster notify
  create_cluster-Linked e req w l =
      let after =
        create_cluster-IsLinked h c e.fault (to_cluster_row h req) req.plugins req.configs req.env
          w.store l in
      split_if Linked (str_eq req.name "") _ _ (λ q. l)
        (λ q.
          split_if Linked (req.port == 0) _ _ (λ p. l)
            (λ p. split_if Linked _ _ _ (λ f. after) (λ f. after)))

  update_cluster_as-Linked :
      (e : Weather) (n : String) (old : _) (req : UpdateClusterRequest h) (w : World h)
      → IsLinked c w.store
      → Linked (update_cluster_as c e.reads e.fault n old req w)
  unfolding update_cluster_as notify nudge
  update_cluster_as-Linked e n old req w l =
      let new = apply_to_cluster h req old in
      split_if Linked (req.port == 0) _ _ (λ p. l)
        (λ p. elim (Option-cases (exec_one (e.reads 1) (update_cluster_row c n new) w.store)) [
          | inl q ↦ rw q l
          | inr (t, q) ↦ rw q (exec-IsLinked c (cluster_updated n new) w.store t (ground arith) l)
        ])

  delete_cluster-Linked :
      (e : Weather) (n : String) (w : World h)
      → IsLinked c w.store
      → Linked (delete_cluster c e.reads e.fault n w)
  unfolding delete_cluster notify
  delete_cluster-Linked e n w l =
      let after = delete_cluster-IsLinked h c e.fault n w.store l in
      split_if Linked _ _ _ (λ q. after) (λ q. after)

  update_cluster-Linked :
      (e : Weather) (n : String) (body : Option (UpdateClusterRequest h)) (w : World h)
      → IsLinked c w.store
      → Linked (update_cluster c e.reads e.fault n body w)
  unfolding update_cluster
  update_cluster-Linked e n body w l =
      elim (Result-cases (query (e.reads 0) (get_cluster c w.store n))) [
        | inr (m, q) ↦ rw (q, update_cluster) l
        | inl (old, q) ↦ elim (Option-cases body) [
          | inl b ↦ rw (q, update_cluster) (rw b l)
          | inr (req, b) ↦ rw (q, update_cluster) (rw b (update_cluster_as-Linked e n old req w l))
        ]
      ]

  serve-IsLinked :
      (e : Weather) (r : WriteRequest h) (w : World h)
      → IsLinked c w.store
      → IsLinked c (serve e r w).store
  unfolding create_server create_cluster
  serve-IsLinked e (create_server_request none) w l = l
  serve-IsLinked e (create_server_request (some req)) w l =
      Answers-Linked e req w _ _ l
        (create_server-Answers c prefix column e.failing e.reads e.fault e.statuses req w l)
  serve-IsLinked e (update_server_request n body) w l =
      Changes-Linked e n w _ _ l
        (update_server-Changes c prefix column e.failing e.reads e.fault e.statuses n body w l)
  serve-IsLinked e (delete_server_request n) w l = delete_server-Linked e n w l
  serve-IsLinked e (desired_request n d) w l = set_desired-Linked e n d w l
  serve-IsLinked e (create_cluster_request none) w l = l
  serve-IsLinked e (create_cluster_request (some req)) w l = create_cluster-Linked e req w l
  serve-IsLinked e (update_cluster_request n body) w l = update_cluster-Linked e n body w l
  serve-IsLinked e (delete_cluster_request n) w l = delete_cluster-Linked e n w l

  -- After any sequence of requests, whatever failed in them, a server whose row is there can be
  -- resolved: it has a port of its own, or its cluster is there. It was so before the requests.
  pub serve_all-resolve_server :
      (rs : List (Weather × WriteRequest h)) (w : World h) (n : String) (row : ServerRow h)
      (e : StoreError)
      → IsLinked c w.store
      → get_server c (serve_all rs w).store n ≡ ok row
      → resolve_server h
          (get_server c (serve_all rs w).store)
          (get_cluster c (serve_all rs w).store)
          n
        ≢ err e
  serve_all-resolve_server [] w n row e l g = resolve_server-IsLinked c w.store n row e l g
  serve_all-resolve_server ((x, r) ∷ rs) w n row e l g =
      serve_all-resolve_server rs (serve x r w) n row e (serve-IsLinked x r w l) g
