-- ===== src/Database/Crud/Writes.antt =====
-- Every write of a server or cluster row keeps the server rows reachable, so that a resolution of a row
-- that is there never fails.
use csfleet.Prelude.{
  ◌≡◌, ◌≢◌, inl, inr, true, false, List, [], ◌∷◌, ◌++◌, some, String, arith, Bool-cases,
  Option-cases,
}
use csfleet.Database.Rows.{
  Hours, ServerRow, ClusterRow, stored_server, stored_cluster, DesiredState, StoreError, ok, err,
}
use csfleet.Database.Sets.{Collation, Statement}
use csfleet.Database.Tables.{
  Store, select, delete, update_where, get_server, get_cluster, has_member, server_named,
  cluster_named, placed, insert_server, insert_cluster, delete_server_row, delete_cluster_row,
}
use csfleet.Database.Resolve.{resolve_server}
use csfleet.Database.Crud.{update_server, update_server_desired_state, update_cluster}
use csfleet.Database.Crud.Links.{
  linked_at, all_linked, IsLinked, all_linked-append, all_linked-clusters, all_linked-delete,
  all_linked-update_where, has_cluster-append, has_cluster-delete, has_cluster-update_where,
}

-- The statements of crud.go that change a server or a cluster row.
pub data Write (h : Hours) : Type 0 where
  server_inserted : ServerRow h → Write h
  server_updated : String → ServerRow h → Write h
  state_updated : String → DesiredState → Write h
  server_deleted : String → Write h
  cluster_inserted : ClusterRow h → Write h
  cluster_updated : String → ClusterRow h → Write h
  cluster_deleted : String → Write h

module _ {h : Hours} (c : Collation) where
  insert_server-IsLinked :
      (r : ServerRow h) (t u : Store h) → insert_server c r t ≡ some u → IsLinked c t → IsLinked c u
  unfolding insert_server placed
  insert_server-IsLinked r t u e l =
      ground (arith, all_linked-append c t.clusters t.servers (stored_server r) l)

  insert_cluster-IsLinked :
      (r : ClusterRow h) (t u : Store h)
      → insert_cluster c r t ≡ some u
      → IsLinked c t
      → IsLinked c u
  unfolding insert_cluster
  insert_cluster-IsLinked r t u e l = ground (
    arith,
    all_linked-clusters c t.clusters (t.clusters ++ (stored_cluster r ∷ [])) t.servers
        (λ k m v. has_cluster-append c k t.clusters (stored_cluster r) v) l,
  )

  delete_server_row-IsLinked :
      (n : String) (t u : Store h) → delete_server_row c n t ≡ some u → IsLinked c t → IsLinked c u
  unfolding delete_server_row
  delete_server_row-IsLinked n t u e l =
      ground (arith, all_linked-delete c t.clusters t.servers n l)

  not_member :
      (n k : String) (rs : List (ServerRow h))
      → has_member c n rs ≡ false
      → has_member c k rs ≡ true
      → c.same n k ≡ false
  unfolding has_member
  not_member n k [] e m = ground arith
  not_member n k (x ∷ rs) e m = elim (Option-cases x.cluster) [
    | inl q ↦ ground (arith, not_member n k rs)
    | inr (y, q) ↦
        ground (arith, not_member n k rs, c.same_euclid n y k, c.same_euclid y k y, c.same_refl y)
  ]

  delete_cluster_row-IsLinked :
      (n : String) (t u : Store h) → delete_cluster_row c n t ≡ some u → IsLinked c t → IsLinked c u
  unfolding delete_cluster_row
  delete_cluster_row-IsLinked n t u e l = elim (Bool-cases (has_member {h = h} c n t.servers)) [
    | inl q ↦ ground arith
    | inr q ↦ ground (
      arith,
      all_linked-clusters c t.clusters (delete (λ (r : ClusterRow h). r.name) c.same n t.clusters)
          t.servers (λ k m v. has_cluster-delete c k n t.clusters (not_member n k t.servers q m) v)
          l,
    )
  ]

  update_server-IsLinked :
      (n : String) (r : ServerRow h) (t u : Store h)
      → update_server c n r t ≡ some u
      → IsLinked c t
      → IsLinked c u
  unfolding update_server placed
  update_server-IsLinked n r t u e l = elim (Option-cases (server_named c n t.servers)) [
    | inl q ↦ ground arith
    | inr (old, q) ↦
        let new : ServerRow h = stored_server (record r { name = old.name }) in
        ground (
          arith,
          λ (fine : linked_at c t.clusters r.port r.cluster ≡ true).
              all_linked-update_where c t.clusters t.servers n (λ _. new) (λ x v. fine) l,
        )
  ]

  update_server_desired_state-IsLinked :
      (n : String) (d : DesiredState) (t u : Store h)
      → update_server_desired_state c n d t ≡ some u
      → IsLinked c t
      → IsLinked c u
  unfolding update_server_desired_state
  update_server_desired_state-IsLinked n d t u e l = ground (
    arith,
    all_linked-update_where c t.clusters t.servers n
        (λ (s : ServerRow h). record s { desired_state = d }) (λ x v. v) l,
  )

  select-named :
      (n : String) (ks : List (ClusterRow h)) (old : ClusterRow h)
      → cluster_named c n ks ≡ some old
      → c.same n old.name ≡ true
  unfolding select
  select-named n [] old e = ground arith
  select-named n (x ∷ ks) old e = ground (arith, select-named n ks old)

  update_cluster-IsLinked :
      (n : String) (r : ClusterRow h) (t u : Store h)
      → update_cluster c n r t ≡ some u
      → IsLinked c t
      → IsLinked c u
  unfolding update_cluster
  update_cluster-IsLinked n r t u e l = elim (Option-cases (cluster_named c n t.clusters)) [
    | inl q ↦ ground arith
    | inr (old, q) ↦
        let new : ClusterRow h = stored_cluster (record r { name = old.name }) in
        ground (
          arith,
          all_linked-clusters c t.clusters
              (update_where (λ (k : ClusterRow h). k.name) c.same n (λ _. new) t.clusters) t.servers
              (λ k m v.
                has_cluster-update_where c k n t.clusters new (select-named n t.clusters old q) v)
              l,
        )
  ]

  abbrev pub exec : Write h → Statement (Store h)
  exec (server_inserted r) = insert_server c r
  exec (server_updated n r) = update_server c n r
  exec (state_updated n d) = update_server_desired_state c n d
  exec (server_deleted n) = delete_server_row c n
  exec (cluster_inserted r) = insert_cluster c r
  exec (cluster_updated n r) = update_cluster c n r
  exec (cluster_deleted n) = delete_cluster_row c n

  -- Every write keeps each server row reachable: with a port of its own, or with a cluster that is
  -- there.
  pub exec-IsLinked :
      (w : Write h) (t u : Store h) → exec w t ≡ some u → IsLinked c t → IsLinked c u
  exec-IsLinked (server_inserted r) = insert_server-IsLinked r
  exec-IsLinked (server_updated n r) = update_server-IsLinked n r
  exec-IsLinked (state_updated n d) = update_server_desired_state-IsLinked n d
  exec-IsLinked (server_deleted n) = delete_server_row-IsLinked n
  exec-IsLinked (cluster_inserted r) = insert_cluster-IsLinked r
  exec-IsLinked (cluster_updated n r) = update_cluster-IsLinked n r
  exec-IsLinked (cluster_deleted n) = delete_cluster_row-IsLinked n

  select-linked :
      (ks : List (ClusterRow h)) (rs : List (ServerRow h)) (n : String) (r : ServerRow h)
      → all_linked c ks rs ≡ true
      → server_named c n rs ≡ some r
      → linked_at c ks r.port r.cluster ≡ true
  unfolding all_linked select
  select-linked ks [] n r a e = ground arith
  select-linked ks (x ∷ rs) n r a e = ground (arith, select-linked ks rs n r)

  -- With every server row reachable, the resolution of a server whose row is there does not fail.
  pub resolve_server-IsLinked :
      (t : Store h) (n : String) (r : ServerRow h) (e : StoreError)
      → IsLinked c t
      → get_server c t n ≡ ok r
      → resolve_server h (get_server c t) (get_cluster c t) n ≢ err e
  unfolding get_server get_cluster resolve_server
  resolve_server-IsLinked t n r e l g bad = ground (arith, select-linked t.clusters t.servers n r l)
