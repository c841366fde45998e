-- ===== src/Database/Crud/Reachable.antt =====
-- The transactions of crud.go keep the server rows reachable, whichever of their statements fail.
use csfleet.Prelude.{
  ℕ, ◌+◌, ◌≡◌, inl, inr, Bool, true, false, List, [], ◌∷◌, Option, some, String, All, All-map,
  arith, Option-cases,
}
use csfleet.Database.Rows.{Hours, ClusterRow}
use csfleet.Database.Sets.{
  Scope, cluster, server, Collation, Statement, exec_all, transact, clear_items, clear_override,
}
use csfleet.Database.Tables.{Store}
use csfleet.Database.Crud.{
  create_cluster, delete_server, delete_cluster, assignments_tx, on_plugins, on_configs, clear_env,
}
use csfleet.Database.Crud.Links.{IsLinked}
use csfleet.Database.Crud.Writes.{exec-IsLinked, server_deleted, cluster_inserted, cluster_deleted}
use csfleet.Database.Crud.Creates.{
  KeepsRows, Commits, transact-Commits, assignments_tx-KeepsRows, on_plugins-KeepsRows,
  on_configs-KeepsRows,
}

module _ (h : Hours) (c : Collation) where
  abbrev KeepsLinked : Statement (Store h) → Type 0
  KeepsLinked q = (t u : Store h) → q t ≡ some u → IsLinked c t → IsLinked c u

  KeepsRows-KeepsLinked : (q : Statement (Store h)) → KeepsRows q → KeepsLinked q
  KeepsRows-KeepsLinked q k t u e l = rw ((k t u e).0, (k t u e).1) l

  exec_all-KeepsLinked :
      (fault : ℕ → Bool) (n : ℕ) (qs : List (Statement (Store h)))
      → All KeepsLinked qs
      → KeepsLinked (exec_all fault n qs)
  unfolding exec_all
  exec_all-KeepsLinked fault n [] a t u e l = ground arith
  exec_all-KeepsLinked fault n (q ∷ qs) a t u e l = elim (Option-cases (q t)) [
    | inl k ↦ ground arith
    | inr (v, k) ↦ exec_all-KeepsLinked fault (n + 1) qs a.1 v u (ground arith) (a.0 t v k l)
  ]

  after_commit :
      (t : Store h) (o : Bool × Store h) → IsLinked c t → Commits (IsLinked c) t o → IsLinked c o.1
  after_commit t (true, u) l e = e
  after_commit t (false, u) l e = rw e l

  transact-KeepsLinked :
      (fault : ℕ → Bool) (qs : List (Statement (Store h))) (t : Store h)
      → All KeepsLinked qs
      → IsLinked c t
      → IsLinked c (transact fault qs t).1
  transact-KeepsLinked fault qs t a l =
      after_commit t (transact fault qs t) l (
        transact-Commits (IsLinked c) fault qs t (λ u e. exec_all-KeepsLinked fault 1 qs a t u e l))

  assignments_tx-KeepsLinked :
      (sc : Scope) (n : String) (plugins configs : Option (List String))
      (env : List (String × String))
      → All KeepsLinked (assignments_tx c sc n plugins configs env)
  assignments_tx-KeepsLinked sc n plugins configs env =
      All-map (assignments_tx c sc n plugins configs env) KeepsRows-KeepsLinked
        (assignments_tx-KeepsRows h c sc n plugins configs env)

  pub create_cluster-IsLinked :
      (fault : ℕ → Bool) (r : ClusterRow h) (plugins configs : Option (List String))
      (env : List (String × String)) (t : Store h)
      → IsLinked c t
      → IsLinked c (create_cluster c fault r plugins configs env t).1
  unfolding create_cluster
  create_cluster-IsLinked fault r plugins configs env t = transact-KeepsLinked fault _ t (
    exec-IsLinked c (cluster_inserted r),
    assignments_tx-KeepsLinked cluster r.name plugins configs env,
  )

  cleared :
      (sc : Scope) (n : String)
      → All KeepsLinked (
          clear_env c sc n
          ∷ on_plugins c (clear_items c sc n)
          ∷ on_plugins c (clear_override c sc n)
          ∷ on_configs c (clear_items c sc n)
          ∷ on_configs c (clear_override c sc n)
          ∷ [])
  unfolding clear_env
  cleared sc n =
      let lift =
        All-map
          (on_plugins c (clear_items c sc n)
            ∷ on_plugins c (clear_override c sc n)
            ∷ on_configs c (clear_items c sc n)
            ∷ on_configs c (clear_override c sc n)
            ∷ [])
          KeepsRows-KeepsLinked in
      (
        λ t u e l. ground arith,
        lift (
          on_plugins-KeepsRows c (clear_items c sc n),
          (
            on_plugins-KeepsRows c (clear_override c sc n),
            (
              on_configs-KeepsRows c (clear_items c sc n),
              (on_configs-KeepsRows c (clear_override c sc n), tt),
            ),
          ),
        ),
      )

  pub delete_server-IsLinked :
      (fault : ℕ → Bool) (n : String) (t : Store h)
      → IsLinked c t
      → IsLinked c (delete_server c fault n t).1
  unfolding delete_server
  delete_server-IsLinked fault n t =
      transact-KeepsLinked fault _ t (exec-IsLinked c (server_deleted n), cleared server n)

  pub delete_cluster-IsLinked :
      (fault : ℕ → Bool) (n : String) (t : Store h)
      → IsLinked c t
      → IsLinked c (delete_cluster c fault n t).1
  unfolding delete_cluster
  delete_cluster-IsLinked fault n t =
      transact-KeepsLinked fault _ t (exec-IsLinked c (cluster_deleted n), cleared cluster n)
