-- ===== src/Database/Crud/Links.antt =====
-- A server row is reachable: it has a port of its own or a cluster that is there. What adding,
-- changing and deleting rows keeps of that.
use csfleet.Prelude.{
  ℕ, ◌≡◌, inl, inr, refl, Bool, true, false, ◌&&◌, not, List, [], ◌∷◌, ◌++◌, Option, none, some,
  String, arith, Option-cases,
}
use csfleet.Database.Rows.{Hours, ServerRow, ClusterRow}
use csfleet.Database.Sets.{Collation}
use csfleet.Database.Tables.{
  Store, select, delete, update_where, has_member, is_none, cluster_named,
}

module _ {h : Hours} (c : Collation) where
  -- server_reachable and the foreign key: a port of its own and no cluster, or the other way round.
  abbrev pub linked_at : List (ClusterRow h) → Option ℕ → Option String → Bool
  linked_at ks (some p) none = true
  linked_at ks none (some k) = not (is_none (cluster_named c k ks))
  linked_at ks _ _ = false

  unfoldable pub all_linked : List (ClusterRow h) → List (ServerRow h) → Bool
  all_linked ks [] = true
  all_linked ks (r ∷ rs) = linked_at ks r.port r.cluster && all_linked ks rs

  abbrev pub IsLinked : Store h → Type 0
  IsLinked t = all_linked t.clusters t.servers ≡ true

  abbrev pub has_cluster : String → List (ClusterRow h) → Bool
  has_cluster k ks = not (is_none (cluster_named c k ks))

  pub all_linked-append :
      (ks : List (ClusterRow h)) (rs : List (ServerRow h)) (r : ServerRow h)
      → all_linked ks rs ≡ true
      → linked_at ks r.port r.cluster ≡ true
      → all_linked ks (rs ++ (r ∷ [])) ≡ true
  unfolding all_linked
  all_linked-append ks [] r a l = ground arith
  all_linked-append ks (x ∷ rs) r a l = ground (arith, all_linked-append ks rs r)

  pub all_linked-delete :
      (ks : List (ClusterRow h)) (rs : List (ServerRow h)) (n : String)
      → all_linked ks rs ≡ true
      → all_linked ks (delete (λ (r : ServerRow h). r.name) c.same n rs) ≡ true
  unfolding all_linked delete
  all_linked-delete ks [] n a = refl
  all_linked-delete ks (x ∷ rs) n a = ground (arith, all_linked-delete ks rs n)

  pub all_linked-update_where :
      (ks : List (ClusterRow h)) (rs : List (ServerRow h)) (n : String)
      (f : ServerRow h → ServerRow h)
      → ((r : ServerRow h)
          → linked_at ks r.port r.cluster ≡ true
          → linked_at ks (f r).port (f r).cluster ≡ true)
      → all_linked ks rs ≡ true
      → all_linked ks (update_where (λ (r : ServerRow h). r.name) c.same n f rs) ≡ true
  unfolding all_linked update_where
  all_linked-update_where ks [] n f keeps a = refl
  all_linked-update_where ks (x ∷ rs) n f keeps a =
      ground (arith, keeps x, all_linked-update_where ks rs n f keeps)

  -- Clusters that keep the ones that the servers name.
  pub all_linked-clusters :
      (ks ks' : List (ClusterRow h)) (rs : List (ServerRow h))
      → ((k : String)
          → has_member c k rs ≡ true
          → has_cluster k ks ≡ true
          → has_cluster k ks' ≡ true)
      → all_linked ks rs ≡ true
      → all_linked ks' rs ≡ true
  unfolding all_linked has_member
  all_linked-clusters ks ks' [] keeps a = refl
  all_linked-clusters ks ks' (x ∷ rs) keeps a =
      let rest = all_linked-clusters ks ks' rs (λ k m. keeps k (ground arith)) (ground arith) in
      elim (Option-cases x.cluster) [
        | inl q ↦ ground arith
        | inr (k, q) ↦ ground (arith, keeps k, c.same_refl k)
      ]

  pub has_cluster-append :
      (k : String) (ks : List (ClusterRow h)) (new : ClusterRow h)
      → has_cluster k ks ≡ true
      → has_cluster k (ks ++ (new ∷ [])) ≡ true
  unfolding select
  has_cluster-append k [] new e = ground arith
  has_cluster-append k (x ∷ ks) new e = ground (arith, has_cluster-append k ks new)

  pub has_cluster-delete :
      (k n : String) (ks : List (ClusterRow h))
      → c.same n k ≡ false
      → has_cluster k ks ≡ true
      → has_cluster k (delete (λ (r : ClusterRow h). r.name) c.same n ks) ≡ true
  unfolding select delete
  has_cluster-delete k n [] a e = ground arith
  has_cluster-delete k n (x ∷ ks) a e =
      ground (arith, has_cluster-delete k n ks a, c.same_euclid n k x.name)

  pub has_cluster-update_where :
      (k n : String) (ks : List (ClusterRow h)) (new : ClusterRow h)
      → c.same n new.name ≡ true
      → has_cluster k ks ≡ true
      → has_cluster k (update_where (λ (r : ClusterRow h). r.name) c.same n (λ _. new) ks) ≡ true
  unfolding select update_where
  has_cluster-update_where k n [] new a e = ground arith
  has_cluster-update_where k n (x ∷ ks) new a e = ground (
    arith,
    has_cluster-update_where k n ks new a,
    c.same_euclid k n x.name,
    c.same_euclid new.name n new.name,
    c.same_refl new.name,
    c.same_euclid k new.name n,
  )
