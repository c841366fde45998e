-- ===== src/Database/Tables.antt =====
-- orchestration/database/crud.go: the rows of the store's tables and the statements on them, with the
-- constraints and triggers of schema.go's migrate. A statement that would break one is an error.
use csfleet.Prelude.{
  ℕ, Bool, true, false, ◌&&◌, ◌||◌, not, List, [], ◌∷◌, ◌++◌, Option, none, some, String,
  if◌then◌else◌, ◌==◌, ltb,
}
use csfleet.Database.Rows.{
  Hours, ServerRow, ClusterRow, stored_server, stored_cluster, Result, ok, err, no_rows,
}
use csfleet.Database.Env.{EnvVarRow}
use csfleet.Database.Sets.{Sets, Collation, Statement}

pub record Store (h : Hours) : Type 0 where
  pub servers : List (ServerRow h)
  pub clusters : List (ClusterRow h)
  pub plugins : Sets
  pub configs : Sets
  pub env : List EnvVarRow

module _ {A : Type 0} (name : A → String) (same : String → String → Bool) where
  -- SELECT ... WHERE name = ?
  unfoldable pub select : String → List A → Option A
  select n [] = none
  select n (r ∷ rs) = if same n (name r) then some r else select n rs

  -- DELETE FROM ... WHERE name = ?
  unfoldable pub delete : String → List A → List A
  delete n [] = []
  delete n (r ∷ rs) = let rest = delete n rs in if same n (name r) then rest else r ∷ rest

  -- UPDATE ... WHERE name = ?
  unfoldable pub update_where : String → (A → A) → List A → List A
  update_where n f [] = []
  update_where n f (r ∷ rs) =
      let rest = update_where n f rs in if same n (name r) then f r ∷ rest else r ∷ rest

  -- INSERT ... ON DUPLICATE KEY UPDATE: the row that is there changes, else the new one is added.
  unfoldable pub upsert : A → (A → A) → List A → List A
  upsert new f rows = elim (select (name new) rows) [
    | none ↦ rows ++ (new ∷ [])
    | some r ↦ update_where (name new) f rows
  ]

-- The values of an INT column are below 2^31. In strict mode a larger one is an error.
abbrev pub fits_int : ℕ → Bool
fits_int p = ltb p 2147483648

abbrev pub same_port : Option ℕ → Option ℕ → Bool
same_port (some p) (some q) = p == q
same_port _ _ = false

abbrev pub is_none : {A : Type 0} → Option A → Bool
is_none none = true
is_none (some a) = false

module _ {h : Hours} (c : Collation) where
  open c use {same}

  abbrev pub server_named : String → List (ServerRow h) → Option (ServerRow h)
  server_named = select (λ (r : ServerRow h). r.name) same

  abbrev pub cluster_named : String → List (ClusterRow h) → Option (ClusterRow h)
  cluster_named = select (λ (r : ClusterRow h). r.name) same

  -- A server row that the unique keys of `rows` keep out.
  unfoldable pub clashes : ServerRow h → List (ServerRow h) → Bool
  clashes r [] = false
  clashes r (s ∷ rows) =
      same r.name s.name || same r.ip s.ip || same_port r.port s.port || clashes r rows

  unfoldable pub cluster_has_port : ℕ → List (ClusterRow h) → Bool
  cluster_has_port p [] = false
  cluster_has_port p (k ∷ ks) = k.port == p || cluster_has_port p ks

  unfoldable pub server_has_port : ℕ → List (ServerRow h) → Bool
  server_has_port p [] = false
  server_has_port p (r ∷ rs) = same_port (some p) r.port || server_has_port p rs

  -- server_reachable, the foreign key to the clusters, the port trigger, and the column's range.
  unfoldable pub placed : List (ClusterRow h) → Option ℕ → Option String → Bool
  placed clusters (some p) none = fits_int p && not (cluster_has_port p clusters)
  placed clusters none (some k) = not (is_none (cluster_named k clusters))
  placed clusters (some p) (some k) = false
  placed clusters none none = false

  -- GetServer and GetCluster.
  unfoldable pub get_server : Store h → String → Result (ServerRow h)
  get_server t n = elim (server_named n t.servers) [ none ↦ err no_rows | some r ↦ ok r ]

  unfoldable pub get_cluster : Store h → String → Result (ClusterRow h)
  get_cluster t n = elim (cluster_named n t.clusters) [ none ↦ err no_rows | some r ↦ ok r ]

  -- The INSERT of CreateServer.
  unfoldable pub insert_server : ServerRow h → Statement (Store h)
  insert_server r t =
      if placed t.clusters r.port r.cluster && not (clashes r t.servers)
      then some (record t { servers = t.servers ++ (stored_server r ∷ []) })
      else none

  -- The INSERT of CreateCluster.
  unfoldable pub insert_cluster : ClusterRow h → Statement (Store h)
  insert_cluster r t =
      if fits_int r.port
        && is_none (cluster_named r.name t.clusters)
        && not (cluster_has_port r.port t.clusters)
        && not (server_has_port r.port t.servers)
      then some (record t { clusters = t.clusters ++ (stored_cluster r ∷ []) })
      else none

  -- A server that belongs to the cluster keeps it from being deleted.
  unfoldable pub has_member : String → List (ServerRow h) → Bool
  has_member n [] = false
  has_member n (r ∷ rs) = elim r.cluster [
    | none ↦ has_member n rs
    | some k ↦ if same n k then true else has_member n rs
  ]

  unfoldable pub delete_server_row : String → Statement (Store h)
  delete_server_row n t =
      some (record t { servers = delete (λ (r : ServerRow h). r.name) same n t.servers })

  unfoldable pub delete_cluster_row : String → Statement (Store h)
  delete_cluster_row n t =
      if has_member n t.servers
      then none
      else some (record t { clusters = delete (λ (r : ClusterRow h). r.name) same n t.clusters })
