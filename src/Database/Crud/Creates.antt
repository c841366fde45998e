-- ===== src/Database/Crud/Creates.antt =====
-- What the transaction of CreateServer does to the rows: the new one is added, or nothing changes.
use csfleet.Prelude.{
  ℕ, ◌+◌, ◌≡◌, refl, inl, inr, Bool, true, false, List, [], ◌∷◌, ◌++◌, map, Option, none, some,
  String, All, arith, Option-cases, Bool-cases, length,
}
use csfleet.Database.Rows.{Hours, ServerRow, stored_server, ok}
use csfleet.Database.Sets.{Scope, server, Sets, Collation, Statement, exec_all, transact}
use csfleet.Database.Tables.{
  Store, select, clashes, placed, get_server, insert_server, server_named,
}
use csfleet.Database.Crud.{
  create_server, assignments_tx, set_optional, set_all_env, on_plugins, on_configs, set_env_tx,
}
use csfleet.Database.Crud.Links.{IsLinked, all_linked-append}

module _ {A : Type 0} (P : A → Type 0) where
  -- A transaction that commits gives `P`; one that does not leaves the tables.
  abbrev pub Commits : A → Bool × A → Type 0
  Commits a (true, b) = P b
  Commits a (false, b) = b ≡ a

  pub transact-Commits :
      (fault : ℕ → Bool) (qs : List (Statement A)) (a : A)
      → ((u : A) → exec_all fault 1 qs a ≡ some u → P u)
      → Commits a (transact fault qs a)
  unfolding transact
  transact-Commits fault qs a f = elim (Bool-cases (fault 0)) [
    | inl e ↦ rw e refl
    | inr e ↦ elim (Option-cases (exec_all fault 1 qs a)) [
      | inl k ↦ rw (e, k) refl
      | inr (u, k) ↦ elim (Bool-cases (fault (1 + length qs))) [
        | inl q ↦ rw (e, k, q) refl
        | inr q ↦ rw (e, k, q) (f u k)
      ]
    ]
  ]

module _ {h : Hours} where
  -- A statement that changes no server and no cluster.
  abbrev pub KeepsRows : Statement (Store h) → Type 0
  KeepsRows q = (t u : Store h) → q t ≡ some u → (u.servers ≡ t.servers) × (u.clusters ≡ t.clusters)

  pub on_plugins-KeepsRows : (c : Collation) (q : Statement Sets) → KeepsRows (on_plugins c q)
  unfolding on_plugins
  on_plugins-KeepsRows c q t u e = ground arith

  pub on_configs-KeepsRows : (c : Collation) (q : Statement Sets) → KeepsRows (on_configs c q)
  unfolding on_configs
  on_configs-KeepsRows c q t u e = ground arith

  lifted-KeepsRows :
      (lift : Statement Sets → Statement (Store h))
      → ((q : Statement Sets) → KeepsRows (lift q))
      → (qs : List (Statement Sets)) → All KeepsRows (map lift qs)
  lifted-KeepsRows lift k [] = tt
  lifted-KeepsRows lift k (q ∷ qs) = (k q, lifted-KeepsRows lift k qs)

  All-append :
      (as_ bs : List (Statement (Store h)))
      → All KeepsRows as_
      → All KeepsRows bs
      → All KeepsRows (as_ ++ bs)
  All-append [] bs a b = b
  All-append (q ∷ as_) bs a b = (a.0, All-append as_ bs a.1 b)

  exec_all-KeepsRows :
      (fault : ℕ → Bool) (n : ℕ) (qs : List (Statement (Store h))) (t u : Store h)
      → All KeepsRows qs
      → exec_all fault n qs t ≡ some u
      → (u.servers ≡ t.servers) × (u.clusters ≡ t.clusters)
  unfolding exec_all
  exec_all-KeepsRows fault n [] t u a e = ground arith
  exec_all-KeepsRows fault n (q ∷ qs) t u a e = elim (Option-cases (q t)) [
    | inl k ↦ ground arith
    | inr (v, k) ↦ ground (arith, a.0 t v k, exec_all-KeepsRows fault (n + 1) qs v u a.1)
  ]

module _ (h : Hours) (c : Collation) where
  set_optional-KeepsRows :
      (lift : Statement Sets → Statement (Store h)) (sc : Scope) (n : String)
      (o : Option (List String))
      → ((q : Statement Sets) → KeepsRows (lift q))
      → All KeepsRows (set_optional c lift sc n o)
  unfolding set_optional
  set_optional-KeepsRows lift sc n none k = tt
  set_optional-KeepsRows lift sc n (some xs) k = lifted-KeepsRows lift k _

  set_all_env-KeepsRows :
      (sc : Scope) (n : String) (env : List (String × String))
      → All KeepsRows (set_all_env {h = h} c sc n env)
  unfolding set_all_env set_env_tx
  set_all_env-KeepsRows sc n [] = tt
  set_all_env-KeepsRows sc n ((k, v) ∷ rest) =
      (λ t u e. ground arith, set_all_env-KeepsRows sc n rest)

  pub assignments_tx-KeepsRows :
      (sc : Scope) (n : String) (plugins configs : Option (List String))
      (env : List (String × String))
      → All KeepsRows (assignments_tx {h = h} c sc n plugins configs env)
  unfolding assignments_tx
  assignments_tx-KeepsRows sc n plugins configs env =
      All-append
        (set_optional c (on_plugins c) sc n plugins ++ set_optional c (on_configs c) sc n configs) _
        (All-append (set_optional c (on_plugins c) sc n plugins) _
          (set_optional-KeepsRows (on_plugins c) sc n plugins (on_plugins-KeepsRows c))
          (set_optional-KeepsRows (on_configs c) sc n configs (on_configs-KeepsRows c)))
        (set_all_env-KeepsRows sc n env)

module _ {h : Hours} (c : Collation) where
  -- The row is new, and can be reached.
  pub record Creates (r : ServerRow h) (t u : Store h) : Type 0 where
    pub servers : u.servers ≡ t.servers ++ (stored_server r ∷ [])
    pub clusters : u.clusters ≡ t.clusters
    pub new : clashes c r t.servers ≡ false
    pub is_placed : placed c t.clusters r.port r.cluster ≡ true

  insert_server-Creates :
      (r : ServerRow h) (t u v : Store h)
      → insert_server c r t ≡ some u
      → (v.servers ≡ u.servers) × (v.clusters ≡ u.clusters)
      → Creates r t v
  unfolding insert_server
  insert_server-Creates r t u v e k = record {
    servers = ground arith;
    clusters = ground arith;
    new = ground arith;
    is_placed = ground arith;
  }

  exec_all-Creates :
      (fault : ℕ → Bool) (r : ServerRow h) (qs : List (Statement (Store h))) (t u : Store h)
      → All KeepsRows qs
      → exec_all fault 1 (insert_server c r ∷ qs) t ≡ some u
      → Creates r t u
  unfolding exec_all
  exec_all-Creates fault r qs t u a e = elim (Option-cases (insert_server c r t)) [
    | inl k ↦ ground arith
    | inr (v, k) ↦
        insert_server-Creates r t v u k (exec_all-KeepsRows fault 2 qs v u a (ground arith))
  ]

  -- CreateServer adds the row behind the others and touches no other server and no cluster, or it
  -- changes nothing.
  pub create_server-Creates :
      (fault : ℕ → Bool) (r : ServerRow h) (plugins configs : Option (List String))
      (env : List (String × String)) (t : Store h)
      → Commits (Creates r t) t (create_server c fault r plugins configs env t)
  unfolding create_server
  create_server-Creates fault r plugins configs env t =
      let qs = assignments_tx c server r.name plugins configs env in
      let kept = assignments_tx-KeepsRows h c server r.name plugins configs env in
      transact-Commits (Creates r t) fault (insert_server c r ∷ qs) t
        (λ u e. exec_all-Creates fault r qs t u kept e)

  select-last :
      (r : ServerRow h) (rows : List (ServerRow h))
      → clashes c r rows ≡ false
      → server_named c r.name (rows ++ (stored_server r ∷ [])) ≡ some (stored_server r)
  unfolding select clashes
  select-last r [] e = ground (arith, c.same_refl r.name)
  select-last r (s ∷ rows) e = ground (arith, select-last r rows)

  pub get_server-Creates :
      (r : ServerRow h) (t u : Store h)
      → Creates r t u
      → get_server c u r.name ≡ ok (stored_server r)
  unfolding get_server
  get_server-Creates r t u k = ground (arith, k.servers, select-last r t.servers k.new)

  pub IsLinked-Creates :
      (r : ServerRow h) (t u : Store h) → Creates r t u → IsLinked c t → IsLinked c u
  unfolding placed
  IsLinked-Creates r t u k l =
      rw (k.servers, k.clusters)
        (all_linked-append c t.clusters t.servers (stored_server r) l (ground (arith, k.is_placed)))

  -- Without sets of its own, a row that the constraints let in is added.
  pub create_server-insert_server :
      (r : ServerRow h) (t : Store h)
      → placed c t.clusters r.port r.cluster ≡ true
      → clashes c r t.servers ≡ false
      → create_server c (λ n. false) r none none [] t
        ≡ (true, record t { servers = t.servers ++ (stored_server r ∷ []) })
  unfolding create_server transact exec_all insert_server assignments_tx set_optional set_all_env
  create_server-insert_server r t p q = ground arith
