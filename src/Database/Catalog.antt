-- ===== src/Database/Catalog.antt =====
-- orchestration/database/crud.go: the plugin manifests and the config files, two tables with the same
-- operations, and orchestration/database/users.go.
use csfleet.Prelude.{
  ◌≡◌, ◌≢◌, inl, inr, refl, Bool, true, false, ◌||◌, List, [], ◌∷◌, ◌++◌, Option, none, some,
  String, arith, Bool-cases, if◌then◌else◌,
}
use csfleet.Database.Rows.{Result, ok, err, no_rows}
use csfleet.Database.Sets.{Sets, Entry, Assignment, Collation, Statement}
use csfleet.Database.Tables.{select, delete, update_where, upsert}

abbrev pub HasBody : Entry → Result Entry → Type 0
HasBody e (ok r) = (r.filename ≡ e.filename) × (r.content ≡ e.content)
HasBody e (err m) = ⊥

module _ (c : Collation) where
  open c use {same}

  abbrev entry_named : String → List Entry → Option Entry
  entry_named = select (λ (e : Entry). e.name) same

  -- UpsertManifest and UpsertConfigFile: the row that is there keeps its name.
  unfoldable pub upsert_entry : Entry → Sets → Sets
  upsert_entry e t = record t {
    catalog =
        upsert (λ (r : Entry). r.name) same e
          (λ r. record r { filename = e.filename; content = e.content }) t.catalog;
  }

  -- GetConfigFile, LoadConfigFile and LoadManifest.
  unfoldable pub get_entry : Sets → String → Result Entry
  get_entry t n = elim (entry_named n t.catalog) [ none ↦ err no_rows | some e ↦ ok e ]

  unfoldable pub is_assigned : String → List Assignment → Bool
  is_assigned n [] = false
  is_assigned n (a ∷ rows) = same n a.item || is_assigned n rows

  -- DeleteManifest and DeleteConfigFile: the foreign key refuses an entry that is assigned.
  unfoldable pub delete_entry : String → Statement Sets
  delete_entry n t =
      if is_assigned n t.assignments
      then none
      else some (record t { catalog = delete (λ (e : Entry). e.name) same n t.catalog })

  same_row : (a b x : String) → same a x ≡ true → same a b ≡ false → same b x ≡ false
  same_row a b x e k = ground (arith, c.same_euclid a b x)

  select-append :
      (n : String) (rows : List Entry) (e : Entry)
      → entry_named e.name rows ≡ none
      → (entry_named e.name (rows ++ (e ∷ [])) ≡ some e)
        × (same e.name n ≡ false
            → same n e.name ≡ false
            → entry_named n (rows ++ (e ∷ [])) ≡ entry_named n rows)
  unfolding select
  select-append n [] e a = ground (arith, c.same_refl e.name)
  select-append n (r ∷ rs) e a = ground (arith, select-append n rs e)

  abbrev body_of : Entry → Entry → Entry
  body_of e r = record r { filename = e.filename; content = e.content }

  select-update_where :
      (n : String) (rows : List Entry) (e : Entry)
      → (entry_named e.name rows ≢ none
          → HasBody e
              (elim (entry_named e.name
                (update_where (λ (r : Entry). r.name) same e.name (body_of e) rows)) [
                  | none ↦ err no_rows
                  | some r ↦ ok r
                ]))
        × (same e.name n ≡ false
            → entry_named n (update_where (λ (r : Entry). r.name) same e.name (body_of e) rows)
              ≡ entry_named n rows)
  unfolding select update_where
  select-update_where n [] e = ground arith
  select-update_where n (r ∷ rs) e =
      ground (arith, select-update_where n rs e, same_row e.name n r.name)

  -- What was written is what is read, under every name that is the same; the other entries are as
  -- before.
  pub upsert-get :
      (e : Entry) (n : String) (t : Sets)
      → HasBody e (get_entry (upsert_entry e t) e.name)
        × (same e.name n ≡ false
            → same n e.name ≡ false
            → get_entry (upsert_entry e t) n ≡ get_entry t n)
  unfolding get_entry upsert_entry upsert
  upsert-get e n t = ground (arith, select-append n t.catalog e, select-update_where n t.catalog e)

  -- Every assigned item is in the catalog.
  abbrev pub AllListed : List Assignment → List Entry → Type 0
  AllListed [] es = Unit
  AllListed (a ∷ rows) es = (entry_named a.item es ≢ none) × AllListed rows es

  select-delete_other :
      (n m : String) (es : List Entry)
      → same n m ≡ false
      → entry_named m (delete (λ (e : Entry). e.name) same n es) ≡ entry_named m es
  unfolding select delete
  select-delete_other n m [] a = refl
  select-delete_other n m (e ∷ es) a =
      ground (arith, select-delete_other n m es a, same_row n m e.name)

  AllListed-delete :
      (n : String) (rows : List Assignment) (es : List Entry)
      → is_assigned n rows ≡ false
      → AllListed rows es
      → AllListed rows (delete (λ (e : Entry). e.name) same n es)
  unfolding is_assigned
  AllListed-delete n [] es a l = tt
  AllListed-delete n (r ∷ rows) es a l = (
    λ e. l.0 (ground (arith, select-delete_other n r.item es)),
    AllListed-delete n rows es (ground arith) l.1,
  )

  -- Deleting a manifest or a config file never leaves an assignment to something that is gone.
  pub delete_entry-AllListed :
      (n : String) (t u : Sets)
      → delete_entry n t ≡ some u
      → AllListed t.assignments t.catalog
      → AllListed u.assignments u.catalog
  unfolding delete_entry
  delete_entry-AllListed n t u e l = elim (Bool-cases (is_assigned n t.assignments)) [
    | inl q ↦ ground arith
    | inr q ↦
        let kept : u.assignments ≡ t.assignments = ground arith in
        let left : u.catalog ≡ delete (λ (e : Entry). e.name) same n t.catalog = ground arith in
        rw (kept, left) (AllListed-delete n t.assignments t.catalog q l)
  ]
