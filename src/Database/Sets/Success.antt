-- ===== src/Database/Sets/Success.antt =====
-- When a set transaction succeeds, and that a failed one changes nothing.
use csfleet.Prelude.{
  ℕ, ◌+◌, ◌≡◌, refl, Bool, true, false, ◌&&◌, not, length, List, [], ◌∷◌, ◌++◌, Option, none, some,
  String, arith,
}
use csfleet.Database.Sets.{
  Scope, Assignment, Sets, Collation, Statement, exec_all, transact, items_at, has_name, names,
  mark_override, clear_items, assign_item, assign_items, set_tx, set_scoped,
}
use csfleet.Database.Sets.Inheritance.{cleared, items_at-cleared}
use csfleet.Database.Sets.Places.{is_at_self, items_at-append}

module _ (c : Collation) where
  open c use {same}

  -- No name twice, up to the collation.
  abbrev pub distinct : List String → Bool
  distinct [] = true
  distinct (x ∷ xs) = not (has_name c x xs) && distinct xs

  abbrev pub all_known : List String → List String → Bool
  all_known catalog [] = true
  all_known catalog (x ∷ xs) = has_name c x catalog && all_known catalog xs

  -- No name of the first list is in the second.
  abbrev disjoint : List String → List String → Bool
  disjoint [] ys = true
  disjoint (x ∷ xs) ys = not (has_name c x ys) && disjoint xs ys

  same-sym : (a b : String) → same a b ≡ false → same b a ≡ false
  same-sym a b e = ground (arith, c.same_euclid a b a, c.same_refl a)

  has_name-append :
      (x y : String) (ys : List String)
      → has_name c x ys ≡ false
      → same x y ≡ false
      → has_name c x (ys ++ (y ∷ [])) ≡ false
  unfolding has_name
  has_name-append x y [] e k = ground arith
  has_name-append x y (z ∷ ys) e k = ground (arith, has_name-append x y ys)

  disjoint-append :
      (xs : List String) (y : String) (ys : List String)
      → disjoint xs ys ≡ true
      → has_name c y xs ≡ false
      → disjoint xs (ys ++ (y ∷ [])) ≡ true
  unfolding has_name
  disjoint-append [] y ys e k = refl
  disjoint-append (x ∷ xs) y ys e k =
      ground (arith, disjoint-append xs y ys, has_name-append x y ys, same-sym y x)

  disjoint-nil : (xs : List String) → disjoint xs [] ≡ true
  unfolding has_name
  disjoint-nil [] = refl
  disjoint-nil (x ∷ xs) = ground (arith, disjoint-nil xs)

  is_some : {A : Type 0} → Option A → Bool
  is_some none = false
  is_some (some a) = true

  exec_all-succeeds :
      (fault : ℕ → Bool) (k : ℕ) (sc : Scope) (n : String) (xs : List String) (t : Sets)
      → ((i : ℕ) → fault i ≡ false)
      → all_known (names t.catalog) xs ≡ true
      → distinct xs ≡ true
      → disjoint xs (items_at c sc n t.assignments) ≡ true
      → is_some (exec_all fault k (assign_items c sc n xs) t) ≡ true
  unfolding exec_all assign_items assign_item is_some items_at
  exec_all-succeeds fault k sc n [] t fine a d j = refl
  exec_all-succeeds fault k sc n (x ∷ xs) t fine a d j =
      let row : Assignment = record { item = x; scope = sc; scope_name = n } in
      let t' = record t { assignments = t.assignments ++ (row ∷ []) } in
      let items = items_at-append c sc n t.assignments (row ∷ []) in
      ground (
        arith,
        fine k,
        items,
        is_at_self c sc n,
        disjoint-append xs x (items_at c sc n t.assignments),
        exec_all-succeeds fault (k + 1) sc n xs t' fine,
      )

  transact-succeeds :
      {A : Type 0} (fault : ℕ → Bool) (qs : List (Statement A)) (a : A)
      → ((i : ℕ) → fault i ≡ false)
      → is_some (exec_all fault 1 qs a) ≡ true
      → (transact fault qs a).0 ≡ true
  unfolding transact is_some
  transact-succeeds fault qs a fine e = ground (arith, fine 0, fine (1 + length qs))

  transact-false :
      {A : Type 0} (fault : ℕ → Bool) (qs : List (Statement A)) (a : A)
      → (transact fault qs a).0 ≡ false
      → (transact fault qs a).1 ≡ a
  unfolding transact
  transact-false fault qs a e = ground arith

  exec_all-cleared :
      (fault : ℕ → Bool) (sc : Scope) (n : String) (xs : List String) (t : Sets)
      → ((i : ℕ) → fault i ≡ false)
      → exec_all fault 1 (set_tx c sc n xs) t
        ≡ exec_all fault 3 (assign_items c sc n xs) (cleared c sc n t)
  unfolding set_tx exec_all mark_override clear_items cleared
  exec_all-cleared fault sc n xs t fine = ground (arith, fine 1, fine 2)

  -- Setting a scope to a list of known names without a repetition succeeds when no call fails by
  -- itself; and a transaction that does not succeed, for whatever reason, changes no table.
  pub set_scoped-atomic :
      (fault : ℕ → Bool) (sc : Scope) (n : String) (xs : List String) (t : Sets)
      → (((i : ℕ) → fault i ≡ false)
          → all_known (names t.catalog) xs ≡ true
          → distinct xs ≡ true
          → (set_scoped c fault sc n xs t).0 ≡ true)
        × ((set_scoped c fault sc n xs t).0 ≡ false → (set_scoped c fault sc n xs t).1 ≡ t)
  unfolding set_scoped cleared
  set_scoped-atomic fault sc n xs t = (
    λ fine a d.
        let done =
          exec_all-succeeds fault 3 sc n xs (cleared c sc n t) fine a d
            (rw ((items_at-cleared c sc n t).0) (disjoint-nil xs)) in
        transact-succeeds fault (set_tx c sc n xs) t fine
          (rw (exec_all-cleared fault sc n xs t fine) done),
    transact-false fault (set_tx c sc n xs) t,
  )
