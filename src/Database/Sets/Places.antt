-- ===== src/Database/Sets/Places.antt =====
-- A row of one place, a scope with a name, is never a row of another.
use csfleet.Prelude.{
  ℕ, ◌+◌, ◌≡◌, inl, inr, refl, Bool, true, false, List, ◌++◌, [], ◌∷◌, some, String, arith, ◌∙◌,
  Option-cases,
}
use mathlib.Core.List.{append_assoc, append-nil}
use csfleet.Database.Sets.{
  Scope, same_scope, Marker, Assignment, Sets, Collation, exec_all, is_at, has_marker,
  delete_markers, items_at, delete_items, assign_item, assign_items,
}

module _ (c : Collation) where
  pub is_at_self : (sc : Scope) (n : String) → is_at c sc n sc n ≡ true
  is_at_self sc n = ground (arith, c.same_refl n)

  pub items_at-delete_items :
      (sc : Scope) (n : String) (rows : List Assignment)
      → items_at c sc n (delete_items c sc n rows) ≡ []
  unfolding items_at delete_items
  items_at-delete_items sc n [] = refl
  items_at-delete_items sc n (a ∷ rows) = ground (arith, items_at-delete_items sc n rows)

  pub has_marker-delete_markers :
      (sc : Scope) (n : String) (ms : List Marker)
      → has_marker c sc n (delete_markers c sc n ms) ≡ false
  unfolding has_marker delete_markers
  has_marker-delete_markers sc n [] = refl
  has_marker-delete_markers sc n (m ∷ ms) = ground (arith, has_marker-delete_markers sc n ms)

  same_scope-euclid :
      (a b x : Scope) → same_scope a x ≡ true → same_scope b x ≡ true → same_scope a b ≡ true
  same_scope-euclid a b x e k = ground arith

  -- No row is at two places that are apart.
  apart :
      (sc : Scope) (n : String) (sc' : Scope) (n' : String) (sr : Scope) (r : String)
      → is_at c sc n sc' n' ≡ false
      → is_at c sc n sr r ≡ true
      → is_at c sc' n' sr r ≡ false
  apart sc n sc' n' sr r e k = ground (arith, same_scope-euclid sc sc' sr, c.same_euclid n n' r)

  pub items_at-delete_other :
      (sc : Scope) (n : String) (sc' : Scope) (n' : String) (rows : List Assignment)
      → is_at c sc n sc' n' ≡ false
      → items_at c sc n (delete_items c sc' n' rows) ≡ items_at c sc n rows
  unfolding items_at delete_items
  items_at-delete_other sc n sc' n' [] e = refl
  items_at-delete_other sc n sc' n' (a ∷ rows) e =
      ground
        (arith, items_at-delete_other sc n sc' n' rows e, apart sc n sc' n' a.scope a.scope_name e)

  pub has_marker-delete_other :
      (sc : Scope) (n : String) (sc' : Scope) (n' : String) (ms : List Marker)
      → is_at c sc n sc' n' ≡ false
      → has_marker c sc n (delete_markers c sc' n' ms) ≡ has_marker c sc n ms
  unfolding has_marker delete_markers
  has_marker-delete_other sc n sc' n' [] e = refl
  has_marker-delete_other sc n sc' n' (m ∷ ms) e =
      ground
        (arith, has_marker-delete_other sc n sc' n' ms e, apart sc n sc' n' m.scope m.scope_name e)

  pub items_at-append :
      (sc : Scope) (n : String) (as_rows bs : List Assignment)
      → items_at c sc n (as_rows ++ bs) ≡ items_at c sc n as_rows ++ items_at c sc n bs
  unfolding items_at
  items_at-append sc n [] bs = refl
  items_at-append sc n (a ∷ rows) bs = ground (arith, items_at-append sc n rows bs)

  -- After assign_items: the marks are kept, the place has the new items after its old ones, and the
  -- other places have what they had.
  abbrev pub Assigned : Scope → String → List String → Sets → Sets → Type 0
  Assigned sc n xs t u =
      (u.overrides ≡ t.overrides)
      × (items_at c sc n u.assignments ≡ items_at c sc n t.assignments ++ xs)
      × ((sc' : Scope) (n' : String)
          → is_at c sc' n' sc n ≡ false
          → items_at c sc' n' u.assignments ≡ items_at c sc' n' t.assignments)

  assign_item-Assigned :
      (sc : Scope) (n x : String) (t u : Sets)
      → assign_item c sc n x t ≡ some u
      → Assigned sc n (x ∷ []) t u
  unfolding assign_item items_at
  assign_item-Assigned sc n x t u e =
      let last : List Assignment = record { item = x; scope = sc; scope_name = n } ∷ [] in
      (
        ground arith,
        ground (arith, items_at-append sc n t.assignments last, is_at_self sc n),
        λ sc' n' a. ground (
          arith,
          items_at-append sc' n' t.assignments last,
          append-nil (items_at c sc' n' t.assignments),
        ),
      )

  pub exec_all-Assigned :
      (fault : ℕ → Bool) (k : ℕ) (sc : Scope) (n : String) (xs : List String) (t u : Sets)
      → exec_all fault k (assign_items c sc n xs) t ≡ some u
      → Assigned sc n xs t u
  unfolding exec_all assign_items
  exec_all-Assigned fault k sc n [] t u e =
      ground (arith, append-nil (items_at c sc n t.assignments))
  exec_all-Assigned fault k sc n (x ∷ xs) t u e = elim (Option-cases (assign_item c sc n x t)) [
    | inl q ↦ ground arith
    | inr (m, q) ↦
        let one = assign_item-Assigned sc n x t m q in
        let rest = exec_all-Assigned fault (k + 1) sc n xs m u (ground arith) in
        (
          rest.0 ∙ one.0,
          ground (arith, one, rest, append_assoc (items_at c sc n t.assignments) (x ∷ []) xs),
          λ sc' n' a. rest.2 sc' n' a ∙ one.2 sc' n' a,
        )
  ]
