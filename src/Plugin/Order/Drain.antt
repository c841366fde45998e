-- ===== src/Plugin/Order/Drain.antt =====
-- The loop that takes ready names off the queue: every name whose requirements are all installed is in
-- the queue or in the order, once.
use csfleet.Prelude.{
  ℕ, zero, suc, ◌+◌, ◌≤◌, ◌<◌, ◌≡◌, refl, List, [], ◌∷◌, ◌++◌, Option, none, some, String, length,
  length-append, All, total, arith, ◌==◌, if◌then◌else◌,
}
use csfleet.Plugin.Order.{Node, node_named, Edges, release, drain}
use csfleet.Plugin.Order.Sums.{occurs, requires_of, count, count-append, release_lem}

-- How many of the names are in the order.
unfoldable pub met_by : List String → List String → ℕ
met_by order [] = 0
met_by order (r ∷ rs) = count r order + met_by order rs

met_by-append :
    (order : List String) (x : String) (rs : List String)
    → met_by (order ++ (x ∷ [])) rs ≡ met_by order rs + count x rs
unfolding met_by count
met_by-append order x [] = refl
met_by-append order x (r ∷ rs) =
    ground (arith, met_by-append order x rs, count-append r order (x ∷ []))

pub met_by-le :
    (order rs : List String) → ((r : String) → count r order ≤ 1) → met_by order rs ≤ length rs
unfolding met_by
met_by-le order [] once = omega arith
met_by-le order (r ∷ rs) once = omega (arith, once r, met_by-le order rs once)

-- All requirements of a name stand before it.
abbrev pub Ordered : List Node → List String → List String → Type 0
Ordered nodes seen [] = Unit
Ordered nodes seen (x ∷ xs) =
    All (λ r. 0 < count r seen) (requires_of nodes x) × Ordered nodes (x ∷ seen) xs

met_by-All :
    (order rs : List String)
    → ((r : String) → count r order ≤ 1)
    → met_by order rs ≡ length rs
    → All (λ r. 0 < count r order) rs
unfolding met_by
met_by-All order [] once e = tt
met_by-All order (r ∷ rs) once e = (
  omega (arith, once r, met_by-le order rs once),
  met_by-All order rs once (omega (arith, once r, met_by-le order rs once)),
)

All-count :
    (seen order : List String) (x : String) (rs : List String)
    → All (λ r. 0 < count r seen + count r (x ∷ order)) rs
    → All (λ r. 0 < count r (x ∷ seen) + count r order) rs
unfolding count
All-count seen order x [] a = tt
All-count seen order x (r ∷ rs) a = (omega arith, All-count seen order x rs a.1)

All-unseen :
    (order rs : List String)
    → All (λ r. 0 < count r order) rs
    → All (λ r. 0 < count r [] + count r order) rs
unfolding count
All-unseen order [] a = tt
All-unseen order (r ∷ rs) a = (omega arith, All-unseen order rs a.1)

All-nil :
    (seen rs : List String)
    → All (λ r. 0 < count r seen + count r []) rs
    → All (λ r. 0 < count r seen) rs
unfolding count
All-nil seen [] a = tt
All-nil seen (r ∷ rs) a = (omega arith, All-nil seen rs a.1)

Ordered-append :
    (nodes : List Node) (seen xs : List String) (y : String)
    → Ordered nodes seen xs
    → All (λ r. 0 < count r seen + count r xs) (requires_of nodes y)
    → Ordered nodes seen (xs ++ (y ∷ []))
Ordered-append nodes seen [] y o a = (All-nil seen (requires_of nodes y) a, tt)
Ordered-append nodes seen (x ∷ xs) y o a =
    (o.0, Ordered-append nodes (x ∷ seen) xs y o.1 (All-count seen xs x (requires_of nodes y) a))

total-append :
    (order : List String) (x : String) (ns : List Node)
    → total (λ n. count n.name (order ++ (x ∷ []))) ns
      ≡ total (λ n. count n.name order) ns + occurs x ns
unfolding total count
total-append order x [] = refl
total-append order x (n ∷ ns) =
    ground (arith, total-append order x ns, count-append n.name order (x ∷ []))

-- A node that is not in the order leaves room.
pub total-le :
    (order : List String) (y : String) (ns : List Node)
    → ((x : String) → count x order ≤ 1)
    → total (λ n. count n.name order) ns + (if count y order == 0 then occurs y ns else 0)
      ≤ length ns
unfolding total
total-le order y [] once = ground arith
total-le order y (n ∷ ns) once = ground (arith, once n.name, total-le order y ns once)

occurs-none : (x : String) (ns : List Node) → occurs x ns ≡ 0 → node_named x ns ≡ none
unfolding total node_named
occurs-none x [] e = refl
occurs-none x (n ∷ ns) e = ground (arith, occurs-none x ns)

module _ (nodes : List Node) (g : Edges) where
  -- The edges are those of the nodes, and no name is there twice.
  pub record Fits : Type 0 where
    pub unique : (x : String) → occurs x nodes ≤ 1
    pub degrees : (x : String) → g.degree x ≡ length (requires_of nodes x)
    pub dependents : (d x : String) → count x (g.dependents d) ≡ count d (requires_of nodes x)

  abbrev pub settled : ℕ → String → ℕ
  settled m x = if g.degree x == m then occurs x nodes else 0

  pub record Inv (met : String → ℕ) (ready order : List String) : Type 0 where
    pub counted : (x : String) → met x ≡ met_by order (requires_of nodes x)
    pub once : (x : String) → count x ready + count x order ≡ settled (met x) x
    pub ordered : Ordered nodes [] order
    pub sized : length order ≡ total (λ n. count n.name order) nodes

  -- What the loop gives: the order, to which nothing can be added.
  abbrev pub Drained : Option (List String) → Type 0
  Drained none = ⊥
  Drained (some order) = Inv (λ x. met_by order (requires_of nodes x)) [] order

  requires-occurs : (x : String) → Fits → 0 < length (requires_of nodes x) → occurs x nodes ≡ 1
  unfolding requires_of
  requires-occurs x f h = ground (arith, f.unique x, occurs-none x nodes)

  count-le :
      (met : String → ℕ) (ready order : List String) (x : String)
      → Fits
      → Inv met ready order
      → count x ready + count x order ≤ 1
  count-le met ready order x f v = ground (arith, f.unique x, v.once x)

  module _ (f : Fits) (met : String → ℕ) (name : String) (ready order : List String)
      (v : Inv met (name ∷ ready) order) where
    after : (String → ℕ) × List String
    after = release g.degree (g.dependents name) met ready

    order' : List String
    order' = order ++ (name ∷ [])

    count-order' : (r : String) → count r order' ≤ 1
    unfolding order' count
    count-order' r =
        ground (arith, count-append r order (name ∷ []), count-le met (name ∷ ready) order r f v)

    counted' : (x : String) → after.0 x ≡ met_by order' (requires_of nodes x)
    unfolding after order'
    counted' x = omega (
      arith,
      (release_lem g.degree (g.dependents name) met ready x).0,
      f.dependents name x,
      met_by-append order name (requires_of nodes x),
      v.counted x,
    )

    met_le : (x : String) → after.0 x ≤ g.degree x
    met_le x =
        omega (arith, counted' x, f.degrees x, met_by-le order' (requires_of nodes x) count-order')

    once' : (x : String) → count x after.1 + count x order' ≡ settled (after.0 x) x
    unfolding after order' count
    once' x = ground (
      arith,
      release_lem g.degree (g.dependents name) met ready x,
      count-append x order (name ∷ []),
      met_le x,
      v.once x,
      requires-occurs x f,
      f.degrees x,
    )

    name_ready : (0 < occurs name nodes) × (g.degree name ≡ met name) × (count name order ≡ 0)
    unfolding count
    name_ready = ground (arith, v.once name, f.unique name)

    ordered' : Ordered nodes [] order'
    unfolding order'
    ordered' = Ordered-append nodes [] order name v.ordered (
        All-unseen order (requires_of nodes name) (
          met_by-All order (requires_of nodes name)
            (λ r. omega (arith, count-le met (name ∷ ready) order r f v))
            (omega (arith, v.counted name, name_ready, f.degrees name))))

    sized' : length order' ≡ total (λ n. count n.name order') nodes
    unfolding order'
    sized' = omega (
      arith,
      length-append order (name ∷ []),
      total-append order name nodes,
      v.sized,
      name_ready,
      f.unique name,
    )

    step-Inv : Inv after.0 after.1 order'
    step-Inv = record { counted = counted'; once = once'; ordered = ordered'; sized = sized' }

  -- With no fuel left, no name is left either.
  none_left :
      (met : String → ℕ) (name : String) (ready order : List String)
      → Fits
      → Inv met (name ∷ ready) order
      → length order < length nodes
  none_left met name ready order f v = ground (
    arith,
    name_ready f met name ready order v,
    f.unique name,
    v.sized,
    total-le order name nodes (λ x. omega (arith, count-le met (name ∷ ready) order x f v)),
  )

  -- The loop ends within as much fuel as there are nodes.
  pub drain-Drained :
      (fuel : ℕ) (met : String → ℕ) (ready order : List String)
      → Fits
      → Inv met ready order
      → length nodes ≤ fuel + length order
      → Drained (drain fuel g met ready order)
  unfolding drain
  drain-Drained fuel met [] order f v h = record {
    counted = λ x. refl;
    once = λ x. ground (arith, v.once x, v.counted x);
    ordered = v.ordered;
    sized = v.sized;
  }
  drain-Drained zero met (name ∷ ready) order f v h =
      absurd (omega (arith, none_left met name ready order f v))
  drain-Drained (suc fuel) met (name ∷ ready) order f v h =
      let next = release g.degree (g.dependents name) met ready in
      drain-Drained fuel next.0 next.1 (order ++ name ∷ []) f
        (unfold after order' in step-Inv f met name ready order v)
        (omega (arith, length-append order (name ∷ [])))
