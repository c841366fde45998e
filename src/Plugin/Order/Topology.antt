-- ===== src/Plugin/Order/Topology.antt =====
-- What the sort of the found nodes gives: all of them, each once, with everything that a plugin requires
-- before it; or the cycle error, and then there is a cycle.
use mathlib.Core.Path.{subst}
use csfleet.Prelude.{
  Shuffle, total, total-Shuffle, ℕ, zero, suc, ◌+◌, ◌≤◌, ◌<◌, ◌≡◌, refl, ◌∙◌, inl, inr, List, [],
  ◌∷◌, Option, some, String, length, All, All-map, arith, ◌==◌, Bool-cases, Option-cases,
}
use csfleet.Plugin.Order.{
  Node, Resolved, cycle, Outcome, ok, err, Edges, no_edges, all_edges, first_ready, drain, toml_of,
  results, sort_nodes,
}
use csfleet.Plugin.Order.Sums.{
  at, occurs, requires_of, count, total-named, degree-all_edges, dependents-all_edges,
  count-first_ready,
}
use csfleet.Plugin.Order.Drain.{met_by, Ordered, total-le, Fits, Inv, Drained, drain-Drained}

-- The ends of a run.
abbrev names_of : List Resolved → List String
names_of [] = []
names_of (r ∷ rs) = r.name ∷ names_of rs

names_of-results : (nodes : List Node) (xs : List String) → names_of (results nodes xs) ≡ xs
unfolding results
names_of-results nodes [] = refl
names_of-results nodes (x ∷ xs) = ground (arith, names_of-results nodes xs)

toml_of-results :
    (nodes : List Node) (xs : List String)
    → All (λ (r : Resolved). r.toml ≡ toml_of nodes r.name) (results nodes xs)
unfolding results
toml_of-results nodes [] = tt
toml_of-results nodes (x ∷ xs) = (refl, toml_of-results nodes xs)

pub record IsInstallOrder (nodes : List Node) (rs : List Resolved) : Type 0 where
  pub ordered : Ordered nodes [] (names_of rs)
  pub complete : (x : String) → count x (names_of rs) ≡ occurs x nodes
  pub bodies : All (λ (r : Resolved). r.toml ≡ toml_of nodes r.name) rs

-- A rank that falls from each plugin to what it requires: there is no cycle.
abbrev pub Ranked : List Node → (String → ℕ) → Type 0
Ranked nodes rank = (x : String) → All (λ r. rank r < rank x) (requires_of nodes x)

-- Everything required is among the nodes.
abbrev pub Closed : List Node → Type 0
Closed nodes = (x : String) → All (λ r. 0 < occurs r nodes) (requires_of nodes x)

abbrev pub Unique : List Node → Type 0
Unique nodes = (x : String) → occurs x nodes ≤ 1

abbrev pub Sorts : List Node → Option (Outcome (List Resolved)) → Type 0
Sorts nodes (some (ok rs)) = IsInstallOrder nodes rs
Sorts nodes (some (err cycle)) = (rank : String → ℕ) → ¬ Ranked nodes rank
Sorts nodes _ = ⊥

all_met :
    (order rs : List String) (rank : String → ℕ) (k : ℕ) (nodes : List Node)
    → ((r : String) → rank r < k → 0 < occurs r nodes → count r order ≡ 1)
    → All (λ r. rank r < k) rs
    → All (λ r. 0 < occurs r nodes) rs
    → met_by order rs ≡ length rs
unfolding met_by
all_met order [] rank k nodes h a b = refl
all_met order (r ∷ rs) rank k nodes h a b =
    omega (arith, h r a.0 b.0, all_met order rs rank k nodes h a.1 b.1)

total-full :
    (order : List String) (ns : List Node)
    → ((x : String) → 0 < occurs x ns → count x order ≡ 1)
    → total (λ n. count n.name order) ns ≡ length ns
unfolding total
total-full order [] h = refl
total-full order (n ∷ ns) h =
    ground (arith, h n.name, total-full order ns (λ x o. h x (ground arith)))

module _ (nodes : List Node) (g : Edges) (f : Fits nodes g) (order : List String)
    (v : Drained nodes g (some order)) where
  count-le : (x : String) → count x order ≤ 1
  unfolding count
  count-le x = ground (arith, v.once x, f.unique x)

  -- In an acyclic closed graph everything gets installed.
  installed :
      (rank : String → ℕ)
      → Ranked nodes rank
      → Closed nodes
      → (k : ℕ) (x : String) → rank x < k
      → 0 < occurs x nodes
      → count x order ≡ 1
  unfolding count
  installed rank r c zero x h o = elim h [ ]
  installed rank r c (suc k) x h o = ground (
    arith,
    all_met order (requires_of nodes x) rank k nodes (installed rank r c k)
        (All-map (requires_of nodes x) (λ y l. omega arith) (r x)) (c x),
    v.once x,
    f.unique x,
    f.degrees x,
  )

  full : (rank : String → ℕ) → Ranked nodes rank → Closed nodes → length order ≡ length nodes
  full rank r c =
      v.sized ∙ total-full order nodes (λ x o. installed rank r c (rank x + 1) x (omega arith) o)

  complete_lem : length order ≡ length nodes → (x : String) → count x order ≡ occurs x nodes
  unfolding count
  complete_lem e x = ground (arith, v.once x, v.sized, total-le order x nodes count-le, f.unique x)

module _ (r1 r2 : List Node → List Node) (nodes : List Node) (s1 : Shuffle (r1 nodes) nodes)
    (s2 : Shuffle (r2 nodes) nodes) where
  abbrev edges : Edges
  edges = all_edges (r1 nodes) no_edges

  edges-Fits : Unique nodes → Fits nodes edges
  unfolding requires_of count
  edges-Fits u = record {
    unique = u;
    degrees = λ x. ground (
      arith,
      degree-all_edges (r1 nodes) no_edges x,
      total-Shuffle (at x (λ n. length n.requires)) s1,
      total-named x (λ n. length n.requires) nodes (u x),
    );
    dependents = λ d x. ground (
      arith,
      dependents-all_edges (r1 nodes) no_edges d x,
      total-Shuffle (at x (λ n. count d n.requires)) s1,
      total-named x (λ n. count d n.requires) nodes (u x),
    );
  }

  met_by-nil : (rs : List String) → met_by [] rs ≡ 0
  unfolding met_by count
  met_by-nil [] = refl
  met_by-nil (r ∷ rs) = omega (arith, met_by-nil rs)

  total-nil : (ns : List Node) → total (λ n. count n.name []) ns ≡ 0
  unfolding total count
  total-nil [] = refl
  total-nil (n ∷ ns) = omega (arith, total-nil ns)

  start-Inv : Inv nodes edges (λ x. 0) (first_ready (r2 nodes) edges) []
  unfolding count
  start-Inv = record {
    counted = λ x. omega (arith, met_by-nil (requires_of nodes x));
    once =
        λ x. ground (arith, count-first_ready (r2 nodes) edges x, total-Shuffle (at x (λ n. 1)) s2);
    ordered = tt;
    sized = omega (arith, total-nil nodes);
  }

  run_Drained :
      Unique nodes
      → Drained nodes edges (drain (length nodes) edges (λ x. 0) (first_ready (r2 nodes) edges) [])
  run_Drained u =
      drain-Drained nodes edges (length nodes) (λ x. 0) (first_ready (r2 nodes) edges) []
        (edges-Fits u) start-Inv (omega arith)

  -- Whatever the orders in which Go ranges over its map, the sort ends, within as many rounds as there
  -- are nodes. It gives every node once, with its own manifest and after all that it requires, or
  -- reports a cycle, and then no rank falls along all requirements. The nodes have distinct names and
  -- contain what they require.
  pub sort_nodes-Sorts : Unique nodes → Closed nodes → Sorts nodes (sort_nodes r1 r2 nodes)
  unfolding sort_nodes
  sort_nodes-Sorts u c =
      let start = first_ready (r2 nodes) edges in
      elim (Option-cases (drain (length nodes) edges (λ x. 0) start [])) [
        | inl e ↦ absurd (subst (Drained nodes edges) e (run_Drained u))
        | inr (order, e) ↦
            let v : Drained nodes edges (some order) =
              subst (Drained nodes edges) e (run_Drained u) in
            let fits = edges-Fits u in
            elim (Bool-cases (length order == length nodes)) [
              | inl k ↦
                  rw (e, sort_nodes)
                    (rw k (record {
                      ordered = rw (names_of-results nodes order) v.ordered;
                      complete = λ x.
                          rw (names_of-results nodes order)
                            (complete_lem nodes edges fits order v (ground arith) x);
                      bodies = toml_of-results nodes order;
                    }))
              | inr k ↦
                  rw (e, sort_nodes)
                    (rw k (λ rank r. ground (arith, full nodes edges fits order v rank r c)))
            ]
      ]
