-- ===== src/Plugin/Order/Sums.antt =====
-- Sums over the nodes, which do not depend on the order of a range: in-degrees and dependents are such
-- sums.
use csfleet.Prelude.{
  ℕ, ◌+◌, ◌≤◌, ◌≡◌, refl, List, [], ◌∷◌, ◌++◌, Option, none, some, String, ite, length,
  String_discrete, arith, ◌==◌, if◌then◌else◌, ltb, leb, ◌&&◌, total,
}
use csfleet.Plugin.Order.{Node, node_named, put, Edges, add_edges, all_edges, first_ready, release}

-- `f` at the nodes of one name.
abbrev pub at : String → (Node → ℕ) → Node → ℕ
at x f n = ite (String_discrete n.name x) (f n) 0

-- How many nodes have a name.
abbrev pub occurs : String → List Node → ℕ
occurs x ns = total (at x (λ n. 1)) ns

unfoldable pub requires_of : List Node → String → List String
requires_of nodes x = elim (node_named x nodes) [ none ↦ [] | some n ↦ n.requires ]

unfoldable pub count : String → List String → ℕ
count x [] = 0
count x (y ∷ ys) = ite (String_discrete y x) 1 0 + count x ys

pub count-append : (x : String) (ys zs : List String) → count x (ys ++ zs) ≡ count x ys + count x zs
unfolding count
count-append x [] zs = omega arith
count-append x (y ∷ ys) zs = omega (arith, count-append x ys zs)

abbrev pub value_at : (Node → ℕ) → Option Node → ℕ
value_at f none = 0
value_at f (some n) = f n

total-none : (x : String) (f : Node → ℕ) (ns : List Node) → occurs x ns ≡ 0 → total (at x f) ns ≡ 0
unfolding total
total-none x f [] e = refl
total-none x f (n ∷ ns) e = ground (arith, total-none x f ns)

pub total-named :
    (x : String) (f : Node → ℕ) (ns : List Node)
    → occurs x ns ≤ 1
    → total (at x f) ns ≡ value_at f (node_named x ns)
unfolding total node_named
total-named x f [] e = refl
total-named x f (n ∷ ns) e = ground (arith, total-named x f ns, total-none x f ns)

degree-add_edges :
    (name : String) (deps : List String) (g : Edges) (x : String)
    → (add_edges name deps g).degree x ≡ g.degree x + ite (String_discrete name x) (length deps) 0
unfolding add_edges
degree-add_edges name [] g x = ground arith
degree-add_edges name (dep ∷ deps) g x = ground (
  arith,
  degree-add_edges name deps
      (record {
        degree = put g.degree name (g.degree name + 1);
        dependents = put g.dependents dep (g.dependents dep ++ (name ∷ []));
      })
      x,
)

pub degree-all_edges :
    (ns : List Node) (g : Edges) (x : String)
    → (all_edges ns g).degree x ≡ g.degree x + total (at x (λ n. length n.requires)) ns
unfolding all_edges total
degree-all_edges [] g x = omega arith
degree-all_edges (n ∷ ns) g x = omega (
  arith,
  degree-all_edges ns (add_edges n.name n.requires g) x,
  degree-add_edges n.name n.requires g x,
)

dependents-add_edges :
    (name : String) (deps : List String) (g : Edges) (d x : String)
    → count x ((add_edges name deps g).dependents d)
      ≡ count x (g.dependents d) + ite (String_discrete name x) (count d deps) 0
unfolding add_edges count
dependents-add_edges name [] g d x = ground arith
dependents-add_edges name (dep ∷ deps) g d x = ground (
  arith,
  dependents-add_edges name deps
      (record {
        degree = put g.degree name (g.degree name + 1);
        dependents = put g.dependents dep (g.dependents dep ++ (name ∷ []));
      })
      d x,
  count-append x (g.dependents dep) (name ∷ []),
)

pub dependents-all_edges :
    (ns : List Node) (g : Edges) (d x : String)
    → count x ((all_edges ns g).dependents d)
      ≡ count x (g.dependents d) + total (at x (λ n. count d n.requires)) ns
unfolding all_edges total
dependents-all_edges [] g d x = omega arith
dependents-all_edges (n ∷ ns) g d x = omega (
  arith,
  dependents-all_edges ns (add_edges n.name n.requires g) d x,
  dependents-add_edges n.name n.requires g d x,
)

pub count-first_ready :
    (ns : List Node) (g : Edges) (x : String)
    → count x (first_ready ns g) ≡ (if g.degree x == 0 then occurs x ns else 0)
unfolding first_ready total count
count-first_ready [] g x = ground arith
count-first_ready (n ∷ ns) g x = ground (arith, count-first_ready ns g x)

-- The loop over the dependents counts each, and makes ready the names that it brings to their degree.
pub release_lem :
    (degree : String → ℕ) (xs : List String) (met : String → ℕ) (ready : List String) (x : String)
    → ((release degree xs met ready).0 x ≡ met x + count x xs)
      × (count x (release degree xs met ready).1
          ≡ count x ready
            + (if ltb (met x) (degree x) && leb (degree x) (met x + count x xs) then 1 else 0))
unfolding release count
release_lem degree [] met ready x = ground arith
release_lem degree (y ∷ ys) met ready x = ground (
  arith,
  release_lem degree ys (put met y (met y + 1))
      (if degree y == met y + 1 then ready ++ (y ∷ []) else ready) x,
  count-append x ready (y ∷ []),
)
