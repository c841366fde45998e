-- ===== src/Plugin/Order.antt =====
-- orchestration/plugin/resolve.go: ResolveOrder, the walk over the manifests that the roots require and
-- the order in which they are installed.
pub mod Sums
pub mod Drain
pub mod Topology
pub mod Discovery
use csfleet.Prelude.{
  ℕ, zero, suc, ◌+◌, Bool, true, false, List, [], ◌∷◌, ◌++◌, Option, none, some, String, ite,
  length, String_discrete, ◌==◌, if◌then◌else◌,
}
use csfleet.Fleet.Services.{Answer, got, failed}

-- An entry of `nodes`, under its key.
pub record Node : Type 0 where
  pub name : String
  pub requires : List String
  pub toml : String

pub record Resolved : Type 0 where
  pub name : String
  pub toml : String

pub data Failure : Type 0 where
  load_failed : String → String → Failure
  parse_failed : String → Failure
  cycle : Failure

pub data Outcome (A : Type 0) : Type 0 where
  ok : A → Outcome A
  err : Failure → Outcome A

unfoldable pub node_named : String → List Node → Option Node
node_named x [] = none
node_named x (n ∷ ns) = ite (String_discrete n.name x) (some n) (node_named x ns)

-- `m[k] = v`, for a map whose missing entries read as a zero value.
abbrev pub put : {A : Type 0} → (String → A) → String → A → String → A
put m k v j = ite (String_discrete k j) v (m j)

module _ (load : String → Answer String) (parse : String → Answer (List String)) where
  -- A name off the queue that is not in `nodes`.
  visit :
      String
      → (List String → List Node → Option (Outcome (List Node)))
      → List String
      → List Node
      → Option (Outcome (List Node))
  visit name next queue nodes = elim (load name) [
    | failed e ↦ some (err (load_failed name e))
    | got raw ↦ elim (parse raw) [
      | failed e ↦ some (err (parse_failed e))
      | got requires ↦
          next (queue ++ requires)
            (nodes ++ (record { name = name; requires = requires; toml = raw } ∷ []))
    ]
  ]

  -- The first loop, on fuel: `none` is fuel run out.
  unfoldable pub discover : ℕ → List String → List Node → Option (Outcome (List Node))
  unfolding visit
  discover fuel [] nodes = some (ok nodes)
  discover zero (name ∷ queue) nodes = none
  discover (suc fuel) (name ∷ queue) nodes = elim (node_named name nodes) [
    | some n ↦ discover fuel queue nodes
    | none ↦ visit name (discover fuel) queue nodes
  ]

-- inDegree as it is built, and dependents.
pub record Edges : Type 0 where
  pub degree : String → ℕ
  pub dependents : String → List String

abbrev pub no_edges : Edges
no_edges = record { degree = λ x. 0; dependents = λ x. [] }

unfoldable pub add_edges : String → List String → Edges → Edges
add_edges name [] g = g
add_edges name (dep ∷ deps) g = add_edges name deps (record {
  degree = put g.degree name (g.degree name + 1);
  dependents = put g.dependents dep (g.dependents dep ++ (name ∷ []));
})

-- The loop over `nodes`, in the order in which Go ranges over them.
unfoldable pub all_edges : List Node → Edges → Edges
all_edges [] g = g
all_edges (n ∷ ns) g = all_edges ns (add_edges n.name n.requires g)

unfoldable pub first_ready : List Node → Edges → List String
first_ready [] g = []
first_ready (n ∷ ns) g =
    let rest = first_ready ns g in if g.degree n.name == 0 then n.name ∷ rest else rest

-- The loop over the dependents of a name. inDegree is a Go int: here it is `degree` less `met`, the
-- decrements so far, and it is 0 where they are equal.
unfoldable pub release :
    (String → ℕ) → List String → (String → ℕ) → List String → (String → ℕ) × List String
release degree [] met ready = (met, ready)
release degree (x ∷ xs) met ready =
    release degree xs (put met x (met x + 1))
      (if degree x == met x + 1 then ready ++ (x ∷ []) else ready)

-- The last loop, on fuel.
unfoldable pub drain : ℕ → Edges → (String → ℕ) → List String → List String → Option (List String)
drain fuel g met [] order = some order
drain zero g met (name ∷ ready) order = none
drain (suc fuel) g met (name ∷ ready) order =
    let next = release g.degree (g.dependents name) met ready in
    drain fuel g next.0 next.1 (order ++ (name ∷ []))

unfoldable pub toml_of : List Node → String → String
toml_of nodes x = elim (node_named x nodes) [ none ↦ "" | some n ↦ n.toml ]

unfoldable pub results : List Node → List String → List Resolved
unfolding toml_of
results nodes [] = []
results nodes (x ∷ xs) = record { name = x; toml = toml_of nodes x } ∷ results nodes xs

-- From the found nodes on; `r1` and `r2` are the orders of the two ranges over the map.
unfoldable pub sort_nodes :
    (r1 r2 : List Node → List Node) → List Node → Option (Outcome (List Resolved))
unfolding results
sort_nodes r1 r2 nodes =
    let g = all_edges (r1 nodes) no_edges in
    elim (drain (length nodes) g (λ x. 0) (first_ready (r2 nodes) g) []) [
      | none ↦ none
      | some order ↦
          if length order == length nodes then some (ok (results nodes order)) else some (err cycle)
    ]

unfoldable pub resolve_order :
    (load : String → Answer String) (parse : String → Answer (List String))
    (r1 r2 : List Node → List Node)
    → ℕ
    → List String
    → Option (Outcome (List Resolved))
resolve_order load parse r1 r2 fuel roots = elim (discover load parse fuel roots []) [
  | none ↦ none
  | some (err e) ↦ some (err e)
  | some (ok nodes) ↦ sort_nodes r1 r2 nodes
]
