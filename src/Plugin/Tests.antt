-- ===== src/Plugin/Tests.antt =====
-- The theorems on the install order at a catalog of two plugins.
use mathlib.Core.Bool.{false≢true}
use text.Mathlib.TextEquality.{eq_iff}
use csfleet.Prelude.{
  same, total, ◌<◌, ◌≡◌, ◌≢◌, ◌⊎◌, inl, inr, refl, List, [], ◌∷◌, some, String, String_discrete,
  ite, arith,
}
use csfleet.Fleet.Services.{Answer, got, failed}
use csfleet.Plugin.Order.{
  node_named, discover, drain, first_ready, all_edges, add_edges, release, Node, ok, resolve_order,
  sort_nodes,
}
use csfleet.Plugin.Order.Sums.{count, occurs, requires_of}
use csfleet.Plugin.Order.Topology.{Sorts, sort_nodes-Sorts, Unique, Closed}
use csfleet.Plugin.Order.Discovery.{pending, Covers, Resolves, resolve_order-Resolves}

-- A manifest is here the name of the one plugin that it requires, or "".
abbrev load : String → Answer String
load x =
    ite (String_discrete x "retakes") (got "metamod")
      (ite (String_discrete x "metamod") (got "") (failed "missing"))

abbrev parse : String → Answer (List String)
parse raw = ite (String_discrete raw "") (got []) (got (raw ∷ []))

abbrev nodes : List Node
nodes =
    record { name = "retakes"; requires = "metamod" ∷ []; toml = "metamod" }
    ∷ record { name = "metamod"; requires = []; toml = "" }
    ∷ []

loaded-Covers : Covers load parse [] ("retakes" ∷ "metamod" ∷ [])
unfolding count
loaded-Covers x raw e = ground arith

resolve_order-Resolves_example :
    Resolves load parse
      ("retakes" ∷ [])
      (resolve_order load parse (λ ns. ns) (λ ns. ns) 2 ("retakes" ∷ []))
unfolding pending node_named String_discrete
resolve_order-Resolves_example =
    resolve_order-Resolves load parse ("retakes" ∷ []) (λ ns. ns) (λ ns. ns) same same
      ("retakes" ∷ "metamod" ∷ []) 2 loaded-Covers (omega arith)

retakes_then :
    resolve_order load parse (λ ns. ns) (λ ns. ns) 2 ("retakes" ∷ [])
    ≡ some (
        ok (
          record { name = "metamod"; toml = "" }
          ∷ record { name = "retakes"; toml = "metamod" }
          ∷ []))
unfolding resolve_order discover node_named String_discrete sort_nodes drain first_ready all_edges
    add_edges release
retakes_then = refl

other_name : ◌≢◌ {A = String} "retakes" "metamod"
other_name p = false≢true ((eq_iff "retakes" "metamod").1 p)

nodes-Unique : Unique nodes
unfolding total
nodes-Unique x = elim (String_discrete "retakes" x) [
  | yes p ↦ ground (arith, other_name)
  | no n ↦ ground arith
]

requires_of-cases :
    (x : String) → (requires_of nodes x ≡ "metamod" ∷ []) ⊎ (requires_of nodes x ≡ [])
unfolding requires_of node_named
requires_of-cases x = ground arith

metamod_is_there : 0 < occurs "metamod" nodes
unfolding total String_discrete
metamod_is_there = omega arith

nodes-Closed : Closed nodes
nodes-Closed x = elim (requires_of-cases x) [
  | inl e ↦ rw e (metamod_is_there, tt)
  | inr e ↦ rw e tt
]

sort_nodes-Sorts_example : Sorts nodes (sort_nodes (λ ns. ns) (λ ns. ns) nodes)
sort_nodes-Sorts_example =
    sort_nodes-Sorts (λ ns. ns) (λ ns. ns) nodes (same nodes) (same nodes) nodes-Unique nodes-Closed
