-- ===== src/Plugin/Order/Discovery.antt =====
-- The walk over what the roots require: it ends, and finds all of it.
use csfleet.Prelude.{
  Shuffle, total, ℕ, zero, suc, ◌+◌, ◌≤◌, ◌<◌, ◌≡◌, ◌≢◌, refl, ◌⊎◌, inl, inr, List, [], ◌∷◌, ◌++◌,
  Option, none, some, String, length, length-append, All, All-map, arith, Option-cases,
}
use csfleet.Fleet.Services.{Answer, got, failed, Answer-cases}
use csfleet.Plugin.Order.{
  Node, Resolved, load_failed, parse_failed, cycle, Outcome, ok, err, node_named, discover, visit,
  sort_nodes, resolve_order,
}
use csfleet.Plugin.Order.Sums.{at, occurs, requires_of, count, count-append}
use csfleet.Plugin.Order.Topology.{IsInstallOrder, Ranked, Closed, Unique, Sorts, sort_nodes-Sorts}

occurs-append :
    (x : String) (ns : List Node) (n : Node)
    → occurs x (ns ++ (n ∷ [])) ≡ occurs x ns + at x (λ n. 1) n
unfolding total
occurs-append x [] n = omega arith
occurs-append x (m ∷ ns) n = omega (arith, occurs-append x ns n)

named-none : (x : String) (ns : List Node) → node_named x ns ≡ none → occurs x ns ≡ 0
unfolding node_named total
named-none x [] e = refl
named-none x (n ∷ ns) e = ground (arith, named-none x ns)

named-some : (x : String) (ns : List Node) (n : Node) → node_named x ns ≡ some n → 0 < occurs x ns
unfolding node_named total
named-some x [] n e = cc
named-some x (m ∷ ns) n e = ground (arith, named-some x ns n)

requires_of-append :
    (x : String) (ns : List Node) (n : Node)
    → node_named n.name ns ≡ none
    → ((n.name ≡ x) × (requires_of (ns ++ (n ∷ [])) x ≡ n.requires))
      ⊎ (requires_of (ns ++ (n ∷ [])) x ≡ requires_of ns x)
unfolding node_named requires_of
requires_of-append x [] n e = ground arith
requires_of-append x (m ∷ ns) n e = ground (arith, requires_of-append x ns n)

All-count_self : (xs : List String) → All (λ r. 0 < count r xs) xs
unfolding count
All-count_self [] = tt
All-count_self (x ∷ xs) = (ground arith, All-map xs (λ r h. omega arith) (All-count_self xs))

module _ (load : String → Answer String) (parse : String → Answer (List String))
    (roots : List String) where
  -- A node is what the catalog has under its name.
  abbrev pub Loaded : Node → Type 0
  Loaded n = (load n.name ≡ got n.toml) × (parse n.toml ≡ got n.requires)

  -- Queued or found.
  abbrev Known : List String → List Node → String → Type 0
  Known queue nodes r = 0 < occurs r nodes + count r queue

  record Inv (queue : List String) (nodes : List Node) : Type 0 where
    unique : Unique nodes
    loaded : All Loaded nodes
    closed : (x : String) → All (Known queue nodes) (requires_of nodes x)
    started : All (Known queue nodes) roots

  pub record Found (nodes : List Node) : Type 0 where
    pub unique : Unique nodes
    pub loaded : All Loaded nodes
    pub closed : Closed nodes
    pub started : All (λ r. 0 < occurs r nodes) roots

  pop_keeps :
      (name : String) (queue : List String) (nodes : List Node) (n : Node)
      → node_named name nodes ≡ some n
      → (r : String) → Known (name ∷ queue) nodes r
      → Known queue nodes r
  unfolding count
  pop_keeps name queue nodes n e r h = ground (arith, named-some name nodes n)

  pop-Inv :
      (name : String) (queue : List String) (nodes : List Node) (n : Node)
      → node_named name nodes ≡ some n
      → Inv (name ∷ queue) nodes
      → Inv queue nodes
  pop-Inv name queue nodes n e v = record {
    unique = v.unique;
    loaded = v.loaded;
    closed = λ x. All-map (requires_of nodes x) (pop_keeps name queue nodes n e) (v.closed x);
    started = All-map roots (pop_keeps name queue nodes n e) v.started;
  }

  All-append_one :
      (ns : List Node) (n : Node) → All Loaded ns → Loaded n → All Loaded (ns ++ (n ∷ []))
  All-append_one [] n a l = (l, tt)
  All-append_one (m ∷ ns) n a l = (a.0, All-append_one ns n a.1 l)

  module _ (n : Node) (queue : List String) (nodes : List Node)
      (fresh : node_named n.name nodes ≡ none) where
    push_keeps :
        (r : String)
        → Known (n.name ∷ queue) nodes r
        → Known (queue ++ n.requires) (nodes ++ (n ∷ [])) r
    unfolding count
    push_keeps r h = ground (arith, occurs-append r nodes n, count-append r queue n.requires)

    push_adds :
        (r : String) → 0 < count r n.requires → Known (queue ++ n.requires) (nodes ++ (n ∷ [])) r
    push_adds r h = omega (arith, count-append r queue n.requires)

    push-Inv : Loaded n → Inv (n.name ∷ queue) nodes → Inv (queue ++ n.requires) (nodes ++ (n ∷ []))
    push-Inv l v = record {
      unique =
          λ x. ground (arith, occurs-append x nodes n, named-none n.name nodes fresh, v.unique x);
      loaded = All-append_one nodes n v.loaded l;
      closed = λ x. elim (requires_of-append x nodes n fresh) [
        | inl (_, e) ↦ rw e (All-map n.requires push_adds (All-count_self n.requires))
        | inr e ↦ rw e (All-map (requires_of nodes x) push_keeps (v.closed x))
      ];
      started = All-map roots push_keeps v.started;
    }

  end-Found : (nodes : List Node) → Inv [] nodes → Found nodes
  unfolding count
  end-Found nodes v = record {
    unique = v.unique;
    loaded = v.loaded;
    closed = λ x. All-map (requires_of nodes x) (λ r h. omega arith) (v.closed x);
    started = All-map roots (λ r h. omega arith) v.started;
  }

  abbrev required : Answer String → ℕ
  required (failed e) = 0
  required (got raw) = elim (parse raw) [ failed e ↦ 0 | got rs ↦ length rs ]

  -- What the catalog's names that are not found yet can still queue.
  unfoldable pub pending : List String → List Node → ℕ
  pending [] nodes = 0
  pending (x ∷ xs) nodes = elim (node_named x nodes) [
    | none ↦ required (load x) + pending xs nodes
    | some n ↦ pending xs nodes
  ]

  named-append :
      (x : String) (ns : List Node) (n : Node)
      → (node_named x (ns ++ (n ∷ [])) ≡ none → node_named x ns ≡ none)
        × (n.name ≡ x → node_named x (ns ++ (n ∷ [])) ≢ none)
  unfolding node_named
  named-append x [] n = ground arith
  named-append x (m ∷ ns) n = ground (arith, named-append x ns n)

  pending-append :
      (xs : List String) (nodes : List Node) (n : Node)
      → node_named n.name nodes ≡ none
      → (pending xs (nodes ++ (n ∷ [])) ≤ pending xs nodes)
        × (0 < count n.name xs
            → pending xs (nodes ++ (n ∷ [])) + required (load n.name) ≤ pending xs nodes)
  unfolding pending count
  pending-append [] nodes n e = ground arith
  pending-append (x ∷ xs) nodes n e =
      ground (arith, pending-append xs nodes n e, named-append x nodes n)

  abbrev pub Discovers : Option (Outcome (List Node)) → Type 0
  Discovers none = ⊥
  Discovers (some (ok nodes)) = Found nodes
  Discovers (some (err (load_failed x e))) = load x ≡ failed e
  Discovers (some (err (parse_failed e))) = (raw : String) × (parse raw ≡ failed e)
  Discovers (some (err cycle)) = ⊥

  -- The names that can be loaded are among those of a catalog.
  abbrev pub Covers : List String → Type 0
  Covers catalog = (x raw : String) → load x ≡ got raw → 0 < count x catalog

  discover-Discovers :
      (catalog : List String) (fuel : ℕ) (queue : List String) (nodes : List Node)
      → Covers catalog
      → Inv queue nodes
      → length queue + pending catalog nodes ≤ fuel
      → Discovers (discover load parse fuel queue nodes)
  unfolding discover
  discover-Discovers catalog fuel [] nodes c v h = end-Found nodes v
  discover-Discovers catalog zero (name ∷ queue) nodes c v h = absurd (omega arith)
  discover-Discovers catalog (suc fuel) (name ∷ queue) nodes c v h =
      elim (Option-cases (node_named name nodes)) [
        | inr (n, e) ↦
            rw (e, discover)
              (discover-Discovers catalog fuel queue nodes c (pop-Inv name queue nodes n e v)
                (omega arith))
        | inl e ↦
            rw (e, discover)
              (elim (Answer-cases (load name)) [
                | inr (m, k) ↦ rw (k, visit) k
                | inl (raw, k) ↦ elim (Answer-cases (parse raw)) [
                  | inr (m, j) ↦ rw (k, visit) (rw j (raw, j))
                  | inl (rs, j) ↦
                      let n : Node = record { name = name; requires = rs; toml = raw } in
                      rw (k, visit)
                        (rw j (
                          discover-Discovers catalog fuel (queue ++ rs) (nodes ++ (n ∷ [])) c
                            (push-Inv n queue nodes e (k, j) v)
                            (ground (
                              arith,
                              length-append queue rs,
                              pending-append catalog nodes n e,
                              c name raw k,
                            ))))
                ]
              ])
      ]

  start-Inv : Inv roots []
  unfolding total requires_of count node_named
  start-Inv = record {
    unique = λ x. omega arith;
    loaded = tt;
    closed = λ x. tt;
    started = All-map roots (λ r h. omega arith) (All-count_self roots);
  }

  -- The results of the whole: of the found nodes, the order of the sort; a failed load or parse; or a
  -- cycle among the found nodes.
  abbrev pub Resolves : Option (Outcome (List Resolved)) → Type 0
  Resolves none = ⊥
  Resolves (some (ok rs)) = (nodes : List Node) × Found nodes × IsInstallOrder nodes rs
  Resolves (some (err (load_failed x e))) = load x ≡ failed e
  Resolves (some (err (parse_failed e))) = (raw : String) × (parse raw ≡ failed e)
  Resolves (some (err cycle)) =
      (nodes : List Node) × Found nodes × ((rank : String → ℕ) → ¬ Ranked nodes rank)

  sorted-Resolves :
      (nodes : List Node) (o : Option (Outcome (List Resolved)))
      → Found nodes
      → Sorts nodes o
      → Resolves o
  sorted-Resolves nodes none f s = s
  sorted-Resolves nodes (some (ok rs)) f s = (nodes, f, s)
  sorted-Resolves nodes (some (err (load_failed x e))) f s = absurd s
  sorted-Resolves nodes (some (err (parse_failed e))) f s = absurd s
  sorted-Resolves nodes (some (err cycle)) f s = (nodes, f, s)

  module _ (r1 r2 : List Node → List Node) (s1 : (ns : List Node) → Shuffle (r1 ns) ns)
      (s2 : (ns : List Node) → Shuffle (r2 ns) ns) where
    then-Resolves :
        (o : Option (Outcome (List Node)))
        → Discovers o
        → Resolves (elim o [
          | none ↦ none
          | some (err e) ↦ some (err e)
          | some (ok nodes) ↦ sort_nodes r1 r2 nodes
        ])
    then-Resolves none d = d
    then-Resolves (some (ok nodes)) d =
        sorted-Resolves nodes (sort_nodes r1 r2 nodes) d
          (sort_nodes-Sorts r1 r2 nodes (s1 nodes) (s2 nodes) d.unique d.closed)
    then-Resolves (some (err (load_failed x e))) d = d
    then-Resolves (some (err (parse_failed e))) d = d
    then-Resolves (some (err cycle)) d = absurd d

    -- With fuel for the roots and for all that the catalog requires, ResolveOrder ends: with an install
    -- order of the plugins found, which are all that the roots require, each from its own manifest; with
    -- a failed load or parse; or with the cycle error, and then the plugins found have a cycle. The
    -- catalog lists all names that can be loaded, and Go ranges over all entries of a map, each once.
    pub resolve_order-Resolves :
        (catalog : List String) (fuel : ℕ)
        → Covers catalog
        → length roots + pending catalog [] ≤ fuel
        → Resolves (resolve_order load parse r1 r2 fuel roots)
    unfolding resolve_order
    resolve_order-Resolves catalog fuel c h =
        then-Resolves (discover load parse fuel roots [])
          (discover-Discovers catalog fuel roots [] c start-Inv h)
