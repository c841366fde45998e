-- ===== src/Proxy/Router/History.antt =====
-- Histories of the router: any sequence of its methods, as the proxy calls them.
use csfleet.Prelude.{ℕ, suc, ◌+◌, ◌<◌, ◌≡◌, List, [], ◌∷◌, arith}
use csfleet.Proxy.Addr.{Addr, AddrPort}
use csfleet.Proxy.Router.{
  Router, new_router, add_backend, remove_backend, unmanage, route, sweep, u64,
}
use csfleet.Proxy.Router.Effects.{gen-add_backend, gen-remove_backend, gen-route}
use csfleet.Proxy.Router.Invariant.{
  Inv, add_backend-Inv, remove_backend-Inv, unmanage-Inv, route-Inv, sweep-Inv,
}

pub data Op : Type 0 where
  adds : ℕ → Addr → Op
  removes : ℕ → Addr → Op
  unmanages : ℕ → Op
  routes : AddrPort → ℕ → ℕ → Op
  sweeps : ℕ → ℕ → Op

unfoldable pub apply : Router → Op → Router
apply r (adds port ip) = (add_backend r port ip).0
apply r (removes port ip) = (remove_backend r port ip).0
apply r (unmanages port) = unmanage r port
apply r (routes client port now) = (route r client port now).0
apply r (sweeps ttl now) = sweep r ttl now

unfoldable pub run : Router → List Op → Router
run r [] = r
run r (o ∷ os) = run (apply r o) os

-- How many generations a history hands out.
abbrev pub count_adds : List Op → ℕ
count_adds [] = 0
count_adds (adds port ip ∷ os) = suc (count_adds os)
count_adds (_ ∷ os) = count_adds os

Inv-new_router : Inv new_router
Inv-new_router = record {
  bounded = λ port b l. absurd l;
  positive = λ port b l. absurd l;
  distinct = λ port. tt;
  unique = λ port port' b b' l. absurd l;
  held = λ c s e. cc;
  owner = λ c s port b e. cc;
}

pub run-Inv_from :
    (os : List Op) (r : Router)
    → Inv r
    → r.gen + count_adds os < u64
    → Inv (run r os) × ((run r os).gen ≡ r.gen + count_adds os)
unfolding run apply sweep unmanage
run-Inv_from [] r v h = (v, omega arith)
run-Inv_from (adds port ip ∷ os) r v h =
    let g = gen-add_backend r port ip in
    let (v', e) =
      run-Inv_from os (add_backend r port ip).0 (add_backend-Inv r port ip (omega arith) v)
        (omega (arith, g)) in
    (v', omega (arith, g, e))
run-Inv_from (removes port ip ∷ os) r v h =
    let g = gen-remove_backend r port ip in
    let (v', e) =
      run-Inv_from os (remove_backend r port ip).0 (remove_backend-Inv r port ip v)
        (omega (arith, g)) in
    (v', omega (arith, g, e))
run-Inv_from (unmanages port ∷ os) r v h =
    run-Inv_from os (unmanage r port) (unmanage-Inv r port v) h
run-Inv_from (routes c port now ∷ os) r v h =
    let g = gen-route r c port now in
    let (v', e) =
      run-Inv_from os (route r c port now).0 (route-Inv r c port now v) (omega (arith, g)) in
    (v', omega (arith, g, e))
run-Inv_from (sweeps ttl now ∷ os) r v h =
    run-Inv_from os (sweep r ttl now) (sweep-Inv r ttl now v) h

-- After any history of fewer than 2^64 additions: live generations are positive, at most the
-- counter, and each belongs to one port and address; a pool holds an address once; a session whose
-- generation is live names the address of that backend.
pub run-Inv : (os : List Op) → count_adds os < u64 → Inv (run new_router os)
run-Inv os h = (run-Inv_from os new_router Inv-new_router (omega arith)).0
