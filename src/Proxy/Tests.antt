-- ===== src/Proxy/Tests.antt =====
-- The routing theorems at a small fleet: two servers behind port 27015, one of them behind 27016 too.
use csfleet.Prelude.{
  ℕ, ◌%◌, ◌<◌, ◌≡◌, ◌≢◌, refl, some, List, [], ◌∷◌, length, arith, ℕ_discrete, get_or, get_elem?,
}
use csfleet.Proxy.Addr.{Addr, AddrPort, Addr-discrete, AddrPort-discrete, v4}
use csfleet.Proxy.Router.{
  Router, Backend, Session, Pool, dnat, drop, new_router, add_backend, route, sweep, bump, pick,
  find, u32, no_backend,
}
use csfleet.Proxy.Router.Effects.{Live}
use csfleet.Proxy.Router.Invariant.{Inv}
use csfleet.Proxy.Router.History.{Op, adds, removes, routes, sweeps, run, apply, run-Inv}
use csfleet.Proxy.Router.Marks.{dnat_mark, AssignedTo}
use csfleet.Proxy.Router.Sticky.{route-sticky}
use csfleet.Proxy.Router.Orphans.{restart_cuts_off}
use csfleet.Proxy.Router.OnePort.{one_port_per_client}
use csfleet.Proxy.Router.RoundRobin.{route_all, turns, round_robin, sweep_forgets, round_robin_fair}

abbrev west : Addr
west = v4 0x0a000002

abbrev east : Addr
east = v4 0x0a000003

abbrev alice : AddrPort
alice = record { addr = v4 0x01010101; port = 5000 }

abbrev bob : AddrPort
bob = record { addr = v4 0x02020202; port = 5001 }

abbrev openings : List Op
openings = adds 27015 west ∷ adds 27015 east ∷ adds 27016 west ∷ []

abbrev fleet : Router
fleet = run new_router openings

fleet-Inv : Inv fleet
fleet-Inv = run-Inv openings (omega arith)

run-Inv_example :
    Inv (
      run new_router (adds 27015 west ∷ routes alice 27015 7 ∷ adds 27015 west ∷ sweeps 5 100 ∷ []))
run-Inv_example =
    run-Inv (adds 27015 west ∷ routes alice 27015 7 ∷ adds 27015 west ∷ sweeps 5 100 ∷ [])
      (omega arith)

alice_forwarded : (route fleet alice 27015 7).2 ≡ dnat
unfolding route run apply add_backend bump ℕ_discrete Addr-discrete AddrPort-discrete pick
alice_forwarded = refl

mark_of_a_forward :
    (b : Backend) × Live fleet 27015 b
    × ((route fleet alice 27015 7).1 ≡ b.gen)
    × (0 < b.gen)
    × AssignedTo (route fleet alice 27015 7).0 alice b
    × ((port' : ℕ) (b' : Backend)
        → Live fleet port' b'
        → b'.gen % u32 ≡ b.gen
        → (port' ≡ 27015) × (b'.ip ≡ b.ip))
unfolding run apply add_backend bump ℕ_discrete Addr-discrete
mark_of_a_forward = dnat_mark fleet alice 27015 7 fleet-Inv (omega arith) alice_forwarded

abbrev alice_session : Session
alice_session = record { backend = west; gen = 1; last_seen = 7 }

alice_assigned : (route fleet alice 27015 7).0.sessions alice ≡ some alice_session
unfolding route run apply add_backend bump ℕ_discrete Addr-discrete AddrPort-discrete pick
alice_assigned = refl

abbrev later_ops : List Op
later_ops = routes bob 27015 8 ∷ removes 27015 east ∷ sweeps 60 20 ∷ []

route-sticky_example :
    ((route (run (route fleet alice 27015 7).0 later_ops) alice 27015 30).1
      ≡ (route fleet alice 27015 7).1)
    × ((route (run (route fleet alice 27015 7).0 later_ops) alice 27015 30).2 ≡ dnat)
route-sticky_example =
    route-sticky fleet alice 27015 7 alice_session later_ops 30 fleet-Inv alice_forwarded
      alice_assigned (ground arith)

abbrev restarts : List Op
restarts = routes bob 27015 8 ∷ adds 27016 east ∷ []

restart_cuts_off_example :
    (route (run (add_backend (route fleet alice 27015 7).0 27015 west).0 restarts) alice 27016 30).2
    ≢ dnat
unfolding run apply add_backend bump ℕ_discrete Addr-discrete
restart_cuts_off_example =
    restart_cuts_off fleet alice 27015 7 alice_session restarts 27016 30 fleet-Inv alice_forwarded
      alice_assigned (ground arith) (omega arith)

abbrev fleet_pool : Pool
fleet_pool = record {
  backends = record { ip = west; gen = 1 } ∷ record { ip = east; gen = 2 } ∷ [];
  rr = 0;
}

fleet_pool_lem : fleet.pools 27015 ≡ some fleet_pool
unfolding run apply add_backend bump ℕ_discrete Addr-discrete
fleet_pool_lem = refl

turns_of_two :
    route_all fleet (alice ∷ bob ∷ []) 27015 7 ≡ turns fleet_pool.backends 0 (alice ∷ bob ∷ [])
unfolding run apply add_backend bump ℕ_discrete Addr-discrete
turns_of_two =
    round_robin (alice ∷ bob ∷ []) fleet 27015 7 fleet_pool fleet_pool_lem refl (ground arith)
      (omega arith)

round_robin_fair_example :
    (j : ℕ) × (j < length (alice ∷ bob ∷ []))
    × (get_elem? (route_all fleet (alice ∷ bob ∷ []) 27015 7) j
        ≡ some ((get_or fleet_pool.backends 1 no_backend).gen % u32, dnat))
unfolding run apply add_backend bump ℕ_discrete Addr-discrete
round_robin_fair_example =
    round_robin_fair (alice ∷ bob ∷ []) fleet 27015 7 fleet_pool 1 fleet_pool_lem (ground arith)
      (omega arith) refl (omega arith)

-- Meanwhile alice's backend restarts, and one of her packets is dropped.
abbrev meanwhile : List Op
meanwhile = adds 27015 west ∷ routes alice 27015 8 ∷ []

one_port_per_client_example :
    (route (run (route fleet alice 27015 7).0 meanwhile) alice 27016 9).2 ≡ drop
unfolding run apply add_backend bump ℕ_discrete Addr-discrete route AddrPort-discrete find pick
one_port_per_client_example =
    one_port_per_client fleet alice 27015 7 meanwhile 27016 9
      (record { backends = record { ip = west; gen = 3 } ∷ []; rr = 0 }) fleet-Inv alice_forwarded
      ((λ e. e), ((λ e. e), tt)) (omega arith) (λ e. ground arith) refl

sweep_forgets_example :
    (route (add_backend (sweep (route fleet alice 27015 7).0 5 20) 27015 west).0 alice 27015 21).2
    ≡ dnat
sweep_forgets_example =
    sweep_forgets (route fleet alice 27015 7).0 alice alice_session 27015 west 5 20 21
      alice_assigned (omega arith)
