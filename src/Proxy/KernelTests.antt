-- ===== src/Proxy/KernelTests.antt =====
-- The proxy's theorems at a kernel whose map is a function, and at single packets.
use csfleet.Prelude.{
  dec_lt, ℕ, ◌<◌, ◌≡◌, ◌⊎◌, refl, true, false, none, some, List, [], ◌∷◌, arith, Map, empty_map,
  update, update_self, update_ne, ℕ_discrete, Has, ◌&&◌, ◌↔◌,
}
use csfleet.Proxy.Addr.{Addr, AddrPort, Addr-discrete, AddrPort-discrete, v4, unmap}
use csfleet.Proxy.Router
use csfleet.Proxy.Router.{Router, Backend, new_router}
use csfleet.Proxy.Router.Effects.{Live}
use csfleet.Proxy.Router.Marks.{AssignedTo}
use csfleet.Proxy.Router.History.{run, run-Inv}
use csfleet.Proxy.Packet.{parse_udp_v4, addr_from_4}
use csfleet.Proxy.Packet.Format.{Datagram, encode, parse-encode, IsUdpV4, parse_exact}
use csfleet.Proxy.Kernel.{Kernel}
use csfleet.Proxy.Service.{
  Proxy, Traffic, packet, swept, ok, add_pool_element, add_backend_at, remove_backend_at,
  remove_unbind_at,
}
use csfleet.Proxy.Service.Coherence.{
  Coherent, target, add_backend_at-Coherent, remove_backend_at-Coherent, remove_unbind_at-Coherent,
}
use csfleet.Proxy.Service.Moments.{
  Call, adds, passes, Moment, added, IsPending, after_call, run_calls, at_moment,
}
use csfleet.Proxy.Handler.{Answer, accepts_marked, Attribute, on_packet}
use csfleet.Proxy.Handler.Delivery.{OneVerdict, one_verdict, delivery}
use csfleet.Proxy.Conntrack.{Flow, is_flow_of, flush_conntrack, flush_exact, Flushed}
use csfleet.Proxy.Lifecycle.{
  Answers, nothing, everything, start, stop, start_all_or_nothing, stop-start,
}

-- A kernel that does what it is told.
abbrev map_kernel : Kernel
map_kernel = record {
  Nft = Map ℕ ℕ;
  opens = λ n. true;
  element = λ n m. n m;
  add_element = λ n m a. (update ℕ_discrete n m (some a), true);
  del_element = λ n m. (update ℕ_discrete n m none, true);
  add_ok = λ n m a e. update_self ℕ_discrete n m (some a);
  add_other = λ n m a j h. update_ne ℕ_discrete n m j (some a) h;
  del_other = λ n m j h. update_ne ℕ_discrete n m j none h;
}

abbrev west : Addr
west = v4 0x0a000002

abbrev idle : Proxy map_kernel
idle = record { router = new_router; nft = empty_map }

idle-Coherent : Coherent map_kernel idle
unfolding run
idle-Coherent = record {
  inv = run-Inv [] (omega arith);
  small = omega arith;
  agrees = λ port b l. absurd l;
}

abbrev serving : Proxy map_kernel
serving = (add_backend_at map_kernel [] idle 27015 west).0

west_added : (add_backend_at map_kernel [] idle 27015 west).1 ≡ ok
unfolding add_backend_at add_pool_element
west_added = refl

serving-Coherent : Coherent map_kernel serving
serving-Coherent =
    add_backend_at-Coherent map_kernel [] idle 27015 west idle-Coherent (omega arith)
      (λ e. ground (arith, west_added))

-- The same address behind the same port again, a restart, which replaces the element.
serving_again_added : (add_backend_at map_kernel [] serving 27015 west).1 ≡ ok
unfolding add_backend_at add_pool_element Router.add_backend Router.bump
serving_again_added = refl

serving_gen : serving.router.gen ≡ 1
unfolding add_backend_at add_pool_element Router.add_backend Router.bump
serving_gen = refl

-- The same, while a packet comes and a sweep runs.
abbrev busy : List Traffic
busy = packet (record { addr = v4 0x01020304; port = 5000 }) 27015 7 ∷ swept 5 100 ∷ []

serving_again_busy : (add_backend_at map_kernel busy serving 27015 west).1 ≡ ok
unfolding add_backend_at add_pool_element Router.add_backend Router.bump
serving_again_busy = refl

add_backend_at-Coherent_example :
    Coherent map_kernel (add_backend_at map_kernel busy serving 27015 west).0
add_backend_at-Coherent_example =
    add_backend_at-Coherent map_kernel busy serving 27015 west serving-Coherent
      (omega (arith, serving_gen)) (λ e. ground (arith, serving_again_busy))

remove_backend_at-Coherent_run :
    Coherent map_kernel (remove_backend_at map_kernel serving 27015 west).0
remove_backend_at-Coherent_run =
    remove_backend_at-Coherent map_kernel serving 27015 west serving-Coherent

removed_and_unbound : Coherent map_kernel (remove_unbind_at map_kernel serving 27015 west)
removed_and_unbound = remove_unbind_at-Coherent map_kernel serving 27015 west serving-Coherent

abbrev hello : Datagram
hello = record {
  middle = λ i. 0;
  a = 1;
  b = 2;
  c = 3;
  d = 4;
  options = 1 ∷ 1 ∷ 1 ∷ 1 ∷ [];
  option_words = 1;
  src_hi = 19;
  src_lo = 136;
  dest_hi = 105;
  dest_lo = 135;
  udp_length_hi = 0;
  udp_length_lo = 9;
  checksum_hi = 0;
  checksum_lo = 0;
  payload = 255 ∷ [];
}

abbrev alice : AddrPort
alice = record { addr = v4 (addr_from_4 1 2 3 4); port = 5000 }

hello_parsed : parse_udp_v4 (encode hello) ≡ some (some (alice, 27015))
hello_parsed = parse-encode hello refl (omega arith)

parse-encode_example : parse_udp_v4 (encode hello) ≡ some (some (alice, 27015))
parse-encode_example = parse-encode hello refl (omega arith)

datagram_parsed :
    (IsUdpV4 (encode hello) × ((x : AddrPort × ℕ) × (parse_udp_v4 (encode hello) ≡ some (some x))))
    ⊎ ((¬ IsUdpV4 (encode hello)) × (parse_udp_v4 (encode hello) ≡ some none))
datagram_parsed = parse_exact (encode hello)

abbrev queued : Attribute
queued = record { packet_id = some 12; payload = some (encode hello) }

verdict_of_a_packet :
    (x : Router × List Answer) × (on_packet serving.router queued 7 ≡ some x) × OneVerdict 12 x.1
verdict_of_a_packet = one_verdict serving.router queued 7 12 (encode hello) refl refl

-- West serves 27015, and is being added to 27016.
abbrev calls : List Call
calls = adds [] 27015 0x0a000002 ∷ passes busy ∷ []

abbrev adding : Moment
adding = added [] 27016 0x0a000002

abbrev half_way : Proxy map_kernel
half_way = at_moment map_kernel adding (run_calls map_kernel calls idle)

abbrev router_after : Router
router_after = (Router.route half_way.router alice 27015 200).0

alice_routed :
    ((Router.route half_way.router alice 27015 200).1 ≡ 1)
    × ((Router.route half_way.router alice 27015 200).2 ≡ Router.dnat)
unfolding Router.route Router.sweep add_backend_at add_pool_element Router.add_backend Router.bump
    Router.pick Router.find ℕ_discrete run_calls at_moment Addr-discrete AddrPort-discrete
    after_call dec_lt
alice_routed = (refl, refl)

alice_marked : on_packet half_way.router queued 200 ≡ some (router_after, accepts_marked 12 1 ∷ [])
unfolding on_packet
alice_marked = ground (arith, hello_parsed, alice_routed)

delivery_example :
    (b : Backend) × Live half_way.router 27015 b
    × (0 < 1)
    × AssignedTo router_after alice b
    × ((target map_kernel half_way.nft 1 ≡ some b.ip)
        ⊎ IsPending map_kernel adding (run_calls map_kernel calls idle) b)
delivery_example =
    delivery map_kernel calls empty_map adding queued 200 12 (encode hello) alice 27015 router_after
      1 (omega arith) refl refl hello_parsed alice_marked

-- The backend that is being added is assigned before its element is there.
early_packet :
    ((Router.route half_way.router alice 27016 200).1 ≡ 2)
    × ((Router.route half_way.router alice 27016 200).2 ≡ Router.dnat)
    × (target map_kernel half_way.nft 2 ≡ none)
unfolding Router.route Router.sweep add_backend_at add_pool_element Router.add_backend Router.bump
    Router.pick Router.find ℕ_discrete run_calls at_moment Addr-discrete AddrPort-discrete
    after_call dec_lt
early_packet = (refl, refl, refl)

abbrev flows : List Flow
flows =
    record { id = 1; protocol = 17; reply_source = west }
    ∷ record { id = 2; protocol = 6; reply_source = west }
    ∷ []

flush_exact_run :
    (rest : List Flow) × (flush_conntrack (λ f. true) (λ s. some west) (some flows) "10.0.0.2"
      ≡ Flushed.ok rest)
    × ((f : Flow) → Has f rest ↔ (Has f flows × ((is_flow_of (unmap west) f && true) ≡ false)))
flush_exact_run = flush_exact (λ f. true) (λ s. some west) flows "10.0.0.2" west refl

abbrev no_queue : Answers
no_queue = record {
  timeouts = true;
  table = true;
  docker_user = true;
  dial = true;
  queue = false;
  register = true;
  remove_rule = true;
}

start_all_or_nothing_run :
    (start no_queue nothing ≡ (everything, true)) ⊎ (start no_queue nothing ≡ (nothing, false))
start_all_or_nothing_run = start_all_or_nothing no_queue refl

stopped_after_start : stop no_queue (start no_queue nothing).0 ≡ nothing
stopped_after_start = stop-start no_queue no_queue refl refl
