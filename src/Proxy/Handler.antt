-- ===== src/Proxy/Handler.antt =====
-- orchestration/proxy/handler.go: the queue callback. What it tells the kernel is a list of verdicts.
pub mod Delivery
use csfleet.Prelude.{ℕ, ◌%◌, ◌<◌, ◌≡◌, refl, List, [], ◌∷◌, Option, none, some, arith, ap, ◌∙◌, sym}
use csfleet.Proxy.Addr.{Addr, AddrPort, v4}
use csfleet.Proxy.Packet.{parse_udp_v4}
use csfleet.Proxy.Router
use csfleet.Proxy.Router.{Router, Verdict, accept, dnat, drop, Backend, u32}
use csfleet.Proxy.Router.Effects.{Live}
use csfleet.Proxy.Router.Invariant.{Inv}
use csfleet.Proxy.Router.Marks.{route-dnat, dnat_mark, AssignedTo}
use csfleet.Proxy.Kernel.{Kernel}
use csfleet.Proxy.Service.{Proxy}
use csfleet.Proxy.Service.Coherence.{Coherent, target}

-- SetVerdict with NfAccept or NfDrop, and SetVerdictWithMark with NfAccept, for a packet id.
pub data Answer : Type 0 where
  accepts : ℕ → Answer
  drops : ℕ → Answer
  accepts_marked : ℕ → ℕ → Answer

-- nfqueue.Attribute, as far as the handler reads it.
pub record Attribute : Type 0 where
  pub packet_id : Option ℕ
  pub payload : Option (List ℕ)

answer : ℕ → Router × ℕ × Verdict → Router × List Answer
answer id (r, mark, dnat) = (r, accepts_marked id mark ∷ [])
answer id (r, mark, drop) = (r, drops id ∷ [])
answer id (r, mark, accept) = (r, accepts id ∷ [])

-- The outer `none` is a panic of the parser.
decide : Router → ℕ → ℕ → Option (Option (AddrPort × ℕ)) → Option (Router × List Answer)
unfolding answer
decide r now id none = none
decide r now id (some none) = some (r, accepts id ∷ [])
decide r now id (some (some (client, port))) = some (answer id (Router.route r client port now))

-- onPacket, without its result, which is always 0.
unfoldable pub on_packet : Router → Attribute → ℕ → Option (Router × List Answer)
unfolding decide
on_packet r a now = elim a.packet_id [
  | none ↦ some (r, [])
  | some id ↦ elim a.payload [ none ↦ some (r, []) | some pkt ↦ decide r now id (parse_udp_v4 pkt) ]
]
