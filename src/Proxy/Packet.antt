-- ===== src/Proxy/Packet.antt =====
-- orchestration/proxy/packet.go: the parser of the queued packet. A packet is a list of bytes; an
-- index out of range is a panic, the outer `none`; a packet that is not IPv4/UDP is the inner one.
pub mod Format
use csfleet.Prelude.{
  ℕ, ◌+◌, ◌*◌, ◌/◌, ◌%◌, ◌^◌, List, [], ◌∷◌, Option, none, some, length, get_elem?, ltb, ◌==◌, not,
  ◌||◌, if◌then◌else◌,
}
use csfleet.Proxy.Addr.{AddrPort, v4}

infixl 5 ◌>>=◌
abbrev pub ◌>>=◌ : {A B : Type 0} → Option A → (A → Option B) → Option B
none >>= f = none
some a >>= f = f a

-- binary.BigEndian.Uint16(pkt[i : i+2])
unfoldable pub uint16_at : List ℕ → ℕ → Option ℕ
uint16_at pkt i = do hi ← get_elem? pkt i; lo ← get_elem? pkt (i + 1); some (hi * 256 + lo)

-- netip.AddrFrom4
abbrev pub addr_from_4 : ℕ → ℕ → ℕ → ℕ → ℕ
addr_from_4 a b c d = ((a * 256 + b) * 256 + c) * 256 + d

-- The last step, past every guard: source address and ports.
pub read_flow : List ℕ → ℕ → Option (Option (AddrPort × ℕ))
read_flow pkt ihl = do
  a ← get_elem? pkt 12
  b ← get_elem? pkt 13
  c ← get_elem? pkt 14
  d ← get_elem? pkt 15
  src_port ← uint16_at pkt ihl
  dest_port ← uint16_at pkt (ihl + 2)
  some (some (record { addr = v4 (addr_from_4 a b c d); port = src_port }, dest_port))

check_udp : List ℕ → ℕ → Option (Option (AddrPort × ℕ))
check_udp pkt ihl = if ltb ihl 20 || ltb (length pkt) (ihl + 8) then some none else do
  protocol ← get_elem? pkt 9
  if not (protocol == 17) then some none else read_flow pkt ihl

unfoldable pub parse_udp_v4 : List ℕ → Option (Option (AddrPort × ℕ))
unfolding check_udp
parse_udp_v4 pkt = if ltb (length pkt) 20 then some none else do
  first ← get_elem? pkt 0
  if not (first / 16 == 4) then some none else check_udp pkt (first % 16 * 4)
