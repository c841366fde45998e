-- ===== src/Proxy/Packet/Format.antt =====
-- The packets that the parser takes, and what it reads off them.
use Prim.Native.Nat.add
use native.Mathlib.Nat.{zero-add, add_assoc}
use csfleet.Prelude.{
  dec_lt, get_or, get_elem?-get_or, ◌⊎◌, inl, inr, ℕ, ◌+◌, ◌*◌, ◌/◌, ◌%◌, ◌≤◌, ◌<◌, ◌≡◌, ◌∙◌, List,
  [], ◌∷◌, ◌++◌, none, some, length, get_elem?, arith, length-append,
}
use csfleet.Proxy.Addr.{AddrPort, v4}
use csfleet.Proxy.Packet.{parse_udp_v4, uint16_at, read_flow, addr_from_4}

-- An IPv4 packet with its options and a UDP header, as the wire has it.
pub record Datagram : Type 0 where
  pub middle : ℕ → ℕ
  pub a : ℕ
  pub b : ℕ
  pub c : ℕ
  pub d : ℕ
  pub options : List ℕ
  pub option_words : ℕ
  pub src_hi : ℕ
  pub src_lo : ℕ
  pub dest_hi : ℕ
  pub dest_lo : ℕ
  pub udp_length_hi : ℕ
  pub udp_length_lo : ℕ
  pub checksum_hi : ℕ
  pub checksum_lo : ℕ
  pub payload : List ℕ

-- Version 4, a header of 5 words and the options, protocol 17 at byte 9.
abbrev fixed_header : Datagram → List ℕ
fixed_header p =
    (0x45 + p.option_words)
    ∷ p.middle 1
    ∷ p.middle 2
    ∷ p.middle 3
    ∷ p.middle 4
    ∷ p.middle 5
    ∷ p.middle 6
    ∷ p.middle 7
    ∷ p.middle 8
    ∷ 17
    ∷ p.middle 10
    ∷ p.middle 11
    ∷ p.a
    ∷ p.b
    ∷ p.c
    ∷ p.d
    ∷ p.middle 16
    ∷ p.middle 17
    ∷ p.middle 18
    ∷ p.middle 19
    ∷ []

abbrev udp_part : Datagram → List ℕ
udp_part p =
    p.src_hi ∷ p.src_lo ∷ p.dest_hi ∷ p.dest_lo ∷ p.udp_length_hi ∷ p.udp_length_lo ∷ p.checksum_hi
    ∷ p.checksum_lo ∷ p.payload

pub encode : Datagram → List ℕ
encode p = (fixed_header p ++ p.options) ++ udp_part p

get_elem?-append_add :
    (xs ys : List ℕ) (k : ℕ) → get_elem? (xs ++ ys) (length xs + k) ≡ get_elem? ys k
get_elem?-append_add [] ys k = rw zero-add
get_elem?-append_add (x ∷ xs) ys k = rw (add.suc (length xs) k) (get_elem?-append_add xs ys k)

uint16_at-append :
    (xs ys : List ℕ) (i k : ℕ) → i ≡ length xs + k → uint16_at (xs ++ ys) i ≡ uint16_at ys k
unfolding uint16_at
uint16_at-append xs ys i k e =
    let next : i + 1 ≡ length xs + (k + 1) = omega arith in
    rw (e, add_assoc, get_elem?-append_add xs ys k, get_elem?-append_add xs ys (k + 1))

-- Parsing what was encoded gives back the source address and both ports, whatever options the header
-- has, up to the 10 words that its length field allows.
pub parse-encode :
    (p : Datagram)
    → length p.options ≡ 4 * p.option_words
    → p.option_words ≤ 10
    → parse_udp_v4 (encode p)
      ≡ some (
          some (
            record { addr = v4 (addr_from_4 p.a p.b p.c p.d); port = p.src_hi * 256 + p.src_lo },
            p.dest_hi * 256 + p.dest_lo,
          ))
unfolding parse_udp_v4 read_flow uint16_at encode
parse-encode p h k =
    let pre = fixed_header p ++ p.options in
    let long = length-append pre (udp_part p) in
    let ihl : (0x45 + p.option_words) % 16 * 4 ≡ length pre + 0 = omega arith in
    let src = uint16_at-append pre (udp_part p) ((0x45 + p.option_words) % 16 * 4) 0 ihl in
    let dest =
      uint16_at-append pre (udp_part p) ((0x45 + p.option_words) % 16 * 4 + 2) 2 (omega arith) in
    ground (arith, long, src, dest)

-- Which packets are IPv4/UDP with a whole header.
abbrev pub IsUdpV4 : List ℕ → Type 0
IsUdpV4 pkt =
    let ihl = get_or pkt 0 0 % 16 * 4 in
    (20 ≤ length pkt)
    × (get_or pkt 0 0 / 16 ≡ 4)
    × (20 ≤ ihl)
    × (ihl + 8 ≤ length pkt)
    × (get_or pkt 9 0 ≡ 17)

uint16_at-total : (pkt : List ℕ) (i : ℕ) → i + 1 < length pkt → (n : ℕ) × (uint16_at pkt i ≡ some n)
unfolding uint16_at
uint16_at-total pkt i h =
    let hi = get_elem?-get_or pkt i 0 (omega arith) in
    let lo = get_elem?-get_or pkt (i + 1) 0 h in
    (get_or pkt i 0 * 256 + get_or pkt (i + 1) 0, ground (arith, hi, lo))

read_flow-total :
    (pkt : List ℕ) (ihl : ℕ)
    → 20 ≤ length pkt
    → ihl + 8 ≤ length pkt
    → (x : AddrPort × ℕ) × (read_flow pkt ihl ≡ some (some x))
unfolding read_flow
read_flow-total pkt ihl h k =
    let a = get_elem?-get_or pkt 12 0 (omega arith) in
    let b = get_elem?-get_or pkt 13 0 (omega arith) in
    let c = get_elem?-get_or pkt 14 0 (omega arith) in
    let d = get_elem?-get_or pkt 15 0 (omega arith) in
    let (src, e) = uint16_at-total pkt ihl (omega arith) in
    let (dest, f) = uint16_at-total pkt (ihl + 2) (omega arith) in
    (
      (
        record {
          addr =
              v4 (
                addr_from_4 (get_or pkt 12 0) (get_or pkt 13 0) (get_or pkt 14 0)
                  (get_or pkt 15 0));
          port = src;
        },
        dest,
      ),
      rw (a, b, c, d, e, f),
    )

parse_cases :
    (pkt : List ℕ)
    → (IsUdpV4 pkt × (parse_udp_v4 pkt ≡ read_flow pkt (get_or pkt 0 0 % 16 * 4)))
      ⊎ ((¬ IsUdpV4 pkt) × (parse_udp_v4 pkt ≡ some none))
unfolding parse_udp_v4
parse_cases pkt = elim (dec_lt (length pkt) 20) [
  | yes short ↦ inr (λ u. omega arith, ground arith)
  | no long ↦
      let first = get_elem?-get_or pkt 0 0 (omega arith) in
      let protocol = get_elem?-get_or pkt 9 0 (omega arith) in ground (arith, first, protocol)
]

-- No packet makes the parser read out of range. It takes exactly the IPv4/UDP packets with a whole
-- header, and turns every other one down.
pub parse_exact :
    (pkt : List ℕ)
    → (IsUdpV4 pkt × ((x : AddrPort × ℕ) × (parse_udp_v4 pkt ≡ some (some x))))
      ⊎ ((¬ IsUdpV4 pkt) × (parse_udp_v4 pkt ≡ some none))
parse_exact pkt = elim (parse_cases pkt) [
  | inl (u, e) ↦
      let (x, f) = read_flow-total pkt (get_or pkt 0 0 % 16 * 4) u.0 u.3 in inl (u, (x, e ∙ f))
  | inr r ↦ inr r
]
