-- ===== src/Proxy/Addr.antt =====
-- Go's netip.Addr and netip.AddrPort, as far as the proxy uses them: equality, Unmap, Is4.
use csfleet.Prelude.{ℕ, ◌/◌, ◌%◌, ◌^◌, String, ◌==◌, if◌then◌else◌, ℕ_discrete, String_discrete}

-- `v6 n zone` is a 128-bit address with its zone.
pub data Addr : Type 0 where
  v4 : ℕ → Addr
  v6 : ℕ → String → Addr

pub record AddrPort : Type 0 where
  pub addr : Addr
  pub port : ℕ

unfoldable pub Addr-discrete : Discrete Addr
unfolding ℕ_discrete String_discrete
Addr-discrete = hlevel (ℕ_discrete, String_discrete)

unfoldable pub AddrPort-discrete : Discrete AddrPort
unfolding Addr-discrete
AddrPort-discrete = hlevel (ℕ_discrete, Addr-discrete)

-- netip.Addr.Unmap: an IPv4-mapped IPv6 address (::ffff:a.b.c.d) becomes the IPv4 address.
unfoldable pub unmap : Addr → Addr
unmap (v4 n) = v4 n
unmap (v6 n zone) = if n / 2 ^ 32 == 0xffff then v4 (n % 2 ^ 32) else v6 n zone
