-- ===== src/Proxy/Conntrack.antt =====
-- orchestration/proxy/conntrack.go: FlushConntrack. The kernel's dump of its table, and whether it
-- deletes an entry, are arguments.
use csfleet.Prelude.{
  ℕ, ◌≡◌, ◌↔◌, Bool, true, false, ◌&&◌, List, [], ◌∷◌, Option, none, some, String, arith, Has, ite,
  ◌==◌, if◌then◌else◌,
}
use csfleet.Proxy.Addr.{Addr, unmap, Addr-discrete}

-- conntrack.Flow: an identity, and the protocol and source address of the reply tuple.
pub record Flow : Type 0 where
  pub id : ℕ
  pub protocol : ℕ
  pub reply_source : Addr

-- IPPROTO_UDP is 17.
unfoldable pub is_flow_of : Addr → Flow → Bool
is_flow_of addr f = f.protocol == 17 && ite (Addr-discrete (unmap f.reply_source) addr) true false

pub data Flushed : Type 0 where
  bad_ip : Flushed
  dump_failed : Flushed
  ok : List Flow → Flushed

module _ (deletes : Flow → Bool) where
  -- The loop: what is left of the dumped entries. A failed deletion is only logged.
  unfoldable pub flush_loop : Addr → List Flow → List Flow
  flush_loop addr [] = []
  flush_loop addr (f ∷ fs) =
      let rest = flush_loop addr fs in
      if is_flow_of addr f then (if deletes f then rest else f ∷ rest) else f ∷ rest

  unfoldable pub flush_conntrack : (String → Option Addr) → Option (List Flow) → String → Flushed
  flush_conntrack parse_addr dump ip = elim (parse_addr ip) [
    | none ↦ bad_ip
    | some a ↦ elim dump [ none ↦ dump_failed | some flows ↦ ok (flush_loop (unmap a) flows) ]
  ]

  flush_loop-Has :
      (addr : Addr) (fs : List Flow) (f : Flow)
      → Has f (flush_loop addr fs) ↔ (Has f fs × ((is_flow_of addr f && deletes f) ≡ false))
  unfolding flush_loop
  flush_loop-Has addr [] f = (λ h. absurd h, λ h. absurd h.0)
  flush_loop-Has addr (x ∷ fs) f =
      let (there, back) = flush_loop-Has addr fs f in
      (λ h. ground (arith, there), λ h. ground (arith, back))

  -- A flush that gets the dump keeps exactly the entries that are not UDP with this address as the
  -- reply source, and those whose deletion failed.
  pub flush_exact :
      (parse_addr : String → Option Addr) (flows : List Flow) (ip : String) (a : Addr)
      → parse_addr ip ≡ some a
      → (rest : List Flow) × (flush_conntrack parse_addr (some flows) ip ≡ ok rest)
        × ((f : Flow)
            → Has f rest ↔ (Has f flows × ((is_flow_of (unmap a) f && deletes f) ≡ false)))
  unfolding flush_conntrack
  flush_exact parse_addr flows ip a e =
      (flush_loop (unmap a) flows, ground arith, flush_loop-Has (unmap a) flows)
