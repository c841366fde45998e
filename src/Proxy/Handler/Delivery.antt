-- ===== src/Proxy/Handler/Delivery.antt =====
-- From the queued packet to the backend: the handler's verdict, and where the kernel then sends it.
use mathlib.Core.Path.{subst}
use csfleet.Prelude.{ℕ, ◌+◌, ◌%◌, ◌<◌, ◌≡◌, ◌⊎◌, refl, length, List, [], ◌∷◌, some, arith, inl, inr}
use csfleet.Proxy.Addr.{AddrPort}
use csfleet.Proxy.Packet.{parse_udp_v4}
use csfleet.Proxy.Packet.Format.{parse_exact}
use csfleet.Proxy.Router
use csfleet.Proxy.Router.{Router, new_router, Verdict, accept, dnat, drop, Backend, u32}
use csfleet.Proxy.Router.Effects.{Live}
use csfleet.Proxy.Router.Marks.{dnat_mark, AssignedTo}
use csfleet.Proxy.Kernel.{Kernel}
use csfleet.Proxy.Service.{Proxy}
use csfleet.Proxy.Service.Coherence.{target}
use csfleet.Proxy.Service.Moments.{Call, Moment, IsPending, run_calls, at_moment}
use csfleet.Proxy.Service.Agreement.{run_calls-Stays, fresh-Coherent, at_moment-AllBut}
use csfleet.Proxy.Handler.{Answer, accepts, drops, accepts_marked, Attribute, answer, on_packet}

abbrev pub OneVerdict : ℕ → List Answer → Type 0
OneVerdict id (accepts i ∷ []) = i ≡ id
OneVerdict id (drops i ∷ []) = i ≡ id
OneVerdict id (accepts_marked i m ∷ []) = i ≡ id
OneVerdict id _ = ⊥

answer-OneVerdict : (id : ℕ) (x : Router × ℕ × Verdict) → OneVerdict id (answer id x).1
unfolding answer
answer-OneVerdict id (r, mark, dnat) = refl
answer-OneVerdict id (r, mark, drop) = refl
answer-OneVerdict id (r, mark, accept) = refl

-- The handler never panics, and gives every packet that comes with an id and a payload exactly one
-- verdict, under its own id.
pub one_verdict :
    (r : Router) (a : Attribute) (now id : ℕ) (pkt : List ℕ)
    → a.packet_id ≡ some id
    → a.payload ≡ some pkt
    → (x : Router × List Answer) × (on_packet r a now ≡ some x) × OneVerdict id x.1
unfolding on_packet
one_verdict r a now id pkt e f = elim (parse_exact pkt) [
  | inl (_, ((client, port), g)) ↦
      let x = Router.route r client port now in
      (answer id x, ground (arith, g), answer-OneVerdict id x)
  | inr (_, g) ↦ ((r, accepts id ∷ []), ground (arith, g), refl)
]

-- A marked verdict comes from a forwarding decision of route.
answer-marked :
    (id : ℕ) (x : Router × ℕ × Verdict) (r : Router) (mark : ℕ)
    → answer id x ≡ (r, accepts_marked id mark ∷ [])
    → (x.2 ≡ dnat) × (x.0 ≡ r) × (x.1 ≡ mark)
unfolding answer
answer-marked id (q, m, dnat) r mark h = (refl, cc, cc)
answer-marked id (q, m, drop) r mark h = cc
answer-marked id (q, m, accept) r mark h = cc

module _ (k : Kernel) where
  -- Start with an empty router and any map, and let any calls of the backend entrypoints, packets and
  -- sweeps follow, fewer than 2^32 - 1, with IPv4 addresses. A packet that the handler then accepts under
  -- a mark, between two calls or in the middle of one, is for a backend that is live behind the port that
  -- it was sent to, and its client is now assigned to that backend. The kernel's map leads the mark to the
  -- backend's address, unless the backend is the one that an AddBackend under way is adding.
  pub delivery :
      (calls : List Call) (n : k.Nft) (m : Moment) (a : Attribute) (now id : ℕ) (pkt : List ℕ)
      (client : AddrPort) (port : ℕ) (r : Router) (mark : ℕ)
      → length calls + 1 < u32
      → a.packet_id ≡ some id
      → a.payload ≡ some pkt
      → parse_udp_v4 pkt ≡ some (some (client, port))
      → let p = run_calls k calls (record { router = new_router; nft = n }) in
        let q = at_moment k m p in
        on_packet q.router a now ≡ some (r, accepts_marked id mark ∷ [])
        → (b : Backend) × Live q.router port b
          × (0 < mark)
          × AssignedTo r client b
          × ((target k q.nft mark ≡ some b.ip) ⊎ IsPending k m p b)
  unfolding on_packet
  delivery calls n m a now id pkt client port r mark few e f g h =
      let p0 : Proxy k = record { router = new_router; nft = n } in
      let (c, counter) = run_calls-Stays k calls p0 (omega arith) (fresh-Coherent k n) in
      let p = run_calls k calls p0 in
      let v = at_moment-AllBut k m p (omega arith) c in
      let q = at_moment k m p in
      let x = Router.route q.router client port now in
      let (forwarded, same, stamped) = answer-marked id x r mark (ground arith) in
      let (b, live, is_mark, positive, assigned, _) =
        dnat_mark q.router client port now v.inv v.small forwarded in
      let exact : mark ≡ b.gen % u32 =
        omega (arith, stamped, is_mark, v.inv.bounded port b live, v.small) in
      (
        b,
        live,
        omega (arith, stamped, is_mark, positive),
        subst (λ z. AssignedTo z client b) same assigned,
        rw exact (v.agrees port b live),
      )
