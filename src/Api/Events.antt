-- ===== src/Api/Events.antt =====
-- orchestration/api/sse.go: the hub of the event streams, and the snapshot that it sends. Each method of
-- the hub holds its mutex, so it is one step.
use csfleet.Prelude.{
  ℕ, suc, ◌≡◌, refl, ◌==◌, Bool, false, List, [], ◌∷◌, map, Option, none, some, String, arith,
  if◌then◌else◌,
}
use csfleet.Database.Rows.{Hours, DesiredState}
use csfleet.Database.Sets.{Collation}
use csfleet.Api.Http.{write_json, status_ok, World}
use csfleet.Api.Requests.{ServerResponse, ClusterResponse, to_cluster_responses}
use csfleet.Api.Servers.{Live, server_statuses}
use csfleet.Api.Servers.Handlers.{Failing, server_responses, list_servers}
use csfleet.Api.Clusters.{list_clusters}

-- A send that does not wait.
abbrev pub offer : {A : Type 0} → A → Option A → Option A
offer a none = some a
offer a (some old) = some old

-- `S` and `D` are the data of the two feeds. A channel has one slot.
module _ (S D : Type 0) where
  pub record Client : Type 0 where
    pub id : ℕ
    pub state : Option S
    pub host : Option D

  -- A client's pointer is a number; `next` is none that was used.
  pub record Hub : Type 0 where
    pub clients : List Client
    pub next : ℕ
    pub poke : Bool

module _ {S D : Type 0} where
  unfoldable pub new_hub : Hub S D
  new_hub = record { clients = []; next = 0; poke = false }

  unfoldable pub add : Hub S D → Hub S D × ℕ
  add hub = (
    record hub {
      clients = record { id = hub.next; state = none; host = none } ∷ hub.clients;
      next = suc hub.next;
    },
    hub.next,
  )

  unfoldable pub without : ℕ → List (Client S D) → List (Client S D)
  without n [] = []
  without n (k ∷ ks) = let rest = without n ks in if k.id == n then rest else k ∷ rest

  unfoldable pub remove : ℕ → Hub S D → Hub S D
  remove n hub = record hub { clients = without n hub.clients }

  abbrev pub send_state : S → Client S D → Client S D
  send_state d k = record k { state = offer d k.state }

  abbrev pub send_host : D → Client S D → Client S D
  send_host d k = record k { host = offer d k.host }

  unfoldable pub broadcast_state : S → Hub S D → Hub S D
  broadcast_state d hub = record hub { clients = map (send_state d) hub.clients }

  unfoldable pub broadcast_host : D → Hub S D → Hub S D
  broadcast_host d hub = record hub { clients = map (send_host d) hub.clients }

  -- A round of the loop of run, with what the snapshot gave.
  unfoldable pub round : Option S → Hub S D → Hub S D
  round none hub = hub
  round (some d) hub = broadcast_state d hub

  -- The rounds without a read by any client between them.
  abbrev pub rounds : List (Option S) → Hub S D → Hub S D
  rounds [] hub = hub
  rounds (o ∷ os) hub = rounds os (round o hub)

  unfoldable pub client : ℕ → List (Client S D) → Option (Client S D)
  client n [] = none
  client n (k ∷ ks) = let rest = client n ks in if k.id == n then some k else rest

  client-full :
      (d old : S) (n : ℕ) (k : Client S D) (ks : List (Client S D))
      → client n ks ≡ some k
      → k.state ≡ some old
      → client n (map (send_state d) ks) ≡ some k
  unfolding client
  client-full d old n k [] e q = ground arith
  client-full d old n k (x ∷ ks) e q = ground (arith, client-full d old n k ks)

  client-empty :
      (d : S) (n : ℕ) (k : Client S D) (ks : List (Client S D))
      → client n ks ≡ some k
      → k.state ≡ none
      → client n (map (send_state d) ks) ≡ some (record k { state = some d })
  unfolding client
  client-empty d n k [] e q = ground arith
  client-empty d n k (x ∷ ks) e q = ground (arith, client-empty d n k ks)

  rounds-full :
      (os : List (Option S)) (old : S) (n : ℕ) (k : Client S D) (hub : Hub S D)
      → client n hub.clients ≡ some k
      → k.state ≡ some old
      → client n (rounds os hub).clients ≡ some k
  unfolding round broadcast_state
  rounds-full [] old n k hub e q = e
  rounds-full (none ∷ os) old n k hub e q = rounds-full os old n k hub e q
  rounds-full (some d ∷ os) old n k hub e q =
      rounds-full os old n k (round (some d) hub) (client-full d old n k hub.clients e q) q

  -- A client that reads nothing for a while is left with the first snapshot since its last read, not
  -- with the last one: after any further rounds its slot holds that snapshot, and its host feed is as it
  -- was. Its slot was empty.
  pub rounds-first :
      (d : S) (os : List (Option S)) (n : ℕ) (k : Client S D) (hub : Hub S D)
      → client n hub.clients ≡ some k
      → k.state ≡ none
      → client n (rounds (some d ∷ os) hub).clients ≡ some (record k { state = some d })
  unfolding round broadcast_state
  rounds-first d os n k hub e q =
      rounds-full os d n (record k { state = some d }) (round (some d) hub)
        (client-empty d n k hub.clients e q) refl

pub record SnapshotPayload (h : Hours) : Type 0 where
  pub servers : List (ServerResponse h)
  pub clusters : List (ClusterResponse h)

module _ {h : Hours} (c : Collation) (failing : Failing) (statuses : List Live) where
  -- `none` is the skipped push.
  unfoldable pub fleet_snapshot : (reads : ℕ → Bool) → World h → Option (SnapshotPayload h)
  fleet_snapshot reads w = elim (server_statuses (reads 0) statuses w.store.servers) [
    | none ↦ none
    | some sts ↦
        if reads 1
        then none
        else some (record {
          servers = server_responses c failing w.store sts;
          clusters = to_cluster_responses h w.store.clusters;
        })
  ]

  -- A pushed snapshot holds what the two list endpoints answer at the time, when no query fails.
  pub fleet_snapshot-list_servers :
      (prefix : String) (column : String → Option DesiredState) (fault : ℕ → Bool) (w : World h)
      (p : SnapshotPayload h)
      → fleet_snapshot (λ n. false) w ≡ some p
      → (list_servers c prefix column failing (λ n. false) fault statuses w
          ≡ write_json status_ok p.servers)
        × (list_clusters c (λ n. false) fault w ≡ write_json status_ok p.clusters)
  unfolding fleet_snapshot list_servers list_clusters server_statuses
  fleet_snapshot-list_servers prefix column fault w p e = ground arith
