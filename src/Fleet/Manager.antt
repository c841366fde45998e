-- ===== src/Fleet/Manager.antt =====
-- orchestration/fleet/manager.go: the dispatcher, which holds one worker per server name, and the part
-- of events.go that wakes a worker. `mu` makes each operation one step. A worker's goroutine is known
-- by the number it was started under, which stands for its pointer.
use csfleet.Prelude.{
  ℕ, ◌+◌, ◌<◌, ◌≡◌, ◌≢◌, inl, inr, Bool, true, false, List, [], ◌∷◌, Option, none, some, String,
  arith, Option-cases, Map, empty_map, update, String_discrete, ℕ_discrete, Has, ◌==◌,
  if◌then◌else◌,
}

-- A worker, as far as the manager uses it: which goroutine runs it, and its nudge slot.
pub record Handle : Type 0 where
  pub id : ℕ
  pub nudged : Bool

-- `alive` has the name of each goroutine that runs; `changed` is the slot of changeCh.
pub record Manager : Type 0 where
  pub workers : Map String Handle
  pub alive : Map ℕ String
  pub next_id : ℕ
  pub changed : Bool

abbrev pub new_manager : Manager
new_manager = record { workers = empty_map; alive = empty_map; next_id = 0; changed = false }

unfoldable pub spawn : String → Manager → Manager
spawn n m = record m {
  workers = update String_discrete m.workers n (some (record { id = m.next_id; nudged = false }));
  alive = update ℕ_discrete m.alive m.next_id (some n);
  next_id = m.next_id + 1;
}

-- The loop of dispatch over the listed servers.
unfoldable pub spawn_missing : List String → Manager → Manager
spawn_missing [] m = m
spawn_missing (n ∷ ns) m = elim (m.workers n) [
  | some w ↦ spawn_missing ns m
  | none ↦ spawn_missing ns (spawn n m)
]

wake_handle : Option Handle → Option Handle
wake_handle none = none
wake_handle (some w) = some (record w { nudged = true })

-- dispatch, with what ListServers gives: `none` is an error, which leaves no rows.
unfoldable pub dispatch : Option (List String) → Manager → Manager
unfolding wake_handle
dispatch rows m =
    let m' : Manager = elim rows [ none ↦ m | some names ↦ spawn_missing names m ] in
    record m' { workers = λ n. wake_handle (m'.workers n) }

-- watchEvents, of the server that a container of this name belongs to.
unfoldable pub container_died : String → Manager → Manager
unfolding wake_handle
container_died n m = record m {
  workers = update String_discrete m.workers n (wake_handle (m.workers n));
}

-- workerExited, and the end of the goroutine that calls it last.
unfoldable pub worker_exited : ℕ → Manager → Manager
worker_exited id m = elim (m.alive id) [
  | none ↦ m
  | some n ↦
      let gone = record m { alive = update ℕ_discrete m.alive id none; changed = true } in
      elim (m.workers n) [
        | none ↦ gone
        | some w ↦
            if w.id == id
            then record gone { workers = update String_discrete m.workers n none }
            else gone
      ]
]

pub data Step : Type 0 where
  dispatched : Option (List String) → Step
  died : String → Step
  exited : ℕ → Step

unfoldable pub step : Step → Manager → Manager
step (dispatched rows) m = dispatch rows m
step (died n) m = container_died n m
step (exited id) m = worker_exited id m

unfoldable pub steps : List Step → Manager → Manager
steps [] m = m
steps (s ∷ ss) m = steps ss (step s m)

abbrev RunsAs : Option Handle → ℕ → Type 0
RunsAs none id = ⊥
RunsAs (some w) id = w.id ≡ id

-- Every running goroutine is the one that the map has under its name.
record Owned (m : Manager) : Type 0 where
  known : (id : ℕ) (n : String) → m.alive id ≡ some n → RunsAs (m.workers n) id
  used : (id : ℕ) (n : String) → m.alive id ≡ some n → id < m.next_id

spawn-Owned : (n : String) (m : Manager) → m.workers n ≡ none → Owned m → Owned (spawn n m)
unfolding spawn
spawn-Owned n m e v = record {
  known = λ id k a. ground (arith, v.known id k, v.used id k);
  used = λ id k a. ground (arith, v.used id k);
}

spawn_missing-Owned : (ns : List String) (m : Manager) → Owned m → Owned (spawn_missing ns m)
unfolding spawn_missing
spawn_missing-Owned [] m v = v
spawn_missing-Owned (n ∷ ns) m v = elim (Option-cases (m.workers n)) [
  | inl e ↦ rw (e, spawn_missing) (spawn_missing-Owned ns (spawn n m) (spawn-Owned n m e v))
  | inr (w, e) ↦ rw (e, spawn_missing) (spawn_missing-Owned ns m v)
]

woken-Owned :
    (m : Manager) → Owned m → Owned (record m { workers = λ n. wake_handle (m.workers n) })
unfolding wake_handle
woken-Owned m v = record { known = λ id k a. ground (arith, v.known id k a); used = v.used }

step-Owned : (s : Step) (m : Manager) → Owned m → Owned (step s m)
unfolding step dispatch container_died worker_exited
step-Owned (dispatched none) m v = woken-Owned m v
step-Owned (dispatched (some ns)) m v =
    woken-Owned (spawn_missing ns m) (spawn_missing-Owned ns m v)
step-Owned (died n) m v = record { known = λ id k a. ground (arith, v.known id k a); used = v.used }
step-Owned (exited id) m v = record {
  known = λ j k a. ground (arith, v.known j k, v.known id k);
  used = λ j k a. ground (arith, v.used j k);
}

steps-Owned : (ss : List Step) (m : Manager) → Owned m → Owned (steps ss m)
unfolding steps
steps-Owned [] m v = v
steps-Owned (s ∷ ss) m v = steps-Owned ss (step s m) (step-Owned s m v)

new_manager-Owned : Owned new_manager
new_manager-Owned = record { known = λ id n a. ground arith; used = λ id n a. ground arith }

-- After any history of dispatches, container events and ended workers, no two running workers have
-- one name: a server is never reconciled by two goroutines.
pub one_worker_per_name :
    (ss : List Step) (i j : ℕ) (n : String)
    → (steps ss new_manager).alive i ≡ some n
    → (steps ss new_manager).alive j ≡ some n
    → i ≡ j
one_worker_per_name ss i j n a b =
    let v = steps-Owned ss new_manager new_manager-Owned in
    ground (arith, v.known i n a, v.known j n b)

spawn_missing-kept :
    (ns : List String) (m : Manager) (n : String) (w : Handle)
    → m.workers n ≡ some w
    → (spawn_missing ns m).workers n ≡ some w
unfolding spawn_missing spawn
spawn_missing-kept [] m n w e = e
spawn_missing-kept (k ∷ ns) m n w e =
    ground (arith, spawn_missing-kept ns m n w e, spawn_missing-kept ns (spawn k m) n w)

spawn_missing-covers :
    (ns : List String) (m : Manager) (n : String) → Has n ns → (spawn_missing ns m).workers n ≢ none
unfolding spawn_missing spawn
spawn_missing-covers [] m n h = elim h [ ]
spawn_missing-covers (k ∷ ns) m n h = elim (Option-cases (m.workers n)) [
  | inl e ↦ ground (
    arith,
    h,
    spawn_missing-covers ns m n,
    spawn_missing-covers ns (spawn k m) n,
    spawn_missing-kept ns (spawn k m) n (record { id = m.next_id; nudged = false }),
  )
  | inr (w, e) ↦ ground (arith, spawn_missing-kept (k ∷ ns) m n w e)
]

-- A dispatch leaves no listed server without a worker, keeps every worker that was there, and wakes
-- it, also when the list cannot be read.
pub dispatch_covers :
    (ns : List String) (rows : Option (List String)) (m : Manager) (n : String)
    → (Has n ns → (dispatch (some ns) m).workers n ≢ none)
      × ((w : Handle)
          → m.workers n ≡ some w
          → (dispatch rows m).workers n ≡ some (record w { nudged = true }))
unfolding dispatch
dispatch_covers ns rows m n = (
  λ h. ground (arith, spawn_missing-covers ns m n h),
  λ w e. elim (Option-cases rows) [
    | inl k ↦ ground arith
    | inr (names, k) ↦ ground (arith, spawn_missing-kept names m n w e)
  ],
)
