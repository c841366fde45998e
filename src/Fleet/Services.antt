-- ===== src/Fleet/Services.antt =====
-- What a worker asks of the rest of the program and of docker, as a parameter of the model. Every
-- answer may depend on the whole history of calls so far, so no answer is fixed in advance.
use csfleet.Prelude.{ℕ, Bool, List, Option, String, ◌≡◌, ◌⊎◌, inl, inr, refl}
use csfleet.Database.Rows.{Hours, EffectiveServer, Result}

-- server.Instance, by its container.
pub record Instance : Type 0 where
  pub container : ℕ

-- server.ConfigPayload and database.ConfigFileRow.
pub record ConfigPayload : Type 0 where
  pub name : String
  pub filename : String
  pub content : String

-- server.Definition; the network is the constant "csfleet".
pub record Definition : Type 0 where
  pub name : String
  pub ip : String
  pub env : List (String × String)

-- The calls that change something outside the worker. The last argument of `added` and `persisted`
-- says whether the call succeeded.
pub data Event : Type 0 where
  signalled : Event
  flushed : String → Event
  started : Instance → Event
  start_failed : Event
  added : ℕ → String → Bool → Event
  removed : ℕ → String → Event
  removed_unbinding : ℕ → String → Event
  stopped : Instance → Event
  unmanaged : ℕ → Event
  persisted : Bool → Event
  retry_after : ℕ → Event

-- Newest first.
abbrev pub History : Type 0
History = List Event

-- A value, or the text of an error.
pub data Answer {ℓ} (A : Type ℓ) : Type ℓ where
  got : A → Answer A
  failed : String → Answer A

infixl 5 ◌>>=◌
abbrev pub ◌>>=◌ {ℓ κ} : {A : Type ℓ} {B : Type κ} → Answer A → (A → Answer B) → Answer B
got a >>= f = f a
failed e >>= f = failed e

pub Answer-cases :
    {A : Type 0} (a : Answer A) → ((x : A) × (a ≡ got x)) ⊎ ((m : String) × (a ≡ failed m))
Answer-cases (got x) = inl (x, refl)
Answer-cases (failed m) = inr (m, refl)

pub record Services (h : Hours) : Type 0 where
  -- Store
  pub resolve_server : History → String → Result (EffectiveServer h)
  pub load_env : History → String → String → Answer (List (String × String))
  pub effective_plugins : History → String → String → Answer (List String)
  pub effective_configs : History → String → String → Answer (List String)
  pub get_config_file : History → String → Answer ConfigPayload
  pub persist_stop : History → String → Bool
  -- Proxy: `none` is success.
  pub flush_conntrack : History → String → Option String
  pub add_backend : History → ℕ → String → Option String
  -- server.Start, and docker's view of a container.
  pub start : History → Definition → List String → List ConfigPayload → Answer Instance
  pub is_alive : History → Instance → Bool
  -- time.Now in nanoseconds, and fmt's %q.
  pub now : History → ℕ
  pub quote : String → String
