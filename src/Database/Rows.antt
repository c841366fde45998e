-- ===== src/Database/Rows.antt =====
-- orchestration/database/types.go: the rows of the store. Hours are Go's float64, a parameter: all
-- that the program and the columns do with them is in `Hours`. A port is a natural number; a negative
-- one, which Go's int has, is not modelled.
use mathlib.Core.Option
use csfleet.Prelude.{ℕ, Bool, false, Option, String, ◌≡◌, refl, ◌⊎◌, inl, inr}

-- float64 hours: the value -1, the test `> 0`, and time.Duration(h * float64(time.Hour)) in
-- nanoseconds. A FLOAT column keeps `column` of a value, of single precision.
pub record Hours : Type 1 where
  pub Value : Type 0
  pub no_limit : Value
  pub positive : Value → Bool
  pub duration : Value → ℕ
  pub column : Value → Value
  pub no_limit_lem : positive no_limit ≡ false

pub data DesiredState : Type 0 where
  running stopped : DesiredState

-- A nil pointer is `none`. `updated_at` is written by the database only.
pub record ServerRow (h : Hours) : Type 0 where
  pub name : String
  pub ip : String
  pub port : Option ℕ
  pub cluster : Option String
  pub accepting_conns : Option Bool
  pub restart_after_hrs : Option h.Value
  pub stop_after_hrs : Option h.Value
  pub desired_state : DesiredState

pub record ClusterRow (h : Hours) : Type 0 where
  pub name : String
  pub port : ℕ
  pub accepting_conns : Bool
  pub restart_after_hrs : Option h.Value
  pub stop_after_hrs : Option h.Value
  pub lb_policy : String

-- A row as its columns keep it.
abbrev pub stored_server : {h : Hours} → ServerRow h → ServerRow h
stored_server {h} r = record r {
  restart_after_hrs = Option.map h.column r.restart_after_hrs;
  stop_after_hrs = Option.map h.column r.stop_after_hrs;
}

abbrev pub stored_cluster : {h : Hours} → ClusterRow h → ClusterRow h
stored_cluster {h} r = record r {
  restart_after_hrs = Option.map h.column r.restart_after_hrs;
  stop_after_hrs = Option.map h.column r.stop_after_hrs;
}

pub record EffectiveServer (h : Hours) : Type 0 where
  pub row : ServerRow h
  pub port : ℕ
  pub standalone : Bool
  pub accepting : Bool
  pub restart_hrs : h.Value
  pub stop_hrs : h.Value
  pub lb_policy : String

-- sql.ErrNoRows, which callers tell apart, and every other error of the database.
pub data StoreError : Type 0 where
  no_rows db_error unplaced : StoreError

pub data Result {ℓ} (A : Type ℓ) : Type ℓ where
  ok : A → Result A
  err : StoreError → Result A

infixl 5 ◌>>=◌
abbrev pub ◌>>=◌ {ℓ κ} : {A : Type ℓ} {B : Type κ} → Result A → (A → Result B) → Result B
ok a >>= f = f a
err e >>= f = err e

pub Result-cases {ℓ} :
    {A : Type ℓ} (r : Result A) → ((a : A) × (r ≡ ok a)) ⊎ ((e : StoreError) × (r ≡ err e))
Result-cases (ok a) = inl (a, refl)
Result-cases (err e) = inr (e, refl)
