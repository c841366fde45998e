-- ===== src/Api/Http.antt =====
-- orchestration/api/api.go: the shared helpers of the handlers, and the gate in front of them; with
-- requireAuth of auth.go.
use csfleet.Prelude.{
  ◌≡◌, ◌⊎◌, inl, inr, Bool, true, false, ◌||◌, Option, none, some, String, if◌then◌else◌,
  Option-cases, arith,
}
use text.Mathlib.Text.{starts_with, ◌==◌ as str_eq}
use csfleet.Database.Rows.{Hours, StoreError, no_rows, db_error, unplaced, Result, ok, err}
use csfleet.Database.Sets.{Statement}
use csfleet.Database.Tables.{Store}

-- The codes that the handlers answer with.
pub data Status : Type 0 where
  status_ok status_created status_no_content status_bad_request status_unauthorized : Status
  status_forbidden status_not_found status_conflict status_internal_server_error : Status

-- A text of the source, or what Error() gives.
pub data Message : Type 0 where
  fixed_text : String → Message
  error_text : Message

-- What a handler writes: a body, an error, or a code alone.
pub data Response (A : Type 0) : Type 0 where
  write_json : Status → A → Response A
  write_err : Status → Message → Response A
  write_header : Status → Response A

unfoldable pub db_err : {A : Type 0} → StoreError → Response A
db_err no_rows = write_err status_not_found (fixed_text "not found")
db_err db_error = write_err status_internal_server_error error_text
db_err unplaced = write_err status_internal_server_error error_text

abbrev pub internal_error : {A : Type 0} → Response A
internal_error = write_err status_internal_server_error error_text

abbrev pub invalid_body : {A : Type 0} → Response A
invalid_body = write_err status_bad_request error_text

-- A query of the database that fails by itself, or gives what the tables say.
abbrev pub query : {A : Type 0} → Bool → Result A → Result A
query fails r = if fails then err db_error else r

abbrev pub reply : {A B : Type 0} → Result A → (A → Response B) → Response B
reply (ok a) f = f a
reply (err e) f = db_err e

-- A query other than that of the row: every error is a 500.
abbrev pub reply_500 : {A B : Type 0} → Result A → (A → Response B) → Response B
reply_500 (ok a) f = f a
reply_500 (err e) f = internal_error

-- One statement, which may fail by itself.
abbrev pub exec_one : {A : Type 0} → Bool → Statement A → Statement A
exec_one fails q t = if fails then none else q t

-- What the handlers change: the tables, and the slots of the manager's nudge channel and of the event
-- hub's poke channel.
pub record World (h : Hours) : Type 0 where
  pub store : Store h
  pub nudged : Bool
  pub poked : Bool

module _ {h : Hours} where
  unfoldable pub nudge : World h → World h
  nudge w = record w { nudged = true }

  unfoldable pub notify : World h → World h
  notify w = record w { poked = true }

-- The session cookie's token, if the request has one, and the path.
pub record Request : Type 0 where
  pub path : String
  pub cookie : Option String

module _ {A : Type 0} (parse_token : String → Option String) where
  -- `next` gets the user name that currentUser reads.
  unfoldable pub require_auth : (String → Response A) → Option String → Response A
  require_auth next none = write_err status_unauthorized (fixed_text "not authenticated")
  require_auth next (some token) = elim (parse_token token) [
    | none ↦ write_err status_unauthorized (fixed_text "not authenticated")
    | some username ↦ next username
  ]

  -- `serve` is the mux: without a session currentUser reads "".
  unfoldable pub gate : (String → Response A) → Request → Response A
  gate serve r =
      if str_eq r.path "/api/auth/login" || str_eq r.path "/api/auth/logout"
      then serve ""
      else if starts_with r.path "/api/"
      then require_auth serve r.cookie
      else serve ""

  -- Whatever the mux does, a request below /api/ that is not a login or a logout is answered 401 unless
  -- it has a session cookie whose token parse_token accepts; then the handler runs as the token's user.
  pub gate-require_auth :
      (serve : String → Response A) (r : Request)
      → starts_with r.path "/api/" ≡ true
      → (str_eq r.path "/api/auth/login" || str_eq r.path "/api/auth/logout") ≡ false
      → (gate serve r ≡ write_err status_unauthorized (fixed_text "not authenticated"))
        ⊎ ((token username : String) × (r.cookie ≡ some token)
            × (parse_token token ≡ some username)
            × (gate serve r ≡ serve username))
  unfolding gate require_auth
  gate-require_auth serve r p q = elim (Option-cases r.cookie) [
    | inl e ↦ inl (ground arith)
    | inr (token, e) ↦ elim (Option-cases (parse_token token)) [
      | inl k ↦ inl (ground arith)
      | inr (username, k) ↦ inr (token, username, e, k, ground arith)
    ]
  ]
