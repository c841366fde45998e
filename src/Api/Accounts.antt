-- ===== src/Api/Accounts.antt =====
-- orchestration/api/auth.go: the logins and the handlers of the accounts. bcrypt and the JWT library are
-- parameters, and so are strings.ToLower and strings.TrimSpace: what is proved holds for any functions.
pub mod Seed
pub mod Logins
use csfleet.Prelude.{
  ℕ, ◌+◌, ◌*◌, Bool, true, false, ltb, List, [], ◌∷◌, map, Option, none, some, String, ite,
  String_discrete, if◌then◌else◌,
}
use Prim.Native.String.{len}
use text.Mathlib.Text.{◌==◌ as str_eq}
use csfleet.Database.Rows.{Result, ok, err}
use csfleet.Database.Sets.{Collation}
use csfleet.Database.Users.{
  UserRow, Reply, done, user_exists, missing, user_hash, create_user as insert_user,
  delete_user as delete_user_row, set_user_password as update_password,
}
use csfleet.Api.Http.{
  Status, status_ok, status_created, status_no_content, status_bad_request, status_unauthorized,
  status_forbidden, status_not_found, status_conflict, status_internal_server_error, Message,
  fixed_text, Response, write_json, write_err, write_header, internal_error, invalid_body,
}

-- The bodies of a login and of a new account.
pub record Credentials : Type 0 where
  pub username : String
  pub password : String

-- `expires` is `none` for the negative MaxAge that deletes the cookie.
pub record Cookie : Type 0 where
  pub name : String
  pub value : String
  pub path : String
  pub http_only : Bool
  pub secure : Bool
  pub same_site_strict : Bool
  pub expires : Option ℕ

abbrev session_cookie : String
session_cookie = "csfleet_session"

-- 24 hours, in nanoseconds.
abbrev token_ttl : ℕ
token_ttl = 24 * 3600000000000

abbrev pub min_pass_len : ℕ
min_pass_len = 8

-- `tls` says that the request came over TLS.
unfoldable pub set_session_cookie : Bool → String → ℕ → Cookie
set_session_cookie tls token exp = record {
  name = session_cookie;
  value = token;
  path = "/";
  http_only = true;
  secure = tls;
  same_site_strict = true;
  expires = some exp;
}

unfoldable pub clear_session_cookie : Bool → Cookie
clear_session_cookie tls = record {
  name = session_cookie;
  value = "";
  path = "/";
  http_only = true;
  secure = tls;
  same_site_strict = true;
  expires = none;
}

unfoldable pub logout : Bool → Cookie × Response Unit
logout tls = (clear_session_cookie tls, write_header status_no_content)

pub record UserResponse : Type 0 where
  pub username : String
  pub seed : Bool

-- bcrypt's two calls, the signature of the claims of a subject, the times of issue and of expiry, and
-- its verification, which gives the subject.
pub record Crypto : Type 0 where
  pub generate : String → Option String
  pub compare : String → String → Bool
  pub sign : String → ℕ → ℕ → Option String
  pub parse_token : String → Option String

pub record Config : Type 0 where
  pub admin_user : String
  pub admin_pass_hash : String
  pub to_lower : String → String
  pub trim_space : String → String

module _ (c : Collation) (k : Crypto) (cfg : Config) where
  open cfg use {admin_user, admin_pass_hash, to_lower, trim_space}

  -- The hash that a login is held against; `fails` says that the query fails.
  unfoldable pub login_hash : Bool → List UserRow → String → String
  login_hash fails us username =
      ite (String_discrete username admin_user) admin_pass_hash
        (if fails then "" else (elim (user_hash c us username) [ err e ↦ "" | ok hash ↦ hash ]))

  unfoldable pub sign_token : ℕ → String → Option String × ℕ
  sign_token now username = (k.sign username now (now + token_ttl), now + token_ttl)

  -- A verified login.
  unfoldable pub issue : Bool → ℕ → String → Option Cookie × Response String
  issue tls now username =
      let signed = sign_token now username in
      elim signed.0 [
        | none ↦ (none, write_err status_internal_server_error (fixed_text "could not issue token"))
        | some token ↦ (some (set_session_cookie tls token signed.1), write_json status_ok username)
      ]

  unfoldable pub login :
      Bool → Bool → ℕ → List UserRow → Option Credentials → Option Cookie × Response String
  login fails tls now us none = (none, invalid_body)
  login fails tls now us (some body) =
      let username = to_lower (trim_space body.username) in
      let hash = login_hash fails us username in
      if str_eq hash ""
      then (none, write_err status_unauthorized (fixed_text "invalid credentials"))
      else if k.compare hash body.password
      then issue tls now username
      else (none, write_err status_unauthorized (fixed_text "invalid credentials"))

  unfoldable pub list_users : Bool → List UserRow → Response (List UserResponse)
  list_users fails us =
      if fails
      then internal_error
      else write_json status_ok (
          record { username = admin_user; seed = true }
          ∷ map (λ (u : UserRow). record { username = u.username; seed = false }) us)

  -- What the store's call returned, as a response.
  abbrev created : List UserRow × Reply → List UserRow × Response Unit
  created (us, done) = (us, write_header status_created)
  created (us, user_exists) = (us, write_err status_conflict (fixed_text "user already exists"))
  created (us, missing) = (us, internal_error)

  abbrev changed : List UserRow × Reply → List UserRow × Response Unit
  changed (us, done) = (us, write_header status_no_content)
  changed (us, missing) = (us, write_err status_not_found (fixed_text "not found"))
  changed (us, user_exists) = (us, internal_error)

  unfoldable pub create_user_as :
      Bool → String → String → List UserRow → List UserRow × Response Unit
  create_user_as fails username password us =
      if ltb (len password) min_pass_len
      then (us, write_err status_bad_request (fixed_text "password must be at least 8 characters"))
      else (elim (k.generate password) [
        | none ↦ (us, write_err status_internal_server_error (fixed_text "could not hash password"))
        | some hash ↦
            if fails then (us, internal_error) else created (insert_user c username hash us)
      ])

  unfoldable pub create_user :
      Bool → Option Credentials → List UserRow → List UserRow × Response Unit
  create_user fails none us = (us, invalid_body)
  create_user fails (some body) us =
      let username = to_lower (trim_space body.username) in
      if str_eq username ""
      then (us, write_err status_bad_request (fixed_text "username is required"))
      else ite (String_discrete username admin_user)
          (us, write_err status_conflict (fixed_text "username is reserved"))
          (create_user_as fails username body.password us)

  unfoldable pub delete_user : Bool → String → List UserRow → List UserRow × Response Unit
  delete_user fails n us =
      let username = to_lower n in
      ite (String_discrete username admin_user)
        (us, write_err status_forbidden (fixed_text "cannot delete the seed admin account"))
        (if fails then (us, internal_error) else changed (delete_user_row c username us))

  unfoldable pub set_password_as :
      Bool → String → String → List UserRow → List UserRow × Response Unit
  set_password_as fails username password us =
      if ltb (len password) min_pass_len
      then (us, write_err status_bad_request (fixed_text "password must be at least 8 characters"))
      else (elim (k.generate password) [
        | none ↦ (us, write_err status_internal_server_error (fixed_text "could not hash password"))
        | some hash ↦
            if fails then (us, internal_error) else changed (update_password c username hash us)
      ])

  unfoldable pub set_user_password :
      Bool → String → Option String → List UserRow → List UserRow × Response Unit
  set_user_password fails n body us =
      let username = to_lower n in
      ite (String_discrete username admin_user)
        (us, write_err status_forbidden (fixed_text "seed admin password is managed via .env"))
        (elim body [ none ↦ (us, invalid_body) | some p ↦ set_password_as fails username p us ])
