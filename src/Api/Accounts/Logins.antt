-- ===== src/Api/Accounts/Logins.antt =====
-- When a login succeeds, and what creating and deleting an account does to it.
use csfleet.Prelude.{
  ℕ, ◌+◌, ◌≡◌, ◌≢◌, refl, ◌⊎◌, inl, inr, Bool, true, false, List, Option, none, some, String, ltb,
  String_discrete, split_ite, split_if, arith, Option-cases,
}
use Prim.Native.String.{len}
use text.Mathlib.Text.{◌==◌ as str_eq}
use csfleet.Database.Rows.{ok, err, no_rows}
use csfleet.Database.Sets.{Collation}
use csfleet.Database.Users.{
  UserRow, Reply, done, user_exists, missing, user_hash, create_user as insert_user,
  delete_user as delete_user_row, create_user-delete_user,
}
use csfleet.Api.Http.{
  status_ok, status_created, status_no_content, status_unauthorized, status_internal_server_error,
  fixed_text, Response, write_json, write_err, write_header,
}
use csfleet.Api.Accounts.{
  Credentials, Cookie, Crypto, Config, min_pass_len, token_ttl, login, login_hash, issue,
  sign_token, set_session_cookie, create_user, create_user_as, delete_user, created, changed,
}
use csfleet.Api.Accounts.Seed.{rows-created, rows-changed}

abbrev pub name_of : Config → Credentials → String
name_of cfg body = cfg.to_lower (cfg.trim_space body.username)

module _ (c : Collation) (k : Crypto) (cfg : Config) (fails tls : Bool) (now : ℕ) where
  -- The outcomes of a login.
  abbrev pub Decides : List UserRow → Credentials → Option Cookie × Response String → Type 0
  Decides us body (some cookie, write_json status_ok username) =
      (username ≡ name_of cfg body)
      × (k.compare (login_hash c k cfg fails us username) body.password ≡ true)
      × (k.sign username now (now + token_ttl) ≡ some cookie.value)
      × (cookie.http_only ≡ true)
      × (cookie.secure ≡ tls)
  Decides us body (none, write_err status_unauthorized m) =
      (m ≡ fixed_text "invalid credentials")
      × ((str_eq (login_hash c k cfg fails us (name_of cfg body)) "" ≡ true)
          ⊎ (k.compare (login_hash c k cfg fails us (name_of cfg body)) body.password ≡ false))
  Decides us body (none, write_err status_internal_server_error m) =
      k.sign (name_of cfg body) now (now + token_ttl) ≡ none
  Decides us body _ = ⊥

  issue-Decides :
      (us : List UserRow) (body : Credentials)
      → k.compare (login_hash c k cfg fails us (name_of cfg body)) body.password ≡ true
      → Decides us body (issue c k cfg tls now (name_of cfg body))
  unfolding issue sign_token set_session_cookie
  issue-Decides us body e = elim (Option-cases (k.sign (name_of cfg body) now (now + token_ttl))) [
    | inl q ↦ rw (q, issue) q
    | inr (token, q) ↦ rw (q, issue) (refl, e, q, refl, refl)
  ]

  -- A login, whose body is decoded, ends in one of three ways. The session cookie, which scripts cannot read, is given only for
  -- a password that the stored hash accepts, with a token signed for that user. All other logins are
  -- answered 401 with one text, whether the name is unknown or the password wrong, unless the token
  -- could not be signed.
  pub login-Decides :
      (us : List UserRow) (body : Credentials)
      → Decides us body (login c k cfg fails tls now us (some body))
  unfolding login
  login-Decides us body =
      let hash = login_hash c k cfg fails us (name_of cfg body) in
      split_if (Decides us body) (str_eq hash "") _ _ (λ e. (refl, inl e))
        (λ e.
          split_if (Decides us body) (k.compare hash body.password) _ _ (issue-Decides us body)
            (λ q. (refl, inr q)))

-- What the code relies on in bcrypt and in the JWT library: a generated hash is not empty and accepts
-- its password, and a token can be signed.
pub record Works (k : Crypto) : Type 0 where
  pub accepts : (p hash : String) → k.generate p ≡ some hash → k.compare hash p ≡ true
  pub nonempty : (p hash : String) → k.generate p ≡ some hash → str_eq hash "" ≡ false
  pub signs : (u : String) (a b : ℕ) → k.sign u a b ≢ none

abbrev pub IsLogin : String → Option Cookie × Response String → Type 0
IsLogin u (some cookie, write_json status_ok v) = v ≡ u
IsLogin u _ = ⊥

module _ (c : Collation) (k : Crypto) (cfg : Config) (tls : Bool) (now : ℕ) where
  open cfg use {admin_user, to_lower}

  issue-IsLogin : (u : String) → Works k → IsLogin u (issue c k cfg tls now u)
  unfolding issue sign_token
  issue-IsLogin u w = elim (Option-cases (k.sign u now (now + token_ttl))) [
    | inl e ↦ absurd (w.signs u now (now + token_ttl) e)
    | inr (token, e) ↦ rw (e, issue) refl
  ]

  stored_hash :
      (us : List UserRow) (n hash : String)
      → n ≢ admin_user
      → user_hash c us n ≡ ok hash
      → login_hash c k cfg false us n ≡ hash
  unfolding login_hash
  stored_hash us n hash f e = ground (arith, f, e)

  stored-IsLogin :
      (us : List UserRow) (body : Credentials) (hash : String)
      → Works k
      → name_of cfg body ≢ admin_user
      → user_hash c us (name_of cfg body) ≡ ok hash
      → k.generate body.password ≡ some hash
      → IsLogin (name_of cfg body) (login c k cfg false tls now us (some body))
  unfolding login
  stored-IsLogin us body hash w f e g = rw (stored_hash us (name_of cfg body) hash f e) (
      rw (w.nonempty body.password hash g, w.accepts body.password hash g)
        (issue-IsLogin (name_of cfg body) w))

  created-done :
      (p : List UserRow × Reply)
      → (created c k cfg p).1 ≡ write_header status_created
      → p.1 ≢ user_exists
  created-done (us, done) e = λ q. ground arith
  created-done (us, user_exists) e = ground arith
  created-done (us, missing) e = ground arith

  changed-done :
      (p : List UserRow × Reply)
      → (changed c k cfg p).1 ≡ write_header status_no_content
      → p.1 ≡ done
  changed-done (us, done) e = refl
  changed-done (us, user_exists) e = ground arith
  changed-done (us, missing) e = ground arith

  -- The new account is in the rows `o.0`, if the answer `o.1` is 201.
  abbrev CanLogin : Credentials → List UserRow × Response Unit → Type 0
  CanLogin body o =
      o.1 ≡ write_header status_created
      → IsLogin (name_of cfg body) (login c k cfg false tls now o.0 (some body))

  create_user_as-CanLogin :
      (us : List UserRow) (body : Credentials)
      → Works k
      → name_of cfg body ≢ admin_user
      → CanLogin body (create_user_as c k cfg false (name_of cfg body) body.password us)
  unfolding create_user_as
  create_user_as-CanLogin us body w f =
      let n = name_of cfg body in
      split_if (CanLogin body) (ltb (len body.password) min_pass_len) _ _ (λ e q. ground arith)
        (λ e. elim (Option-cases (k.generate body.password)) [
          | inl g ↦ rw g (λ q. ground arith)
          | inr (hash, g) ↦ rw g (λ q.
              let p = insert_user c n hash us in
              rw (rows-created c k cfg p) (
                stored-IsLogin p.0 body hash w f
                  ((create_user-delete_user c n hash us).1 (created-done p q)).1 g))
        ])

  -- Who was given an account can log in with it: after a request to create an account that was
  -- answered 201, a login with the same body succeeds. The libraries work as documented.
  pub create_user-login :
      (us : List UserRow) (body : Credentials)
      → Works k
      → (create_user c k cfg false (some body) us).1 ≡ write_header status_created
      → IsLogin
          (name_of cfg body)
          (login c k cfg false tls now (create_user c k cfg false (some body) us).0 (some body))
  unfolding create_user
  create_user-login us body w =
      let n = name_of cfg body in
      split_if (CanLogin body) (str_eq n "") _ _ (λ e q. ground arith)
        (λ e.
          split_ite (CanLogin body) (String_discrete n admin_user) _ _ (λ p q. ground arith)
            (create_user_as-CanLogin us body w))

  -- No login of the account, once its deletion was answered 204.
  abbrev Locked : Credentials → List UserRow × Response Unit → Type 0
  Locked body o =
      o.1 ≡ write_header status_no_content
      → login c k cfg false tls now o.0 (some body)
        ≡ (none, write_err status_unauthorized (fixed_text "invalid credentials"))

  unknown_hash :
      (us : List UserRow) (n : String)
      → n ≢ admin_user
      → user_hash c us n ≡ err no_rows
      → login_hash c k cfg false us n ≡ ""
  unfolding login_hash
  unknown_hash us n f e = ground (arith, f, e)

  unknown-Locked :
      (us : List UserRow) (body : Credentials)
      → name_of cfg body ≢ admin_user
      → user_hash c us (name_of cfg body) ≡ err no_rows
      → login c k cfg false tls now us (some body)
        ≡ (none, write_err status_unauthorized (fixed_text "invalid credentials"))
  unfolding login
  unknown-Locked us body f e = rw (unknown_hash us (name_of cfg body) f e) refl

  -- A deleted account cannot log in: after a request to delete it that was answered 204, every login
  -- under its name, with any password, is answered 401.
  pub delete_user-login :
      (us : List UserRow) (n : String) (body : Credentials)
      → name_of cfg body ≡ to_lower n
      → (delete_user c k cfg false n us).1 ≡ write_header status_no_content
      → login c k cfg false tls now (delete_user c k cfg false n us).0 (some body)
        ≡ (none, write_err status_unauthorized (fixed_text "invalid credentials"))
  unfolding delete_user
  delete_user-login us n body e =
      let p = delete_user_row c (to_lower n) us in
      split_ite (Locked body) (String_discrete (to_lower n) admin_user) _ _ (λ a q. ground arith)
        (λ a q. rw (rows-changed c k cfg p) (
          unknown-Locked p.0 body (rw e a) (rw e (create_user-delete_user c (to_lower n) "" us).2)))
