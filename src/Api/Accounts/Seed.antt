-- ===== src/Api/Accounts/Seed.antt =====
-- The seed admin, which is no row of the table: no request makes it one, and its login never reads the
-- table.
use csfleet.Prelude.{
  ◌≡◌, ◌≢◌, refl, inl, inr, Bool, List, [], ◌∷◌, ◌++◌, Option, none, some, String, ltb,
  String_discrete, All, split_ite, split_if, Option-cases, Bool-cases,
}
use Prim.Native.String.{len}
use text.Mathlib.Text.{◌==◌ as str_eq}
use csfleet.Database.Sets.{Collation}
use csfleet.Database.Tables.{select, delete, update_where}
use csfleet.Database.Users.{
  UserRow, Reply, done, user_exists, missing, create_user as insert_user,
  delete_user as delete_user_row, set_user_password as update_password,
}
use csfleet.Api.Http.{Response}
use csfleet.Api.Accounts.{
  min_pass_len, Credentials, Crypto, Config, create_user, create_user_as, delete_user,
  set_user_password, set_password_as, created, changed,
}

module _ (c : Collation) (admin : String) where
  abbrev pub NoAdmin : List UserRow → Type 0
  NoAdmin us = All (λ (u : UserRow). u.username ≢ admin) us

  NoAdmin-append :
      (us : List UserRow) (u : UserRow) → NoAdmin us → u.username ≢ admin → NoAdmin (us ++ (u ∷ []))
  NoAdmin-append [] u a n = (n, tt)
  NoAdmin-append (x ∷ us) u a n = (a.0, NoAdmin-append us u a.1 n)

  NoAdmin-delete :
      (n : String) (us : List UserRow)
      → NoAdmin us
      → NoAdmin (delete (λ (u : UserRow). u.username) c.same n us)
  unfolding delete
  NoAdmin-delete n [] a = tt
  NoAdmin-delete n (x ∷ us) a = elim (Bool-cases (c.same n x.username)) [
    | inl e ↦ rw e (NoAdmin-delete n us a.1)
    | inr e ↦ rw e (a.0, NoAdmin-delete n us a.1)
  ]

  NoAdmin-update_where :
      (n hash : String) (us : List UserRow)
      → NoAdmin us
      → NoAdmin (
          update_where
            (λ (u : UserRow). u.username)
            c.same
            n
            (λ u. record u { pass_hash = hash })
            us)
  unfolding update_where
  NoAdmin-update_where n hash [] a = tt
  NoAdmin-update_where n hash (x ∷ us) a = elim (Bool-cases (c.same n x.username)) [
    | inl e ↦ rw e (a.0, NoAdmin-update_where n hash us a.1)
    | inr e ↦ rw e (a.0, NoAdmin-update_where n hash us a.1)
  ]

  abbrev named : String → List UserRow → Option UserRow
  named = select (λ (u : UserRow). u.username) c.same

  insert_user-NoAdmin :
      (n hash : String) (us : List UserRow)
      → n ≢ admin
      → NoAdmin us
      → NoAdmin (insert_user c n hash us).0
  unfolding insert_user
  insert_user-NoAdmin n hash us f a = elim (Option-cases (named n us)) [
    | inl e ↦ rw (e, insert_user) (NoAdmin-append us _ a f)
    | inr (u, e) ↦ rw (e, insert_user) a
  ]

  delete_user_row-NoAdmin :
      (n : String) (us : List UserRow) → NoAdmin us → NoAdmin (delete_user_row c n us).0
  unfolding delete_user_row
  delete_user_row-NoAdmin n us a = elim (Option-cases (named n us)) [
    | inl e ↦ rw (e, delete_user_row) a
    | inr (u, e) ↦ rw (e, delete_user_row) (NoAdmin-delete n us a)
  ]

  update_password-NoAdmin :
      (n hash : String) (us : List UserRow) → NoAdmin us → NoAdmin (update_password c n hash us).0
  unfolding update_password
  update_password-NoAdmin n hash us a = elim (Option-cases (named n us)) [
    | inl e ↦ rw (e, update_password) a
    | inr (u, e) ↦ elim (Bool-cases (str_eq u.pass_hash hash)) [
      | inl q ↦ rw (e, update_password) (rw q a)
      | inr q ↦ rw (e, update_password) (rw q (NoAdmin-update_where n hash us a))
    ]
  ]

-- The requests that change the accounts, with what the query of each does.
pub data AccountRequest : Type 0 where
  user_created : Bool → Option Credentials → AccountRequest
  user_deleted : Bool → String → AccountRequest
  password_set : Bool → String → Option String → AccountRequest

module _ (c : Collation) (k : Crypto) (cfg : Config) where
  open cfg use {admin_user, to_lower, trim_space}

  abbrev pub account_step : AccountRequest → List UserRow → List UserRow
  account_step (user_created fails body) us = (create_user c k cfg fails body us).0
  account_step (user_deleted fails n) us = (delete_user c k cfg fails n us).0
  account_step (password_set fails n body) us = (set_user_password c k cfg fails n body us).0

  abbrev pub account_run : List AccountRequest → List UserRow → List UserRow
  account_run [] us = us
  account_run (r ∷ rs) us = account_run rs (account_step r us)

  pub rows-created : (p : List UserRow × Reply) → (created c k cfg p).0 ≡ p.0
  rows-created (us, done) = refl
  rows-created (us, user_exists) = refl
  rows-created (us, missing) = refl

  pub rows-changed : (p : List UserRow × Reply) → (changed c k cfg p).0 ≡ p.0
  rows-changed (us, done) = refl
  rows-changed (us, user_exists) = refl
  rows-changed (us, missing) = refl

  abbrev Kept : List UserRow × Response Unit → Type 0
  Kept o = NoAdmin c admin_user o.0

  create_user_as-NoAdmin :
      (fails : Bool) (n p : String) (us : List UserRow)
      → n ≢ admin_user
      → NoAdmin c admin_user us
      → NoAdmin c admin_user (create_user_as c k cfg fails n p us).0
  unfolding create_user_as
  create_user_as-NoAdmin fails n p us f a = elim (Bool-cases (ltb (len p) min_pass_len)) [
    | inl e ↦ rw e a
    | inr e ↦ elim (Option-cases (k.generate p)) [
      | inl g ↦ rw (e, g) a
      | inr (hash, g) ↦ elim (Bool-cases fails) [
        | inl q ↦ rw (e, g, q) a
        | inr q ↦
            rw (e, g, q)
              (rw (rows-created (insert_user c n hash us))
                (insert_user-NoAdmin c admin_user n hash us f a))
      ]
    ]
  ]

  set_password_as-NoAdmin :
      (fails : Bool) (n p : String) (us : List UserRow)
      → NoAdmin c admin_user us
      → NoAdmin c admin_user (set_password_as c k cfg fails n p us).0
  unfolding set_password_as
  set_password_as-NoAdmin fails n p us a = elim (Bool-cases (ltb (len p) min_pass_len)) [
    | inl e ↦ rw e a
    | inr e ↦ elim (Option-cases (k.generate p)) [
      | inl g ↦ rw (e, g) a
      | inr (hash, g) ↦ elim (Bool-cases fails) [
        | inl q ↦ rw (e, g, q) a
        | inr q ↦
            rw (e, g, q)
              (rw (rows-changed (update_password c n hash us))
                (update_password-NoAdmin c admin_user n hash us a))
      ]
    ]
  ]

  account_step-NoAdmin :
      (r : AccountRequest) (us : List UserRow)
      → NoAdmin c admin_user us
      → NoAdmin c admin_user (account_step r us)
  unfolding create_user delete_user set_user_password
  account_step-NoAdmin (user_created fails none) us a = a
  account_step-NoAdmin (user_created fails (some body)) us a =
      let n = to_lower (trim_space body.username) in
      split_if Kept (str_eq n "") _ _ (λ e. a)
        (λ e.
          split_ite Kept (String_discrete n admin_user) _ _ (λ q. a)
            (λ q. create_user_as-NoAdmin fails n body.password us q a))
  account_step-NoAdmin (user_deleted fails n) us a =
      split_ite Kept (String_discrete (to_lower n) admin_user) _ _ (λ q. a)
        (λ q.
          split_if Kept fails _ _ (λ e. a)
            (λ e.
              rw (rows-changed (delete_user_row c (to_lower n) us))
                (delete_user_row-NoAdmin c admin_user (to_lower n) us a)))
  account_step-NoAdmin (password_set fails n none) us a =
      split_ite Kept (String_discrete (to_lower n) admin_user) _ _ (λ q. a) (λ q. a)
  account_step-NoAdmin (password_set fails n (some p)) us a =
      split_ite Kept (String_discrete (to_lower n) admin_user) _ _ (λ q. a)
        (λ q. set_password_as-NoAdmin fails (to_lower n) p us a)

  -- Whatever is asked of the accounts, no row has the name of the seed admin, if none had it before.
  pub account_run-NoAdmin :
      (rs : List AccountRequest) (us : List UserRow)
      → NoAdmin c admin_user us
      → NoAdmin c admin_user (account_run rs us)
  account_run-NoAdmin [] us a = a
  account_run-NoAdmin (r ∷ rs) us a =
      account_run-NoAdmin rs (account_step r us) (account_step-NoAdmin r us a)
