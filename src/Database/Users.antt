-- ===== src/Database/Users.antt =====
-- orchestration/database/users.go: the web accounts.
use csfleet.Prelude.{
  ◌≡◌, ◌≢◌, refl, List, [], ◌∷◌, ◌++◌, Option, none, some, String, arith, if◌then◌else◌,
}
use text.Mathlib.Text.{◌==◌ as str_eq}
use csfleet.Database.Rows.{Result, ok, err, no_rows}
use csfleet.Database.Sets.{Collation}
use csfleet.Database.Tables.{select, delete, update_where}

pub record UserRow : Type 0 where
  pub username : String
  pub pass_hash : String

-- What a call returns: nil, ErrUserExists, or sql.ErrNoRows.
pub data Reply : Type 0 where
  done user_exists missing : Reply

module _ (c : Collation) where
  open c use {same}

  abbrev user_named : String → List UserRow → Option UserRow
  user_named = select (λ (u : UserRow). u.username) same

  unfoldable pub user_hash : List UserRow → String → Result String
  user_hash us n = elim (user_named n us) [ none ↦ err no_rows | some u ↦ ok u.pass_hash ]

  -- Error 1062 is the duplicate primary key.
  unfoldable pub create_user : String → String → List UserRow → List UserRow × Reply
  create_user n hash us = elim (user_named n us) [
    | some u ↦ (us, user_exists)
    | none ↦ (us ++ (record { username = n; pass_hash = hash } ∷ []), done)
  ]

  unfoldable pub delete_user : String → List UserRow → List UserRow × Reply
  delete_user n us = elim (user_named n us) [
    | none ↦ (us, missing)
    | some u ↦ (delete (λ (u : UserRow). u.username) same n us, done)
  ]

  -- The driver's RowsAffected counts the rows that an UPDATE changes, so none when the hash is the old
  -- one.
  unfoldable pub set_user_password : String → String → List UserRow → List UserRow × Reply
  set_user_password n hash us = elim (user_named n us) [
    | none ↦ (us, missing)
    | some u ↦ if str_eq u.pass_hash hash then (us, missing) else (
      update_where (λ (u : UserRow). u.username) same n (λ u. record u { pass_hash = hash }) us,
      done,
    )
  ]

  user_hash-append :
      (n hash : String) (us : List UserRow)
      → user_named n us ≡ none
      → user_named n (us ++ (record { username = n; pass_hash = hash } ∷ []))
        ≡ some (record { username = n; pass_hash = hash })
  unfolding select
  user_hash-append n hash [] e = ground (arith, c.same_refl n)
  user_hash-append n hash (u ∷ us) e = ground (arith, user_hash-append n hash us)

  named_none-delete :
      (n : String) (us : List UserRow)
      → user_named n (delete (λ (u : UserRow). u.username) same n us) ≡ none
  unfolding select delete
  named_none-delete n [] = refl
  named_none-delete n (u ∷ us) = ground (arith, named_none-delete n us)

  -- Creating an account stores its hash, unless the name is taken, and then nothing changes; deleting
  -- it makes the name free again, and reports a name that is not there.
  pub create_user-delete_user :
      (n hash : String) (us : List UserRow)
      → ((create_user n hash us).1 ≡ user_exists
          → (user_hash us n ≢ err no_rows) × ((create_user n hash us).0 ≡ us))
        × ((create_user n hash us).1 ≢ user_exists
            → (user_hash us n ≡ err no_rows) × (user_hash (create_user n hash us).0 n ≡ ok hash))
        × (user_hash (delete_user n us).0 n ≡ err no_rows)
        × ((delete_user n us).1 ≡ missing → (user_hash us n ≡ err no_rows))
  unfolding create_user delete_user user_hash
  create_user-delete_user n hash us =
      ground (arith, user_hash-append n hash us, named_none-delete n us)
