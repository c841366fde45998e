-- ===== src/Api/AccountTests.antt =====
-- The theorems on the accounts at one account.
use csfleet.Prelude.{
  String_discrete, ◌≡◌, refl, true, false, none, some, List, [], ◌∷◌, String, arith,
}
use mathlib.Core.Path.{subst}
use text.Mathlib.Text.{◌==◌ as str_eq}
use csfleet.Database.Tables.{select}
use csfleet.Database.Users.{delete_user as delete_user_row, create_user as insert_user, UserRow}
use csfleet.Database.Tests.{binary}
use csfleet.Api.Http.{
  write_err, write_header, status_created, status_no_content, status_unauthorized, fixed_text,
}
use csfleet.Api.Accounts.{
  create_user_as, Credentials, Crypto, Config, login, create_user, delete_user,
}
use csfleet.Api.Accounts.Seed.{
  NoAdmin, user_created, user_deleted, account_run, account_run-NoAdmin,
}
use csfleet.Api.Accounts.Logins.{
  Decides, login-Decides, Works, IsLogin, create_user-login, delete_user-login,
}

-- One hash, which accepts every password; a token is the user's name.
abbrev plain : Crypto
plain = record {
  generate = λ p. some "hash";
  compare = λ hash p. str_eq hash "hash";
  sign = λ u a b. some u;
  parse_token = some;
}

abbrev cfg : Config
cfg = record {
  admin_user = "admin";
  admin_pass_hash = "hash";
  to_lower = λ s. s;
  trim_space = λ s. s;
}

the_hash : (hash : String) → some "hash" ≡ some hash → ◌≡◌ {A = String} "hash" hash
the_hash hash e = ground arith

plain-Works : Works plain
plain-Works = record {
  accepts = λ p hash e. subst (λ x. str_eq x "hash" ≡ true) (the_hash hash e) refl;
  nonempty = λ p hash e. subst (λ x. str_eq x "" ≡ false) (the_hash hash e) refl;
  signs = λ u a b e. ground arith;
}

abbrev ann : Credentials
ann = record { username = "ann"; password = "long enough" }

account_run-NoAdmin_run : NoAdmin binary "admin" (
    account_run binary plain cfg
      (user_created false (some ann) ∷ user_deleted false "admin" ∷ [])
      [])
account_run-NoAdmin_run =
    account_run-NoAdmin binary plain cfg
      (user_created false (some ann) ∷ user_deleted false "admin" ∷ []) [] tt

login-Decides_example :
    Decides binary plain cfg false true 0 [] ann (login binary plain cfg false true 0 [] (some ann))
login-Decides_example = login-Decides binary plain cfg false true 0 [] ann

ann_is_created : (create_user binary plain cfg false (some ann) []).1 ≡ write_header status_created
unfolding create_user String_discrete create_user_as insert_user select
ann_is_created = refl

create_user-login_example : IsLogin "ann" (
    login binary plain cfg false true 0
      (create_user binary plain cfg false (some ann) []).0
      (some ann))
create_user-login_example =
    create_user-login binary plain cfg true 0 [] ann plain-Works ann_is_created

abbrev only_ann : List UserRow
only_ann = record { username = "ann"; pass_hash = "hash" } ∷ []

ann_is_deleted :
    (delete_user binary plain cfg false "ann" only_ann).1 ≡ write_header status_no_content
unfolding delete_user String_discrete delete_user_row select
ann_is_deleted = refl

delete_user-login_run :
    login binary plain cfg false true 0
      (delete_user binary plain cfg false "ann" only_ann).0
      (some ann)
    ≡ (none, write_err status_unauthorized (fixed_text "invalid credentials"))
delete_user-login_run =
    delete_user-login binary plain cfg true 0 only_ann "ann" ann refl ann_is_deleted
