-- ===== src/Tests/Accounts.antt =====
-- A passwd file of two accounts, and the theorem about src/adapters/system_users.rs applied to it.
use Prim.Native.Char.{Char, code}
use app_salmon.Base.Texts.{Lacks}
use app_salmon.Base.Lines.{line_feed, carriage_return}
use app_salmon.Base.{
  String, Bool, true, false, ◌==◌, if◌then◌else◌, ◌≡◌, refl, List, [], ◌∷◌, ok, arith,
}
use app_salmon.Adapters.SystemUsers.{parse_uid_gid}
use app_salmon.Adapters.SystemUsers.Passwd.{
  Account, passwd, IsAccount, lookup, parse_uid_gid-passwd,
}

abbrev lacks : Char → String → Bool
lacks sep String.[] = true
lacks sep (String.◌∷◌ c s) = let rest = lacks sep s in if code c == code sep then false else rest

of_lacks : (sep : Char) (s : String) → lacks sep s ≡ true → Lacks sep s
of_lacks sep String.[] h = tt
of_lacks sep (String.◌∷◌ c s) h = (ground arith, of_lacks sep s (ground arith))

one_line :
    (s : String)
    → lacks line_feed s ≡ true
    → lacks carriage_return s ≡ true
    → Lacks line_feed s × Lacks carriage_return s
one_line s h k = (of_lacks line_feed s h, of_lacks carriage_return s k)

abbrev root_account : Account
root_account = record {
  name = "root";
  password = "x";
  uid = 0;
  gid = 0;
  comment = ":/root:/bin/sh";
}

abbrev alice_account : Account
alice_account = record {
  name = "alice";
  password = "x";
  uid = 1001;
  gid = 1002;
  comment = "Alice:/home/alice:/bin/sh";
}

abbrev accounts : List Account
accounts = root_account ∷ alice_account ∷ []

root_account-IsAccount : IsAccount root_account
root_account-IsAccount = record {
  name_lacks = of_lacks ":" root_account.name refl;
  password_lacks = of_lacks ":" root_account.password refl;
  name_line = one_line root_account.name refl refl;
  password_line = one_line root_account.password refl refl;
  comment_line = one_line root_account.comment refl refl;
  uid_fits = omega arith;
  gid_fits = omega arith;
}

alice_account-IsAccount : IsAccount alice_account
alice_account-IsAccount = record {
  name_lacks = of_lacks ":" alice_account.name refl;
  password_lacks = of_lacks ":" alice_account.password refl;
  name_line = one_line alice_account.name refl refl;
  password_line = one_line alice_account.password refl refl;
  comment_line = one_line alice_account.comment refl refl;
  uid_fits = omega arith;
  gid_fits = omega arith;
}

alice_found : lookup "alice" accounts ≡ ok (1001, 1002)
alice_found = refl

parse_uid_gid-passwd_example : parse_uid_gid (passwd accounts) "alice" ≡ lookup "alice" accounts
parse_uid_gid-passwd_example =
    parse_uid_gid-passwd accounts "alice" (root_account-IsAccount, (alice_account-IsAccount, tt))
