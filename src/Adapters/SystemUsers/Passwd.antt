-- ===== src/Adapters/SystemUsers/Passwd.antt =====
-- src/adapters/system_users.rs: an account is found in a passwd file that lists it.
use Prim.Native.Char.{Char, code}
use Prim.Native.String
use app_salmon.Base.{
  ℕ, ◌<◌, ◌≡◌, refl, String, Bool-cases, inl, inr, List, [], ◌∷◌, text_eq, Result, ok, err,
  if◌then◌else◌, All, arith,
}
use app_salmon.Base.Paths.{decimal}
use app_salmon.Base.Texts.{Lacks, Lacks-append}
use app_salmon.Base.Digits.Decimal.{parse_below-decimal, Lacks-decimal}
use app_salmon.Base.Lines.{split, lines, line_feed, carriage_return, split-append, lines-append}
use app_salmon.Adapters.SystemUsers.{
  WorkerResolutionError, account_not_found, find_line, ids_of, parse_uid_gid,
}

pub record Account : Type 0 where
  pub name : String
  pub password : String
  pub uid : ℕ
  pub gid : ℕ
  pub comment : String

-- The first five fields of an entry, the last of which may hold further ones.
abbrev entry : Account → String
entry a = String.◌++◌ a.name (
    String.◌∷◌ ":" (
      String.◌++◌ a.password (
        String.◌∷◌ ":" (
          String.◌++◌ (decimal a.uid)
            (String.◌∷◌ ":" (String.◌++◌ (decimal a.gid) (String.◌∷◌ ":" a.comment)))))))

abbrev pub passwd : List Account → String
passwd [] = ""
passwd (a ∷ rest) = String.◌++◌ (entry a) (String.◌∷◌ line_feed (passwd rest))

abbrev IsOneLine : String → Type 0
IsOneLine s = Lacks line_feed s × Lacks carriage_return s

pub record IsAccount (a : Account) : Type 0 where
  pub name_lacks : Lacks ":" a.name
  pub password_lacks : Lacks ":" a.password
  pub name_line : IsOneLine a.name
  pub password_line : IsOneLine a.password
  pub comment_line : IsOneLine a.comment
  pub uid_fits : a.uid < 4294967296
  pub gid_fits : a.gid < 4294967296

abbrev pub lookup : String → List Account → Result WorkerResolutionError (ℕ × ℕ)
lookup name [] = err (account_not_found name)
lookup name (a ∷ rest) = if text_eq a.name name then ok (a.uid, a.gid) else lookup name rest

split-entry :
    (a : Account)
    → IsAccount a
    → split (entry a) ":"
      ≡ a.name ∷ a.password ∷ decimal a.uid ∷ decimal a.gid ∷ split a.comment ":"
split-entry a h =
    rw
      (
        split-append a.name _ ":" h.name_lacks,
        split-append a.password _ ":" h.password_lacks,
        split-append (decimal a.uid) _ ":" (Lacks-decimal a.uid ":" (inr (omega arith))),
        split-append (decimal a.gid) _ ":" (Lacks-decimal a.gid ":" (inr (omega arith))),
      )
      refl

module _ (sep : Char) (low : code sep < 48) where
  Lacks-entry :
      (a : Account)
      → Lacks sep a.name
      → Lacks sep a.password
      → Lacks sep a.comment
      → Lacks sep (entry a)
  Lacks-entry a h k m = Lacks-append a.name _ sep h (
    ground arith,
    Lacks-append a.password _ sep k (
      ground arith,
      Lacks-append (decimal a.uid) _ sep (Lacks-decimal a.uid sep (inl low)) (
        ground arith,
        Lacks-append (decimal a.gid) _ sep (Lacks-decimal a.gid sep (inl low)) (ground arith, m),
      ),
    ),
  )

lines-passwd :
    (a : Account) (rest : List Account)
    → IsAccount a
    → lines (passwd (a ∷ rest)) ≡ entry a ∷ lines (passwd rest)
lines-passwd a rest h =
    lines-append (entry a) (passwd rest)
      (Lacks-entry line_feed (omega arith) a h.name_line.0 h.password_line.0 h.comment_line.0)
      (Lacks-entry carriage_return (omega arith) a h.name_line.1 h.password_line.1 h.comment_line.1)

ids_of-entry :
    (a : Account) (name : String) (rest : List String)
    → IsAccount a
    → ids_of name (a.name ∷ a.password ∷ decimal a.uid ∷ decimal a.gid ∷ rest) ≡ ok (a.uid, a.gid)
unfolding ids_of
ids_of-entry a name rest h =
    rw
      (
        parse_below-decimal 4294967296 a.uid h.uid_fits,
        parse_below-decimal 4294967296 a.gid h.gid_fits,
      )
      refl

-- A passwd file that lists accounts, whose names and passwords hold no colon, whose texts hold no
-- line feed and no carriage return, and whose ids fit in a `u32`, answers each name with the ids of the
-- first account of that name, and with `AccountNotFound` where there is none.
pub parse_uid_gid-passwd :
    (accounts : List Account) (name : String)
    → All IsAccount accounts
    → parse_uid_gid (passwd accounts) name ≡ lookup name accounts
unfolding parse_uid_gid find_line lines
parse_uid_gid-passwd [] name h = refl
parse_uid_gid-passwd (a ∷ rest) name h = elim (Bool-cases (text_eq a.name name)) [
  | inl found ↦
      rw (lines-passwd a rest h.0, find_line, split-entry a h.0, found)
        (ids_of-entry a name (split a.comment ":") h.0)
  | inr other ↦
      rw (lines-passwd a rest h.0, find_line, split-entry a h.0, other)
        (parse_uid_gid-passwd rest name h.1)
]
