-- ===== src/Base/Lines.antt =====
-- Rust's `str::split` at a character and `str::lines`, and that they take apart what was joined.
use Prim.Native.Char.{Char, code}
use Prim.Native.String
use text.Mathlib.TextLemmas.{nil-append, cons-append}
use app_salmon.Base.{
  ◌≡◌, refl, ap, String, Bool, true, false, List, [], ◌∷◌, text_eq, ◌==◌, if◌then◌else◌, arith,
}
use app_salmon.Base.Texts.{Lacks}

abbrev put_front : Char → List String → List String
put_front c [] = String.◌∷◌ c String.[] ∷ []
put_front c (s ∷ rest) = String.◌∷◌ c s ∷ rest

-- There is one piece more than there are separators.
unfoldable pub split : String → Char → List String
split String.[] sep = String.[] ∷ []
split (String.◌∷◌ c s) sep =
    let rest = split s sep in if code c == code sep then String.[] ∷ rest else put_front c rest

-- A carriage return at the end is dropped.
unfoldable pub strip_return : String → String
strip_return String.[] = String.[]
strip_return (String.◌∷◌ c String.[]) = if code c == 13 then String.[] else String.◌∷◌ c String.[]
strip_return (String.◌∷◌ c (String.◌∷◌ d s)) = String.◌∷◌ c (strip_return (String.◌∷◌ d s))

-- What follows the last line feed is a line of its own if it is not empty, and keeps its carriage
-- return.
unfoldable pub ended_lines : List String → List String
unfolding strip_return
ended_lines [] = []
ended_lines (last ∷ []) = if text_eq last "" then [] else last ∷ []
ended_lines (line ∷ next ∷ rest) = strip_return line ∷ ended_lines (next ∷ rest)

abbrev pub line_feed : Char
line_feed = "\n"

abbrev pub carriage_return : Char
carriage_return = "\r"

unfoldable pub lines : String → List String
unfolding split ended_lines
lines s = ended_lines (split s line_feed)

pub split-append :
    (a b : String) (sep : Char)
    → Lacks sep a
    → split (String.◌++◌ a (String.◌∷◌ sep b)) sep ≡ a ∷ split b sep
unfolding split
split-append String.[] b sep h = rw (nil-append (String.◌∷◌ sep b), split) (ground arith)
split-append (String.◌∷◌ c a) b sep h =
    rw (cons-append c a (String.◌∷◌ sep b), split, h.0, split-append a b sep h.1) refl

pub split-Lacks : (a : String) (sep : Char) → Lacks sep a → split a sep ≡ a ∷ []
unfolding split
split-Lacks String.[] sep h = refl
split-Lacks (String.◌∷◌ c a) sep h = rw (split, h.0, split-Lacks a sep h.1) refl

pub strip_return-Lacks : (a : String) → Lacks carriage_return a → strip_return a ≡ a
unfolding strip_return
strip_return-Lacks String.[] h = refl
strip_return-Lacks (String.◌∷◌ c String.[]) h = rw (strip_return, h.0) refl
strip_return-Lacks (String.◌∷◌ c (String.◌∷◌ d s)) h =
    ap (λ t. String.◌∷◌ c t) (strip_return-Lacks (String.◌∷◌ d s) h.1)

abbrev IsCons : List String → Type 0
IsCons l = (x : String) × (r : List String) × (l ≡ x ∷ r)

put_front-IsCons : (c : Char) (l : List String) → IsCons (put_front c l)
put_front-IsCons c [] = (_, _, refl)
put_front-IsCons c (x ∷ r) = (_, _, refl)

either-IsCons :
    (b : Bool) (c : Char) (l : List String) → IsCons (if b then String.[] ∷ l else put_front c l)
either-IsCons true c l = (_, _, refl)
either-IsCons false c l = put_front-IsCons c l

split-IsCons : (s : String) (sep : Char) → IsCons (split s sep)
unfolding split
split-IsCons String.[] sep = (_, _, refl)
split-IsCons (String.◌∷◌ c s) sep = either-IsCons (code c == code sep) c (split s sep)

-- A line with its line feed in front of a text.
pub lines-append :
    (a b : String)
    → Lacks line_feed a
    → Lacks carriage_return a
    → lines (String.◌++◌ a (String.◌∷◌ line_feed b)) ≡ a ∷ lines b
unfolding lines ended_lines
lines-append a b h k =
    let (x, r, shape) = split-IsCons b line_feed in
    rw (split-append a b line_feed h, shape, ended_lines, strip_return-Lacks a k) refl
