-- ===== src/Base/Texts.antt =====
-- What Rust's `str` does at its front and its bytes: `strip_prefix`, `split_once` at one
-- character, and `as_bytes`.
use Prim.Native.Char.{Char, code}
use Prim.Native.Nat.{ℕ, ◌+◌, ◌/◌, ◌%◌}
use Prim.Native.String.{String, ◌++◌}
use text.Mathlib.TextEquality.{Char-path}
use text.Mathlib.TextLemmas.{nil-append, cons-append}
use mathlib.Core.Path.{◌≡◌, refl, ap, sym, ◌∙◌, subst}
use mathlib.Core.Bool.{Bool, true, false}
use mathlib.Core.Option.{Option, none, some, some-injective}
use mathlib.Core.Option
use mathlib.Core.List.{List, [], ◌∷◌}
use mathlib.Core.List
use native.Mathlib.Omega.{arith}
use app_salmon.Base.Tests.{ltb, ◌==◌, ==_iff, ==_refl, if◌then◌else◌}

unfoldable pub strip_prefix : String → String → Option String
strip_prefix s String.[] = some s
strip_prefix String.[] (String.◌∷◌ p ps) = none
strip_prefix (String.◌∷◌ c s) (String.◌∷◌ p ps) =
    let rest = strip_prefix s ps in if code c == code p then rest else none

abbrev put_front : Char → String × String → String × String
put_front c (before, after) = (String.◌∷◌ c before, after)

unfoldable pub split_once : String → Char → Option (String × String)
split_once String.[] sep = none
split_once (String.◌∷◌ c s) sep =
    if code c == code sep then some (String.[], s) else Option.map (put_front c) (split_once s sep)

-- No character of the text is `sep`.
abbrev pub Lacks : Char → String → Type 0
Lacks sep String.[] = Unit
Lacks sep (String.◌∷◌ c s) = ((code c == code sep) ≡ false) × Lacks sep s

pub strip_prefix-append : (p s : String) → strip_prefix (p ++ s) p ≡ some s
unfolding strip_prefix
strip_prefix-append String.[] s = rw (nil-append s) refl
strip_prefix-append (String.◌∷◌ c p) s =
    rw (cons-append c p s, strip_prefix, ==_refl (code c)) (strip_prefix-append p s)

same_char : (c d : Char) → (code c == code d) ≡ true → c ≡ d
same_char c d h = Char-path c d ((==_iff (code c) (code d)).0 h)

pub eq_of_strip_prefix : (s p r : String) → strip_prefix s p ≡ some r → s ≡ p ++ r
unfolding strip_prefix
eq_of_strip_prefix s String.[] r h = cc (nil-append r)
eq_of_strip_prefix String.[] (String.◌∷◌ c p) r h = cc
eq_of_strip_prefix (String.◌∷◌ d s) (String.◌∷◌ c p) r h =
    ground (arith, eq_of_strip_prefix s p r, same_char d c, cons-append c p r)

pub split_once-append :
    (a b : String) (sep : Char)
    → Lacks sep a
    → split_once (a ++ (String.◌∷◌ sep b)) sep ≡ some (a, b)
unfolding split_once
split_once-append String.[] b sep h =
    rw (nil-append (String.◌∷◌ sep b), split_once, ==_refl (code sep)) refl
split_once-append (String.◌∷◌ c a) b sep h =
    rw (cons-append c a (String.◌∷◌ sep b), split_once, h.0, split_once-append a b sep h.1) refl

-- The text was cut at its first `sep`.
abbrev pub CutAt : Char → String → String × String → Type 0
CutAt sep s (a, b) = Lacks sep a × (s ≡ a ++ (String.◌∷◌ sep b))

pub eq_of_split_once :
    (s : String) (sep : Char) (parts : String × String)
    → split_once s sep ≡ some parts
    → CutAt sep s parts
unfolding split_once
eq_of_split_once String.[] sep parts h = cc
eq_of_split_once (String.◌∷◌ c s) sep parts h =
    go (code c == code sep) (split_once s sep) refl (eq_of_split_once s sep) h
  where
    later :
        (rest : String × String)
        → (code c == code sep) ≡ false
        → CutAt sep s rest
        → CutAt sep (String.◌∷◌ c s) (put_front c rest)
    later (a, b) other cut =
        ((other, cut.0), ap (String.◌∷◌ c) cut.1 ∙ sym (cons-append c a (String.◌∷◌ sep b)))

    go :
        (test : Bool) (o : Option (String × String))
        → (code c == code sep) ≡ test
        → ((rest : String × String) → o ≡ some rest → CutAt sep s rest)
        → (if test then some (String.[], s) else Option.map (put_front c) o) ≡ some parts
        → CutAt sep (String.◌∷◌ c s) parts
    go true o same ih k =
        subst (CutAt sep (String.◌∷◌ c s)) (some-injective _ _ k) (
          tt,
          ap (λ d. String.◌∷◌ d s) (same_char c sep same) ∙ sym (nil-append (String.◌∷◌ sep s)),
        )
    go false none other ih k = cc
    go false (some rest) other ih k =
        subst (CutAt sep (String.◌∷◌ c s)) (some-injective _ _ k) (later rest other (ih rest refl))

-- The UTF-8 bytes of a character, before those of the rest; and `as_bytes`.
abbrev utf8 : ℕ → List ℕ → List ℕ
utf8 c rest =
    if ltb c 128
    then c ∷ rest
    else if ltb c 2048
    then (192 + c / 64) ∷ (128 + c % 64) ∷ rest
    else if ltb c 65536
    then (224 + c / 4096) ∷ (128 + c / 64 % 64) ∷ (128 + c % 64) ∷ rest
    else (240 + c / 262144) ∷ (128 + c / 4096 % 64) ∷ (128 + c / 64 % 64) ∷ (128 + c % 64) ∷ rest

unfoldable pub as_bytes : String → List ℕ
as_bytes String.[] = []
as_bytes (String.◌∷◌ c s) = utf8 (code c) (as_bytes s)

pub as_bytes-append : (s t : String) → as_bytes (s ++ t) ≡ List.◌++◌ (as_bytes s) (as_bytes t)
unfolding as_bytes
as_bytes-append String.[] t = ap as_bytes (nil-append t)
as_bytes-append (String.◌∷◌ c s) t = rw (cons-append c s t) (ground (arith, as_bytes-append s t))

pub Lacks-append : (a b : String) (sep : Char) → Lacks sep a → Lacks sep b → Lacks sep (a ++ b)
Lacks-append String.[] b sep h k = rw (nil-append b) k
Lacks-append (String.◌∷◌ c a) b sep h k = rw (cons-append c a b) (h.0, Lacks-append a b sep h.1 k)
