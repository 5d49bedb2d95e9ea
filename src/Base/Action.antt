-- ===== src/Base/Action.antt =====
-- Actions on a world `W`: what an `async fn` that returns `Result` does to everything outside the
-- function. A failing action also says what the world has become.
use app_salmon.Base.Results.{Result, ok, err, map_err}
use mathlib.Core.Path.{◌≡◌, refl}
use mathlib.Core.Logic.{◌⊎◌, inl, inr}

abbrev pub Action : Type 0 → Type 0 → Type 0 → Type 0
Action W E A = W → Result E A × W

module _ {W E A B : Type 0} where
  abbrev pub continue : Result E A × W → (A → Action W E B) → Result E B × W
  continue (ok a, w) f = f a w
  continue (err e, w) f = (err e, w)

  infixl 5 ◌>>=◌
  abbrev pub ◌>>=◌ : Action W E A → (A → Action W E B) → Action W E B
  ◌>>=◌ m f w = continue (m w) f

module _ {W E B : Type 0} where
  infixl 5 ◌>>◌
  abbrev pub ◌>>◌ : Action W E (Unit {0}) → Action W E B → Action W E B
  m >> n = m >>= λ _. n

module _ {W E A : Type 0} where
  abbrev pub pure : A → Action W E A
  pure a w = (ok a, w)

  abbrev pub lift : Result E A → Action W E A
  lift r w = (r, w)

module _ {W E F A : Type 0} where
  -- `.map_err(f)`.
  abbrev pub on_err : (E → F) → Action W E A → Action W F A
  on_err f m w = let (r, w') = m w in (map_err f r, w')

-- The two ways in which an action ends, with the world that it leaves.
pub Outcome-cases :
    {W E A : Type 0} (p : Result E A × W)
    → ((a : A) × (w : W) × (p ≡ (ok a, w))) ⊎ ((e : E) × (w : W) × (p ≡ (err e, w)))
Outcome-cases (ok a, w) = inl (a, w, refl)
Outcome-cases (err e, w) = inr (e, w, refl)
