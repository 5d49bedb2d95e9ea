-- ===== src/Base/Stays.antt =====
-- Invariants of the world: what every way through an action leaves true.
use app_salmon.Base.Results.{Result, ok, err}
use app_salmon.Base.Action.{Action, continue}
use app_salmon.Base.Task.{Task}

module _ {W : Type 0} (I : W → Type 0) where
  abbrev pub Stays : {A : Type 0} → Task W A → Type 0
  Stays m = (w : W) → I w → I (m w).1

module _ {W : Type 0} (I : W → Type 0) where
  -- The rule for `?` and `.await`.
  pub continue_stays :
      {E A B : Type 0} (p : Result E A × W) (f : A → Action W E B)
      → I p.1
      → ((a : A) → Stays I (f a))
      → I (continue p f).1
  continue_stays (ok a, w) f h k = k a w h
  continue_stays (err e, w) f h k = h
