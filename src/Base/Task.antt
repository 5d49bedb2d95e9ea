-- ===== src/Base/Task.antt =====
-- Actions that cannot fail as a whole: what an `async fn` without a `Result`, or one step whose
-- `Result` the caller inspects, does to the world.
use app_salmon.Base.Results.{Result, ok, err}
use app_salmon.Base.Action.{Action}
use app_salmon.Base.Post.{Post}
use mathlib.Core.Path.{◌≡◌, refl}

abbrev pub Task : Type 0 → Type 0 → Type 0
Task W A = W → A × W

module _ {W A B : Type 0} where
  infixl 5 ◌>>=◌
  abbrev pub ◌>>=◌ : Task W A → (A → Task W B) → Task W B
  ◌>>=◌ m f w = f (m w).0 (m w).1

module _ {W B : Type 0} where
  infixl 5 ◌>>◌
  abbrev pub ◌>>◌ : Task W (Unit {0}) → Task W B → Task W B
  m >> n = m >>= λ _. n

module _ {W A : Type 0} where
  abbrev pub give : A → Task W A
  give a w = (a, w)

module _ {W : Type 0} where
  abbrev pub done : Task W (Unit {0})
  done = give tt

module _ {W E A : Type 0} where
  -- A step that cannot fail, in a function that can.
  abbrev pub infallible : Task W A → Action W E A
  infallible m w = (ok (m w).0, (m w).1)

  -- A `Result` that is logged and dropped.
  abbrev pub ignore : Action W E A → Task W (Unit {0})
  ignore m w = (tt, (m w).1)

-- The task that ended in `p` left a world whose view satisfies `Q`. `H w s` says that `s` is the
-- view of `w`.
pub record Leaves {W S A : Type 0} (H : W → S → Type 0) (Q : A → S → Type 0) (p : A × W)
    : Type 0 where
  pub view : S
  pub holds : H p.1 view
  pub meets : Q p.0 view

module _ {W S : Type 0} (H : W → S → Type 0) where
  -- The task keeps the view.
  abbrev pub Keeps : {A : Type 0} → Task W A → Type 0
  Keeps m = (w : W) (s : S) → H w s → H (m w).1 s

module _ {S E A : Type 0} (Q : A → S → Type 0) (R : E → S → Type 0) where
  abbrev pub Either : Result E A → S → Type 0
  Either (ok a) s = Q a s
  Either (err e) s = R e s

module _ {W S E A : Type 0} {H : W → S → Type 0} {Q : A → S → Type 0} {R : E → S → Type 0} where
  pub outcome : (p : Result E A × W) → Post H Q R p → Leaves H (Either Q R) p
  outcome (ok a, w) h = let (s, k, q) = h.ends in record { view = s; holds = k; meets = q }
  outcome (err e, w) h = let (s, k, r) = h.ends in record { view = s; holds = k; meets = r }

module _ {W S A B : Type 0} {H : W → S → Type 0} {Q : A → S → Type 0} {Q' : B → S → Type 0} where
  pub then-Leaves :
      (p : A × W) (f : A → Task W B)
      → Leaves H Q p
      → ((a : A) (w : W) (s : S) → H w s → Q a s → Leaves H Q' (f a w))
      → Leaves H Q' (f p.0 p.1)
  then-Leaves p f h k = k p.0 p.1 h.view h.holds h.meets

  pub weaken-Leaves :
      {p : A × W} (f : A → B)
      → ((s : S) → Q p.0 s → Q' (f p.0) s)
      → Leaves H Q p
      → Leaves H Q' (f p.0, p.1)
  weaken-Leaves f g h = record { view = h.view; holds = h.holds; meets = g h.view h.meets }

module _ {W S E A : Type 0} {H : W → S → Type 0} {R : E → S → Type 0} where
  -- A step that cannot fail and keeps the view.
  pub infallible-Post :
      (m : Task W A) (w : W) (s : S)
      → Keeps H m
      → H w s
      → Post {E = E} H (λ _ s'. s' ≡ s) R (infallible m w)
  infallible-Post m w s keeps h = record { ends = (s, keeps w s h, refl) }
