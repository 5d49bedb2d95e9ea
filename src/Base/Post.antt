-- ===== src/Base/Post.antt =====
-- What an action guarantees: a postcondition for its success and one for its failure, over an
-- abstract view `S` of the world.
use app_salmon.Base.Results.{Result, ok, err, map_err}
use app_salmon.Base.Action.{Action, continue, on_err, lift}
use mathlib.Core.Path.{◌≡◌, refl, subst}

module _ {W S E A : Type 0} where
  abbrev pub Ends : (W → S → Type 0) → (A → S → Type 0) → (E → S → Type 0) → Result E A × W → Type 0
  Ends H Q R (ok a, w) = (s : S) × H w s × Q a s
  Ends H Q R (err e, w) = (s : S) × H w s × R e s

  -- The action that ended in `p` left a world whose view satisfies `Q` if it returned, and `R` if
  -- it failed. `H w s` says that `s` is the view of `w`.
  pub record Post (H : W → S → Type 0) (Q : A → S → Type 0) (R : E → S → Type 0)
      (p : Result E A × W) : Type 0 where
    pub ends : Ends H Q R p

module _ {W S E A : Type 0} {H : W → S → Type 0} {Q Q' : A → S → Type 0}
    {R R' : E → S → Type 0} where
  pub weaken :
      (p : Result E A × W)
      → ((a : A) (s : S) → Q a s → Q' a s)
      → ((e : E) (s : S) → R e s → R' e s)
      → Post H Q R p
      → Post H Q' R' p
  weaken (ok a, w) f g h = let (s, k, q) = h.ends in record { ends = (s, k, f a s q) }
  weaken (err e, w) f g h = let (s, k, r) = h.ends in record { ends = (s, k, g e s r) }

module _ {W S E A B : Type 0} {H : W → S → Type 0} {Q : A → S → Type 0} {Q' : B → S → Type 0}
    {R R' : E → S → Type 0} where
  -- The rule for `?` and `.await`: what holds after the first action is what the rest may use.
  pub bind-Post :
      (p : Result E A × W) (f : A → Action W E B)
      → ((a : A) (w : W) (s : S) → H w s → Q a s → Post H Q' R' (f a w))
      → ((e : E) (s : S) → R e s → R' e s)
      → Post H Q R p
      → Post H Q' R' (continue p f)
  bind-Post (ok a, w) f k g h = let (s, i, q) = h.ends in k a w s i q
  bind-Post (err e, w) f k g h = let (s, i, r) = h.ends in record { ends = (s, i, g e s r) }

module _ {W S E F A : Type 0} {H : W → S → Type 0} {Q : A → S → Type 0} {R : E → S → Type 0}
    {R' : F → S → Type 0} where
  map_err-Post :
      (f : E → F) (p : Result E A × W)
      → ((e : E) (s : S) → R e s → R' (f e) s)
      → Post H Q R p
      → Post H Q R' (map_err f p.0, p.1)
  map_err-Post f (ok a, w) g h = record { ends = h.ends }
  map_err-Post f (err e, w) g h = let (s, k, r) = h.ends in record { ends = (s, k, g e s r) }

  -- The rule for `.map_err(f)`.
  pub on_err-Post :
      (f : E → F) (m : Action W E A) (w : W)
      → ((e : E) (s : S) → R e s → R' (f e) s)
      → Post H Q R (m w)
      → Post H Q R' (on_err f m w)
  on_err-Post f m w g h = map_err-Post f (m w) g h

module _ {W S S' E A : Type 0} {H : W → S → Type 0} {H' : W → S' → Type 0} {Q : A → S → Type 0}
    {Q' : A → S' → Type 0} {R : E → S → Type 0} {R' : E → S' → Type 0} where
  -- A change of the abstract view.
  pub review :
      (p : Result E A × W)
      → ((a : A) (w : W) (s : S) → H w s → Q a s → (s' : S') × H' w s' × Q' a s')
      → ((e : E) (w : W) (s : S) → H w s → R e s → (s' : S') × H' w s' × R' e s')
      → Post H Q R p
      → Post H' Q' R' p
  review (ok a, w) f g h = let (s, i, q) = h.ends in record { ends = f a w s i q }
  review (err e, w) f g h = let (s, i, r) = h.ends in record { ends = g e w s i r }

module _ {W S E A : Type 0} {H : W → S → Type 0} where
  -- A value, or an error, that is at hand.
  pub lift-Post :
      (r : Result E A) (w : W) (s : S) → H w s → Post H (λ _ s'. s' ≡ s) (λ _ s'. s' ≡ s) (lift r w)
  lift-Post (ok a) w s h = record { ends = (s, h, refl) }
  lift-Post (err e) w s h = record { ends = (s, h, refl) }

module _ {W S E A : Type 0} {H : W → S → Type 0} where
  pub view_of_Post :
      (p : Result E A × W) (s : S) → Post H (λ _ s'. s' ≡ s) (λ _ s'. s' ≡ s) p → H p.1 s
  view_of_Post (ok a, w) s h = let (s', k, same) = h.ends in subst (H w) same k
  view_of_Post (err e, w) s h = let (s', k, same) = h.ends in subst (H w) same k

  -- A postcondition on the result alone.
  pub Post-of_parts :
      (P : Result E A → Type 0) (p : Result E A × W) (s : S)
      → H p.1 s
      → P p.0
      → Post H (λ a s'. (s' ≡ s) × P (ok a)) (λ e s'. (s' ≡ s) × P (err e)) p
  Post-of_parts P (ok a, w) s h k = record { ends = (s, h, (refl, k)) }
  Post-of_parts P (err e, w) s h k = record { ends = (s, h, (refl, k)) }

  -- An action that keeps the view, whichever way it ends.
  pub kept-Post :
      (m : Action W E A) (w : W) (s : S)
      → ((w : W) (s : S) → H w s → H (m w).1 s)
      → H w s
      → Post H (λ _ s'. s' ≡ s) (λ _ s'. s' ≡ s) (m w)
  kept-Post m w s k h = go (m w) (k w s h)
    where
      go : (p : Result E A × W) → H p.1 s → Post H (λ _ s'. s' ≡ s) (λ _ s'. s' ≡ s) p
      go (ok a, w') h' = record { ends = (s, h', refl) }
      go (err e, w') h' = record { ends = (s, h', refl) }
