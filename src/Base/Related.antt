-- ===== src/Base/Related.antt =====
-- Two lists, or two options, related element by element.
use app_salmon.Base.Lists.{keep, find}
use app_salmon.Base.Tests.{if◌then◌else◌}
use mathlib.Core.Path.{◌≡◌, refl, sym, subst}
use mathlib.Core.Bool.{Bool, true, false}
use mathlib.Core.Option.{Option, none, some}
use mathlib.Core.List.{List, [], ◌∷◌, ◌++◌, map, Permᴰ}

module _ {X Y : Type 0} (R : X → Y → Type 0) where
  abbrev pub Both : List X → List Y → Type 0
  Both [] [] = Unit
  Both (x ∷ xs) (y ∷ ys) = R x y × Both xs ys
  Both _ _ = ⊥

  abbrev pub Match : Option X → Option Y → Type 0
  Match none none = Unit
  Match (some x) (some y) = R x y
  Match _ _ = ⊥

module _ {X Y : Type 0} (R : X → Y → Type 0) where
  pub Both-append :
      (xs xs' : List X) (ys ys' : List Y)
      → Both R xs ys
      → Both R xs' ys'
      → Both R (xs ++ xs') (ys ++ ys')
  Both-append [] xs' [] ys' h k = k
  Both-append (x ∷ xs) xs' (y ∷ ys) ys' h k = (h.0, Both-append xs xs' ys ys' h.1 k)
  Both-append [] xs' (y ∷ ys) ys' h k = absurd h
  Both-append (x ∷ xs) xs' [] ys' h k = absurd h

  pub Both-find :
      (p : X → Bool) (q : Y → Bool)
      → ((x : X) (y : Y) → R x y → p x ≡ q y)
      → (xs : List X) (ys : List Y) → Both R xs ys
      → Match R (find p xs) (find q ys)
  Both-find p q same [] [] h = tt
  Both-find p q same (x ∷ xs) (y ∷ ys) h =
      pick (p x) (q y) (same x y h.0) (Both-find p q same xs ys h.1)
    where
      pick :
          (b c : Bool)
          → b ≡ c
          → Match R (find p xs) (find q ys)
          → Match R (if b then some x else find p xs) (if c then some y else find q ys)
      pick true true e m = h.0
      pick false false e m = m
      pick true false e m = absurd (cc)
      pick false true e m = absurd (cc)
  Both-find p q same [] (y ∷ ys) h = absurd h
  Both-find p q same (x ∷ xs) [] h = absurd h

  -- The pairs that pass a test on which the sides agree stay related, and have passed it.
  pub Both-keep-true :
      (p : X → Bool) (q : Y → Bool)
      → ((x : X) (y : Y) → R x y → p x ≡ q y)
      → (xs : List X) (ys : List Y) → Both R xs ys
      → Both (λ x y. R x y × (q y ≡ true)) (keep p xs) (keep q ys)
  Both-keep-true p q same [] [] h = tt
  Both-keep-true p q same (x ∷ xs) (y ∷ ys) h =
      pick (p x) (q y) (same x y h.0) refl (Both-keep-true p q same xs ys h.1)
    where
      pick :
          (b c : Bool)
          → b ≡ c
          → q y ≡ c
          → Both (λ x y. R x y × (q y ≡ true)) (keep p xs) (keep q ys)
          → Both
              (λ x y. R x y × (q y ≡ true))
              (if b then x ∷ keep p xs else keep p xs)
              (if c then y ∷ keep q ys else keep q ys)
      pick true true e f m = ((h.0, f), m)
      pick false false e f m = m
      pick true false e f m = absurd (cc)
      pick false true e f m = absurd (cc)
  Both-keep-true p q same [] (y ∷ ys) h = absurd h
  Both-keep-true p q same (x ∷ xs) [] h = absurd h

  -- A list in another order is related to the other list in another order.
  pub Both-perm :
      {xs' xs : List X} (ys : List Y)
      → Permᴰ xs' xs
      → Both R xs ys
      → (ys' : List Y) × Permᴰ ys' ys × Both R xs' ys'
  Both-perm [] Permᴰ.nil h = ([], Permᴰ.nil, tt)
  Both-perm (y ∷ ys) Permᴰ.nil h = absurd h
  Both-perm [] (Permᴰ.cons e d) h = absurd h
  Both-perm (y ∷ ys) (Permᴰ.cons e d) h =
      let (ys', moved, related) = Both-perm ys d h.1 in
      (y ∷ ys', Permᴰ.cons refl moved, (subst (λ x. R x y) (sym e) h.0, related))
  Both-perm [] (Permᴰ.swap e d) h = absurd h
  Both-perm (y ∷ []) (Permᴰ.swap e d) h = absurd h.1
  Both-perm (y ∷ z ∷ ys) (Permᴰ.swap e d) h = (
    z ∷ y ∷ ys,
    Permᴰ.swap refl refl,
    (subst (λ x. R x z) (sym e) h.1.0, (subst (λ x. R x y) (sym d) h.0, h.1.1)),
  )
  Both-perm ys (Permᴰ.trans c d) h =
      let (mid, moved, related) = Both-perm ys d h in
      let (ys', moved', related') = Both-perm mid c related in
      (ys', Permᴰ.trans moved' moved, related')

module _ {X Y X' Y' : Type 0} (R : X → Y → Type 0) (R' : X' → Y' → Type 0) where
  pub Both-map :
      (f : X → X') (g : Y → Y')
      → ((x : X) (y : Y) → R x y → R' (f x) (g y))
      → (xs : List X) (ys : List Y) → Both R xs ys
      → Both R' (map f xs) (map g ys)
  Both-map f g k [] [] h = tt
  Both-map f g k (x ∷ xs) (y ∷ ys) h = (k x y h.0, Both-map f g k xs ys h.1)
  Both-map f g k [] (y ∷ ys) h = absurd h
  Both-map f g k (x ∷ xs) [] h = absurd h

module _ {X Y : Type 0} (R : X → Y → Type 0) where
  pub Both-keep :
      (p : X → Bool) (q : Y → Bool)
      → ((x : X) (y : Y) → R x y → p x ≡ q y)
      → (xs : List X) (ys : List Y) → Both R xs ys
      → Both R (keep p xs) (keep q ys)
  Both-keep p q same xs ys h =
      Both-weaken (keep p xs) (keep q ys) (Both-keep-true R p q same xs ys h)
    where
      Both-weaken :
          (us : List X) (vs : List Y) → Both (λ x y. R x y × (q y ≡ true)) us vs → Both R us vs
      Both-weaken [] [] k = tt
      Both-weaken (u ∷ us) (v ∷ vs) k = (k.0.0, Both-weaken us vs k.1)
      Both-weaken [] (v ∷ vs) k = absurd k
      Both-weaken (u ∷ us) [] k = absurd k
