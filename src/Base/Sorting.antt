-- ===== src/Base/Sorting.antt =====
-- `xs.sort(compare)`: a stable sort by a total order, and that its result is ordered and holds the
-- same elements.
use mathlib.Core.Path.{◌≡◌, refl, ◌∙◌}
use mathlib.Core.Bool.{Bool, true, false}
use mathlib.Core.List.{List, [], ◌∷◌}
use native.Mathlib.Omega.{arith}
use db_migrate.Base.Tests.{if◌then◌else◌}
use db_migrate.Base.Lists.{All, All-map, filter, length}

module _ {ℓ} {A : Type ℓ} (leq : A → A → Bool) where
  abbrev pub insert_by : A → List A → List A
  insert_by x [] = x ∷ []
  insert_by x (y ∷ ys) = let rest = insert_by x ys in if leq x y then x ∷ y ∷ ys else y ∷ rest

  abbrev pub sort_by : List A → List A
  sort_by [] = []
  sort_by (x ∷ xs) = insert_by x (sort_by xs)

  -- each element comes before all behind it
  abbrev pub Ordered : List A → Type 0
  Ordered [] = Unit
  Ordered (x ∷ xs) = All (λ y. leq x y ≡ true) xs × Ordered xs

  insert_by-count :
      (p : A → Bool) (x : A) (ys : List A)
      → length (filter p (insert_by x ys)) ≡ length (filter p (x ∷ ys))
  insert_by-count p x [] = refl
  insert_by-count p x (y ∷ ys) = ground (arith, insert_by-count p x ys)

  -- Each test holds of as many elements as before.
  pub sort_by-count :
      (p : A → Bool) (xs : List A) → length (filter p (sort_by xs)) ≡ length (filter p xs)
  sort_by-count p [] = refl
  sort_by-count p (x ∷ xs) = insert_by-count p x (sort_by xs) ∙ ground (arith, sort_by-count p xs)

  insert_by-All : (P : A → Type 0) (x : A) (ys : List A) → P x → All P ys → All P (insert_by x ys)
  insert_by-All P x [] h k = (h, tt)
  insert_by-All P x (y ∷ ys) h (i, k) = ground (arith, insert_by-All P x ys h k)

  pub sort_by-All : (P : A → Type 0) (xs : List A) → All P xs → All P (sort_by xs)
  sort_by-All P [] h = tt
  sort_by-All P (x ∷ xs) (h, k) = insert_by-All P x (sort_by xs) h (sort_by-All P xs k)

  module _ (total : (x y : A) → leq x y ≡ false → leq y x ≡ true)
      (trans : (x y z : A) → leq x y ≡ true → leq y z ≡ true → leq x z ≡ true) where
    insert_by-Ordered : (x : A) (ys : List A) → Ordered ys → Ordered (insert_by x ys)
    insert_by-Ordered x [] h = (tt, tt)
    insert_by-Ordered x (y ∷ ys) (h, k) = go (leq x y) refl (insert_by-Ordered x ys k)
      where
        go :
            (b : Bool)
            → leq x y ≡ b
            → Ordered (insert_by x ys)
            → Ordered (if b then x ∷ y ∷ ys else y ∷ insert_by x ys)
        go true e ih = ((e, All-map (λ z l. trans x y z e l) ys h), (h, k))
        go false e ih = (insert_by-All (λ z. leq y z ≡ true) x ys (total x y e) h, ih)

    pub sort_by-Ordered : (xs : List A) → Ordered (sort_by xs)
    sort_by-Ordered [] = tt
    sort_by-Ordered (x ∷ xs) = insert_by-Ordered x (sort_by xs) (sort_by-Ordered xs)
