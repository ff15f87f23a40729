-- ===== src/Base/Lists.antt =====
-- Lists measured and indexed by native numbers, Boolean filters, and a predicate by recursion.
use Prim.Native.Nat.{ℕ, zero, suc, ◌+◌, ◌≤◌}
use mathlib.Core.Path.{◌≡◌, refl, ap, ◌∙◌}
use mathlib.Core.Logic.{inl, inr}
use mathlib.Core.Bool.{Bool, true, false, ◌||◌}
use mathlib.Core.List.{List, [], ◌∷◌, ◌++◌, map}
use mathlib.Core.Option.{Option, none, some}
use native.Mathlib.Omega.{arith}
use native.Mathlib.Numerals.{add-one}
use db_migrate.Base.Tests.{if◌then◌else◌, Bool-cases, Option-cases}

module _ {ℓ} {A : Type ℓ} where
  abbrev pub length : List A → ℕ
  length [] = 0
  length (x ∷ xs) = suc (length xs)

  abbrev pub get_elem? : List A → ℕ → Option A
  get_elem? [] i = none
  get_elem? (x ∷ xs) zero = some x
  get_elem? (x ∷ xs) (suc i) = get_elem? xs i

  abbrev pub get_or : List A → ℕ → A → A
  get_or [] i d = d
  get_or (x ∷ xs) zero d = x
  get_or (x ∷ xs) (suc i) d = get_or xs i d

  -- `xs.slice(0, n)`
  abbrev pub take : ℕ → List A → List A
  take zero xs = []
  take (suc n) [] = []
  take (suc n) (x ∷ xs) = x ∷ take n xs

  -- `xs.slice(n)`
  abbrev pub drop : ℕ → List A → List A
  drop zero xs = xs
  drop (suc n) [] = []
  drop (suc n) (x ∷ xs) = drop n xs

  -- `xs.filter(p)`
  abbrev pub filter : (A → Bool) → List A → List A
  filter p [] = []
  filter p (x ∷ xs) = if p x then x ∷ filter p xs else filter p xs

  -- `xs.some(p)`
  abbrev pub any : (A → Bool) → List A → Bool
  any p [] = false
  any p (x ∷ xs) = p x || any p xs

  -- `xs.findIndex(p)`, with `none` for -1
  abbrev pub find_index : (A → Bool) → List A → Option ℕ
  find_index p [] = none
  find_index p (x ∷ xs) =
      if p x then some 0 else elim (find_index p xs) [ none ↦ none | some i ↦ some (suc i) ]

  -- `xs.find(p)`
  abbrev pub find : (A → Bool) → List A → Option A
  find p [] = none
  find p (x ∷ xs) = if p x then some x else find p xs

  pub length-append : (xs ys : List A) → length (xs ++ ys) ≡ length xs + length ys
  length-append [] ys = omega arith
  length-append (x ∷ xs) ys = omega (arith, length-append xs ys)

  pub length-filter : (p : A → Bool) (xs : List A) → length (filter p xs) ≤ length xs
  length-filter p [] = omega arith
  length-filter p (x ∷ xs) = ground (arith, length-filter p xs)

  pub filter-append :
      (p : A → Bool) (xs ys : List A) → filter p (xs ++ ys) ≡ filter p xs ++ filter p ys
  filter-append p [] ys = refl
  filter-append p (x ∷ xs) ys = ground (arith, filter-append p xs ys)

  pub take-append-drop : (n : ℕ) (xs : List A) → take n xs ++ drop n xs ≡ xs
  take-append-drop zero xs = refl
  take-append-drop (suc n) [] = refl
  take-append-drop (suc n) (x ∷ xs) = rw (take-append-drop n xs)

module _ {ℓ κ} {A : Type ℓ} (P : A → Type κ) where
  abbrev pub All : List A → Type κ
  All [] = Unit
  All (x ∷ xs) = P x × All xs

  pub All-append : (xs ys : List A) → All xs → All ys → All (xs ++ ys)
  All-append [] ys h k = k
  All-append (x ∷ xs) ys (p, h) k = (p, All-append xs ys h k)

  pub All-filter : (p : A → Bool) (xs : List A) → All xs → All (filter p xs)
  All-filter p [] h = tt
  All-filter p (x ∷ xs) (q, h) = ground (arith, All-filter p xs h)

module _ {ℓ κ} {A : Type ℓ} {P Q : A → Type κ} where
  pub All-map : ((x : A) → P x → Q x) → (xs : List A) → All P xs → All Q xs
  All-map f [] h = tt
  All-map f (x ∷ xs) (p, h) = (f x p, All-map f xs h)

-- A list cut at its first element that passes a test.
pub record FirstHit {ℓ} {A : Type ℓ} (p : A → Bool) (xs : List A) (i : ℕ) : Type ℓ where
  pub before : List A
  pub hit : A
  pub after : List A
  pub cut : xs ≡ before ++ hit ∷ after
  pub position : length before ≡ i
  pub passes : p hit ≡ true
  pub first : All (λ x. p x ≡ false) before

module _ {ℓ} {A : Type ℓ} where
  pub find_index-some :
      (p : A → Bool) (xs : List A) (i : ℕ) → find_index p xs ≡ some i → FirstHit p xs i
  find_index-some p [] i e = cc
  find_index-some p (x ∷ xs) i e = elim (Bool-cases (p x)) [
    | inl here ↦ record {
      before = [];
      hit = x;
      after = xs;
      cut = refl;
      position = ground arith;
      passes = here;
      first = tt;
    }
    | inr there ↦ elim (Option-cases (find_index p xs)) [
      | inl missing ↦ absurd (ground arith)
      | inr (k, found) ↦
          let r = find_index-some p xs k found in
          record {
            before = x ∷ r.before;
            hit = r.hit;
            after = r.after;
            cut = ap (λ l. x ∷ l) r.cut;
            position = ground (arith, r.position);
            passes = r.passes;
            first = (there, r.first);
          }
    ]
  ]

  pub find_index_of_any :
      (p : A → Bool) (xs : List A) → any p xs ≡ true → (i : ℕ) × (find_index p xs ≡ some i)
  find_index_of_any p [] h = cc
  find_index_of_any p (x ∷ xs) h = elim (Bool-cases (p x)) [
    | inl here ↦ (0, rw here)
    | inr there ↦ let (i, e) = find_index_of_any p xs (ground arith) in (suc i, rw (there, e))
  ]

  pub find_index-none :
      (p : A → Bool) (xs : List A) → find_index p xs ≡ none → All (λ x. p x ≡ false) xs
  find_index-none p [] e = tt
  find_index-none p (x ∷ xs) e = ground (arith, find_index-none p xs)

  take-suc-length :
      (xs : List A) (x : A) (ys : List A) → take (suc (length xs)) (xs ++ x ∷ ys) ≡ xs ++ x ∷ []
  take-suc-length [] x ys = refl
  take-suc-length (z ∷ xs) x ys = ap (λ l. z ∷ l) (take-suc-length xs x ys)

  pub take-length_append :
      (xs : List A) (x : A) (ys : List A) → take (length xs + 1) (xs ++ x ∷ ys) ≡ xs ++ x ∷ []
  take-length_append xs x ys = rw add-one (take-suc-length xs x ys)

  pub drop-length_append : (xs ys : List A) → drop (length xs) (xs ++ ys) ≡ ys
  drop-length_append [] ys = refl
  drop-length_append (x ∷ xs) ys = drop-length_append xs ys

  pub filter-cong :
      (p q : A → Bool) → ((x : A) → p x ≡ q x) → (xs : List A) → filter p xs ≡ filter q xs
  filter-cong p q h [] = refl
  filter-cong p q h (x ∷ xs) =
      ap (λ b. if b then x ∷ filter p xs else filter p xs) (h x)
      ∙ ap (λ l. if q x then x ∷ l else l) (filter-cong p q h xs)

pub length-map {ℓ κ} :
    {A : Type ℓ} {B : Type κ} (f : A → B) (xs : List A) → length (map f xs) ≡ length xs
length-map f [] = refl
length-map f (x ∷ xs) = ap suc (length-map f xs)
