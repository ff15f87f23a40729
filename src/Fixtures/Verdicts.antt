-- ===== src/Fixtures/Verdicts.antt =====
-- fixture-expectations.js: which fixtures pass.
use db_migrate.Fixtures.{
  FixtureError, FixtureResult, should_be_valid, should_fail, code_or_type, distinct, not_behind,
  actual_codes, missing_from, compared, check_file_expectation,
}
use db_migrate.Base.{
  ℕ, ◌≡◌, refl, sym, ap, ◌∙◌, ◌↔◌, inl, inr, Bool, true, false, ◌||◌, Option, none, some, List, [],
  ◌∷◌, ◌++◌, map, arith, ltb, if◌then◌else◌, Bool-cases, length, filter, any, Text, text_eq,
  text_eq_iff, text_eq_refl, contains, sort_by, sort_by-count,
}

-- the result has an error of this code
abbrev pub reports : FixtureResult → Text → Bool
reports r code =
    any (λ e. elim (code_or_type e) [ none ↦ false | some c ↦ text_eq c code ]) r.errors

count : Text → List Text → ℕ
count c xs = length (filter (λ x. text_eq x c) xs)

contains-any : (xs : List Text) (c : Text) → contains xs c ≡ any (λ x. text_eq x c) xs
unfolding contains
contains-any [] c = refl
contains-any (x ∷ xs) c = ap (λ b. text_eq x c || b) (contains-any xs c)

any-count : (p : Text → Bool) (xs : List Text) → any p xs ≡ ltb 0 (length (filter p xs))
any-count p [] = refl
any-count p (x ∷ xs) = ground (arith, any-count p xs)

contains-sort_by : (xs : List Text) (c : Text) → contains (sort_by not_behind xs) c ≡ contains xs c
contains-sort_by xs c =
    contains-any (sort_by not_behind xs) c
    ∙ any-count (λ x. text_eq x c) (sort_by not_behind xs)
    ∙ ap (ltb 0) (sort_by-count not_behind (λ x. text_eq x c) xs)
    ∙ sym (any-count (λ x. text_eq x c) xs)
    ∙ sym (contains-any xs c)

contains-append :
    (xs : List Text) (d c : Text) → contains (xs ++ d ∷ []) c ≡ (contains xs c || text_eq d c)
unfolding contains
contains-append [] d c = ground arith
contains-append (x ∷ xs) d c = ground (arith, contains-append xs d c)

contains-distinct :
    (seen : List Text) (list : List (Option Text)) (code : Text)
    → contains (distinct seen list) code
      ≡ (contains seen code || any (λ o. elim o [ none ↦ false | some c ↦ text_eq c code ]) list)
unfolding distinct
contains-distinct seen [] code = ground arith
contains-distinct seen (none ∷ list) code = contains-distinct seen list code
contains-distinct seen (some c ∷ list) code = elim (Bool-cases (contains seen c)) [
  | inl known ↦
      let ih = contains-distinct seen list code in
      elim (Bool-cases (text_eq c code)) [
        | inl same ↦
            let there = ap (contains seen) (sym ((text_eq_iff c code).0 same)) ∙ known in
            ground (arith, known, ih, same, there)
        | inr other ↦ ground (arith, known, ih, other)
      ]
  | inr new ↦
      let ih = contains-distinct (seen ++ c ∷ []) list code in
      ground (arith, new, ih, contains-append seen c code)
]

contains-actual_codes :
    (r : FixtureResult) (code : Text) → contains (actual_codes r) code ≡ reports r code
unfolding actual_codes contains
contains-actual_codes r code =
    contains-sort_by (distinct [] (map code_or_type r.errors)) code
    ∙ contains-distinct [] (map code_or_type r.errors) code
    ∙ any-map r.errors
  where
    any-map :
        (errors : List FixtureError)
        → any (λ o. elim o [ none ↦ false | some c ↦ text_eq c code ]) (map code_or_type errors)
          ≡ any (λ e. elim (code_or_type e) [ none ↦ false | some c ↦ text_eq c code ]) errors
    any-map [] = refl
    any-map (e ∷ errors) =
        ap (λ b. elim (code_or_type e) [ none ↦ false | some c ↦ text_eq c code ] || b)
          (any-map errors)

missing_from-nil :
    (xs ys : List Text)
    → missing_from xs ys ≡ []
    → (c : Text) → contains xs c ≡ true
    → contains ys c ≡ true
unfolding missing_from contains
missing_from-nil [] ys h c e = absurd (cc)
missing_from-nil (x ∷ xs) ys h c e = elim (Bool-cases (contains ys x)) [
  | inr lacks ↦ absurd (ground (arith, lacks))
  | inl has ↦ elim (Bool-cases (text_eq x c)) [
    | inl same ↦ ap (contains ys) (sym ((text_eq_iff x c).0 same)) ∙ has
    | inr other ↦ missing_from-nil xs ys (ground (arith, has)) c (ground (arith, other))
  ]
]

nil-missing_from :
    (xs ys : List Text)
    → ((c : Text) → contains xs c ≡ true → contains ys c ≡ true)
    → missing_from xs ys ≡ []
unfolding missing_from contains
nil-missing_from [] ys h = refl
nil-missing_from (x ∷ xs) ys h =
    let ih = nil-missing_from xs ys (λ c e. h c (ground (arith, e))) in
    let has = h x (ground (arith, text_eq_refl x)) in ground (arith, ih, has)

-- a fixture fails with just the codes that it expects, or is valid where it expects none
abbrev pub Meets : FixtureResult → Option (List Text) → Type 0
Meets r none = r.valid ≡ true
Meets r (some expected) =
    (r.valid ≡ false) × ((code : Text) → contains expected code ≡ reports r code)

compared-none : (xs ys : List Text) → compared xs ys ≡ none → (xs ≡ []) × (ys ≡ [])
unfolding compared
compared-none [] [] e = (refl, refl)
compared-none (x ∷ xs) ys e = absurd (cc)
compared-none [] (y ∷ ys) e = absurd (cc)

both_ways : (a b : Bool) → (a ≡ true → b ≡ true) → (b ≡ true → a ≡ true) → a ≡ b
both_ways true b h k = sym (h refl)
both_ways false true h k = k refl
both_ways false false h k = refl

codes-Meets :
    (r : FixtureResult) (expected : List Text)
    → compared (missing_from expected (actual_codes r)) (missing_from (actual_codes r) expected)
      ≡ none
    → (code : Text) → contains expected code ≡ reports r code
codes-Meets r expected e code =
    let (missing, unexpected) = compared-none _ _ e in
    both_ways (contains expected code) (contains (actual_codes r) code)
      (missing_from-nil expected (actual_codes r) missing code)
      (missing_from-nil (actual_codes r) expected unexpected code)
    ∙ contains-actual_codes r code

Meets-codes :
    (r : FixtureResult) (expected : List Text)
    → ((code : Text) → contains expected code ≡ reports r code)
    → compared (missing_from expected (actual_codes r)) (missing_from (actual_codes r) expected)
      ≡ none
unfolding compared
Meets-codes r expected h =
    let missing =
      nil-missing_from expected (actual_codes r)
        (λ c e. contains-actual_codes r c ∙ sym (h c) ∙ e) in
    let unexpected =
      nil-missing_from (actual_codes r) expected
        (λ c e. h c ∙ sym (contains-actual_codes r c) ∙ e) in
    rw (missing, unexpected) refl

-- A fixture passes exactly if it is valid and no error was expected, or is invalid and the codes of
-- its errors are the expected ones, as sets.
pub check-Meets :
    (r : FixtureResult) (expected : Option (List Text))
    → (check_file_expectation r expected ≡ none) ↔ Meets r expected
unfolding check_file_expectation
check-Meets r none = valid_only r.valid (actual_codes r)
  where
    valid_only :
        (valid : Bool) (actual : List Text)
        → ((if valid then none else some (should_be_valid actual)) ≡ none) ↔ (valid ≡ true)
    valid_only true actual = (λ e. refl, λ e. refl)
    valid_only false actual = (λ e. absurd (cc), λ e. absurd (cc))
check-Meets r (some expected) = invalid_only r.valid
  where
    invalid_only :
        (valid : Bool)
        → ((if valid
              then some (should_fail expected)
              else compared
                  (missing_from expected (actual_codes r))
                  (missing_from (actual_codes r) expected))
            ≡ none)
          ↔ ((valid ≡ false) × ((code : Text) → contains expected code ≡ reports r code))
    invalid_only true = (λ e. absurd (cc), λ (v, h). absurd (cc))
    invalid_only false = (λ e. (refl, codes-Meets r expected e), λ (v, h). Meets-codes r expected h)
