-- ===== src/Policy/Reported.antt =====
-- base-adapter.js, applyRulePolicy: which findings disappear.
use db_migrate.Policy.{
  of_kind, setting_of, Rules, Setting, off, warn, error, Item, Findings, setting, is_off, is_warn,
  is_error, relaxed, downgraded, kept_warnings, upgraded, apply_rules, apply_rule_policy,
}
use db_migrate.Base.{
  ℕ, ◌+◌, ◌≡◌, refl, Bool, true, false, not, ◌&&◌, ◌||◌, Option, none, some, List, [], ◌∷◌, ◌++◌,
  arith, length, filter, length-append, Text, codes, truthy, length-map,
}

-- two tests that no element passes both
three_ways :
    {A : Type 0} (p q : A → Bool)
    → ((x : A) → (p x && q x) ≡ false)
    → (xs : List A)
    → length (filter (λ x. not (p x || q x)) xs) + length (filter q xs) + length (filter p xs)
      ≡ length xs
three_ways p q h [] = refl
three_ways p q h (x ∷ xs) = ground (arith, h x, three_ways p q h xs)

off_or_warn : (rules : Rules) (i : Item) → (is_off rules i && is_warn rules i) ≡ false
off_or_warn rules i = go (setting rules i)
  where
    go :
        (s : Option Setting)
        → ((elim s [ some off ↦ true | _ ↦ false ]) && (elim s [ some warn ↦ true | _ ↦ false ]))
          ≡ false
    go none = refl
    go (some off) = refl
    go (some warn) = refl
    go (some error) = refl

off_or_error : (rules : Rules) (i : Item) → (is_off rules i && is_error rules i) ≡ false
off_or_error rules i = go (setting rules i)
  where
    go :
        (s : Option Setting)
        → ((elim s [ some off ↦ true | _ ↦ false ]) && (elim s [ some error ↦ true | _ ↦ false ]))
          ≡ false
    go none = refl
    go (some off) = refl
    go (some warn) = refl
    go (some error) = refl

abbrev pub count_off : Rules → List Item → ℕ
count_off rules items = length (filter (is_off rules) items)

-- how many findings there are, and how many of them have a rule that is off
abbrev pub count : Findings → ℕ
count f = length f.errors + length f.forbidden_ops + length f.dangerous_ops + length f.warnings

abbrev pub count_all_off : Rules → Findings → ℕ
count_all_off rules f =
    count_off rules f.errors
    + count_off rules f.forbidden_ops
    + count_off rules f.dangerous_ops
    + count_off rules f.warnings

relaxed-count :
    (rules : Rules) (items : List Item)
    → length (relaxed rules items) + length (downgraded rules items) + count_off rules items
      ≡ length items
unfolding relaxed downgraded
relaxed-count rules items = omega (
  arith,
  length-map (of_kind (codes "downgraded")) (filter (is_warn rules) items),
  three_ways (is_off rules) (is_warn rules) (off_or_warn rules) items,
)

kept-count :
    (rules : Rules) (items : List Item)
    → length (kept_warnings rules items) + length (upgraded rules items) + count_off rules items
      ≡ length items
unfolding kept_warnings upgraded
kept-count rules items = omega (
  arith,
  length-map (of_kind (codes "dangerous-upgraded")) (filter (is_error rules) items),
  three_ways (is_off rules) (is_error rules) (off_or_error rules) items,
)

apply_rules-count :
    (rules : Rules) (f : Findings) → count (apply_rules rules f) + count_all_off rules f ≡ count f
unfolding apply_rules
apply_rules-count rules f =
    let e = downgraded rules f.errors in
    let g = downgraded rules f.forbidden_ops in
    let d = downgraded rules f.dangerous_ops in
    omega (
      arith,
      relaxed-count rules f.errors,
      relaxed-count rules f.forbidden_ops,
      relaxed-count rules f.dangerous_ops,
      kept-count rules f.warnings,
      length-append (relaxed rules f.dangerous_ops) (upgraded rules f.warnings),
      length-append (kept_warnings rules f.warnings) (e ++ (g ++ d)),
      length-append e (g ++ d),
      length-append g d,
    )

not_off : (i : Item) → is_off [] i ≡ false
unfolding setting
not_off i = go (truthy i.code)
  where
    go :
        (code : Option Text)
        → (elim (elim code as (λ c. Option Setting) [ none ↦ none | some c ↦ setting_of [] c ]) [
          | some off ↦ true
          | _ ↦ false
        ])
          ≡ false
    go none = refl
    go (some c) = refl

none_off : (items : List Item) → count_off [] items ≡ 0
none_off [] = refl
none_off (i ∷ items) = ground (arith, not_off i, none_off items)

-- No finding disappears but those whose rule is off: what applyRulePolicy reports and the findings
-- whose code is set to 'off' are together as many as the findings it was given.
pub apply_rule_policy-count :
    (rules : Rules) (f : Findings)
    → count (apply_rule_policy rules f) + count_all_off rules f ≡ count f
unfolding apply_rule_policy
apply_rule_policy-count [] f = omega (
  arith,
  none_off f.errors,
  none_off f.forbidden_ops,
  none_off f.dangerous_ops,
  none_off f.warnings,
)
apply_rule_policy-count (r ∷ rules) f = apply_rules-count (r ∷ rules) f
