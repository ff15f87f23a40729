-- ===== src/Policy/Configured/Protected.antt =====
-- base-adapter.js: protected codes stay as they are, whatever the configuration says.
use db_migrate.Policy.{
  Setting, off, warn, error, Item, Findings, Rules, setting, setting_of, relaxed, apply_rules,
  apply_rule_policy, of_kind, downgraded, kept_warnings, upgraded,
}
use db_migrate.Policy.Configured.{
  RawRule, PolicyProblem, cannot_change, no_such_code, custom_rules, rule_code,
  protected_rule_codes, setting_named, assign, add_rule, noted, add_rules, get_validation_policy,
}
use db_migrate.Base.{
  ◌≡◌, refl, sym, ap, ◌∙◌, ◌⊎◌, inl, inr, Bool, true, false, not, ◌||◌, Option, none, some, List,
  [], ◌∷◌, ◌++◌, map, append-nil, arith, if◌then◌else◌, Bool-cases, filter, filter-append, Text,
  codes, text_eq, text_eq_iff, contains, upper, truthy,
}

-- no setting for any of these codes
abbrev Leaves : List Text → Rules → Type 0
Leaves protected rules =
    (code : Text) → contains protected code ≡ true → setting_of rules code ≡ none

assign-setting_of :
    (code c : Text) (s : Setting) (rules : Rules)
    → text_eq code c ≡ false
    → setting_of (assign code s rules) c ≡ setting_of rules c
unfolding assign setting_of
assign-setting_of code c s [] other = ground (arith, other)
assign-setting_of code c s ((d, t) ∷ rules) other = elim (Bool-cases (text_eq d code)) [
  | inl same ↦
      let mine : text_eq d c ≡ false =
        ap (λ x. text_eq x c) ((text_eq_iff d code).0 same) ∙ other in
      ground (arith, same, mine)
  | inr apart ↦ ground (arith, apart, assign-setting_of code c s rules other)
]

add_rule-Leaves :
    (protected known : List Text) (raw : Text) (s : Option Setting) (rules more : Rules)
    → add_rule protected known raw s rules ≡ inr more
    → Leaves protected rules
    → Leaves protected more
unfolding add_rule
add_rule-Leaves protected known raw none rules more e h code is_protected = absurd (cc)
add_rule-Leaves protected known raw (some s) rules more e h code is_protected =
    split (contains protected (map upper raw)) refl (contains known (map upper raw)) e
  where
    split :
        (own : Bool)
        → contains protected (map upper raw) ≡ own
        → (there : Bool)
        → (if own
            then inl (cannot_change raw)
            else if not there
            then inl (no_such_code raw)
            else inr (assign (map upper raw) s rules))
          ≡ inr more
        → setting_of more code ≡ none
    split true own there e = absurd (cc)
    split false own false e = absurd (cc)
    split false own true e =
        let same : assign (map upper raw) s rules ≡ more = cc in
        ap (λ r. setting_of r code) (sym same)
        ∙ assign-setting_of (map upper raw) code s rules
            (differs (text_eq (map upper raw) code) refl)
        ∙ h code is_protected
      where
        differs : (b : Bool) → text_eq (map upper raw) code ≡ b → b ≡ false
        differs false e = refl
        differs true e =
            let same = (text_eq_iff (map upper raw) code).0 e in
            absurd (let clash = ap (contains protected) same in cc)

add_rules-Leaves :
    (protected known : List Text) (settings : List (Text × Text)) (rules : Rules)
    → Leaves protected rules
    → Leaves protected (add_rules protected known settings rules).1
unfolding add_rules
add_rules-Leaves protected known [] rules h = h
add_rules-Leaves protected known ((raw, s) ∷ rest) rules h =
    split (add_rule protected known raw (setting_named s) rules) refl
      (add_rules-Leaves protected known rest)
  where
    split :
        (out : PolicyProblem ⊎ Rules)
        → add_rule protected known raw (setting_named s) rules ≡ out
        → ((more : Rules)
            → Leaves protected more
            → Leaves protected (add_rules protected known rest more).1)
        → Leaves protected (noted rules out (add_rules protected known rest)).1
    split (inl problem) e next = next rules h
    split (inr more) e next =
        next more (add_rule-Leaves protected known raw (setting_named s) rules more e h)

-- the finding has this code
abbrev pub has_code : Text → Item → Bool
has_code code item = elim item.code [ none ↦ false | some c ↦ text_eq c code ]

module _ (rules : Rules) (code : Text) (unset : setting_of rules code ≡ none) where
  setting-none : (i : Item) → has_code code i ≡ true → setting rules i ≡ none
  unfolding setting
  setting-none i h = split i.code h
    where
      split :
          (c : Option Text)
          → (elim c [ none ↦ false | some d ↦ text_eq d code ]) ≡ true
          → (elim (truthy c) [ none ↦ none | some d ↦ setting_of rules d ]) ≡ none
      split none e = refl
      split (some []) e = refl
      split (some (d ∷ ds)) e = ap (setting_of rules) ((text_eq_iff (d ∷ ds) code).0 e) ∙ unset

  filter-kept :
      (drops : Option Setting → Bool)
      → drops none ≡ false
      → (items : List Item)
      → filter (has_code code) (filter (λ i. not (drops (setting rules i))) items)
        ≡ filter (has_code code) items
  filter-kept drops none_stays [] = refl
  filter-kept drops none_stays (i ∷ items) =
      let ih = filter-kept drops none_stays items in
      elim (Bool-cases (has_code code i)) [
        | inl has ↦
            let stays = ap drops (setting-none i has) ∙ none_stays in ground (arith, ih, stays, has)
        | inr lacks ↦ ground (arith, ih, lacks)
      ]

  filter-changed :
      (kind : Text) (picks : Option Setting → Bool)
      → picks none ≡ false
      → (items : List Item)
      → filter (has_code code) (map (of_kind kind) (filter (λ i. picks (setting rules i)) items))
        ≡ []
  filter-changed kind picks none_stays [] = refl
  filter-changed kind picks none_stays (i ∷ items) =
      let ih = filter-changed kind picks none_stays items in
      elim (Bool-cases (has_code code i)) [
        | inl has ↦
            let stays = ap picks (setting-none i has) ∙ none_stays in ground (arith, ih, stays)
        | inr lacks ↦ ground (arith, ih, lacks)
      ]

-- the findings of this code are those of before
pub record Unchanged (code : Text) (before after : Findings) : Type 0 where
  pub errors : filter (has_code code) after.errors ≡ filter (has_code code) before.errors
  pub forbidden :
      filter (has_code code) after.forbidden_ops ≡ filter (has_code code) before.forbidden_ops
  pub dangerous :
      filter (has_code code) after.dangerous_ops ≡ filter (has_code code) before.dangerous_ops
  pub warnings : filter (has_code code) after.warnings ≡ filter (has_code code) before.warnings

module _ (rules : Rules) (code : Text) (unset : setting_of rules code ≡ none) where
  relaxed-unset :
      (items : List Item)
      → filter (has_code code) (relaxed rules items) ≡ filter (has_code code) items
  unfolding relaxed
  relaxed-unset items =
      filter-kept rules code unset
        (λ s. elim s [ some off ↦ true | _ ↦ false ] || elim s [ some warn ↦ true | _ ↦ false ])
        refl items

  kept-unset :
      (items : List Item)
      → filter (has_code code) (kept_warnings rules items) ≡ filter (has_code code) items
  unfolding kept_warnings
  kept-unset items =
      filter-kept rules code unset
        (λ s. elim s [ some off ↦ true | _ ↦ false ] || elim s [ some error ↦ true | _ ↦ false ])
        refl items

  downgraded-unset : (items : List Item) → filter (has_code code) (downgraded rules items) ≡ []
  unfolding downgraded
  downgraded-unset items =
      filter-changed rules code unset (codes "downgraded")
        (λ s. elim s [ some warn ↦ true | _ ↦ false ]) refl items

  upgraded-unset : (items : List Item) → filter (has_code code) (upgraded rules items) ≡ []
  unfolding upgraded
  upgraded-unset items =
      filter-changed rules code unset (codes "dangerous-upgraded")
        (λ s. elim s [ some error ↦ true | _ ↦ false ]) refl items

  without_more :
      (xs ys zs : List Item)
      → filter (has_code code) xs ≡ filter (has_code code) zs
      → filter (has_code code) ys ≡ []
      → filter (has_code code) (xs ++ ys) ≡ filter (has_code code) zs
  without_more xs ys zs h k =
      filter-append (has_code code) xs ys
      ∙ ap (λ l. filter (has_code code) xs ++ l) k
      ∙ append-nil (filter (has_code code) xs)
      ∙ h

  none_of_both :
      (xs ys : List Item)
      → filter (has_code code) xs ≡ []
      → filter (has_code code) ys ≡ []
      → filter (has_code code) (xs ++ ys) ≡ []
  none_of_both xs ys h k =
      filter-append (has_code code) xs ys ∙ ap (λ l. l ++ filter (has_code code) ys) h ∙ k

  apply_rules-Unchanged : (f : Findings) → Unchanged code f (apply_rules rules f)
  unfolding apply_rules
  apply_rules-Unchanged f = record {
    errors = relaxed-unset f.errors;
    forbidden = relaxed-unset f.forbidden_ops;
    dangerous =
        without_more (relaxed rules f.dangerous_ops) (upgraded rules f.warnings) f.dangerous_ops
          (relaxed-unset f.dangerous_ops) (upgraded-unset f.warnings);
    warnings =
        without_more (kept_warnings rules f.warnings)
          (downgraded rules f.errors
            ++ (downgraded rules f.forbidden_ops ++ downgraded rules f.dangerous_ops))
          f.warnings (kept-unset f.warnings)
          (none_of_both (downgraded rules f.errors)
            (downgraded rules f.forbidden_ops ++ downgraded rules f.dangerous_ops)
            (downgraded-unset f.errors)
            (none_of_both (downgraded rules f.forbidden_ops) (downgraded rules f.dangerous_ops)
              (downgraded-unset f.forbidden_ops) (downgraded-unset f.dangerous_ops)));
  }

apply_rule_policy-Unchanged :
    (rules : Rules) (code : Text)
    → setting_of rules code ≡ none
    → (f : Findings) → Unchanged code f (apply_rule_policy rules f)
unfolding apply_rule_policy
apply_rule_policy-Unchanged [] code unset f = record {
  errors = refl;
  forbidden = refl;
  dangerous = refl;
  warnings = refl;
}
apply_rule_policy-Unchanged (r ∷ rules) code unset f =
    apply_rules-Unchanged (r ∷ rules) code unset f

-- Whatever settings and custom rules a configuration has, the policy made of it leaves the findings
-- of a protected code as they are: none of them is dropped, turned into a warning or raised, and
-- none is added under that code.
pub policy-Unchanged :
    (compile : RawRule → Option (Text → Bool)) (known protected : List Text)
    (raw_rules : List RawRule) (settings : List (Text × Text)) (code : Text) (f : Findings)
    → contains (protected_rule_codes ++ protected) code ≡ true
    → Unchanged code f (
        apply_rule_policy
          (get_validation_policy compile known protected raw_rules settings).rules
          f)
unfolding get_validation_policy
policy-Unchanged compile known protected raw_rules settings code f is_protected =
    apply_rule_policy-Unchanged _ code
      (add_rules-Leaves (protected_rule_codes ++ protected)
        (known ++ map rule_code (custom_rules compile 0 raw_rules).1) settings []
        (λ c h. unfold setting_of in refl) code is_protected)
      f
