-- ===== src/Policy.antt =====
-- src/core/base-adapter.js, applyRulePolicy and applyApproval: what a project's configuration makes of
-- the findings of the validation rules.
pub mod Reported
pub mod Approved
pub mod Configured
mod Tests
use db_migrate.Base.{
  ◌+◌, ◌-◌, Bool, true, false, not, ◌||◌, Option, none, some, List, [], ◌∷◌, ◌++◌, map, ◌==◌,
  if◌then◌else◌, or_default, filter, Text, codes, text_eq, contains, trim, truthy,
}

pub data Setting : Type 0 where
  off warn error : Setting

-- A finding; its `type` is `kind`. The prefix that a message gets is left out.
pub record Item : Type 0 where
  pub kind : Text
  pub code : Option Text
  pub message : Text
  pub approved_by : Option Text

pub record Findings : Type 0 where
  pub errors : List Item
  pub forbidden_ops : List Item
  pub dangerous_ops : List Item
  pub warnings : List Item

-- `rules`, an object by code
abbrev pub Rules : Type 0
Rules = List (Text × Setting)

pub setting_of : Rules → Text → Option Setting
unfolding text_eq
setting_of [] code = none
setting_of ((c, s) ∷ rules) code = if text_eq c code then some s else setting_of rules code

-- an absent or empty code has no setting
unfoldable pub setting : Rules → Item → Option Setting
unfolding setting_of
setting rules item = elim (truthy item.code) [ none ↦ none | some code ↦ setting_of rules code ]

abbrev pub is_off : Rules → Item → Bool
is_off rules item = elim (setting rules item) [ some off ↦ true | _ ↦ false ]

abbrev pub is_warn : Rules → Item → Bool
is_warn rules item = elim (setting rules item) [ some warn ↦ true | _ ↦ false ]

abbrev pub is_error : Rules → Item → Bool
is_error rules item = elim (setting rules item) [ some error ↦ true | _ ↦ false ]

-- `relax`: what it leaves, and what it adds to `downgraded`
unfoldable pub relaxed : Rules → List Item → List Item
relaxed rules items = filter (λ i. not (is_off rules i || is_warn rules i)) items

abbrev pub of_kind : Text → Item → Item
of_kind kind item = record item { kind = kind; approved_by = none }

unfoldable pub downgraded : Rules → List Item → List Item
downgraded rules items = map (of_kind (codes "downgraded")) (filter (is_warn rules) items)

-- the loop over the warnings: those that are kept, and those that become dangerous
unfoldable pub kept_warnings : Rules → List Item → List Item
kept_warnings rules items = filter (λ i. not (is_off rules i || is_error rules i)) items

unfoldable pub upgraded : Rules → List Item → List Item
upgraded rules items = map (of_kind (codes "dangerous-upgraded")) (filter (is_error rules) items)

pub apply_rules : Rules → Findings → Findings
apply_rules rules f = record {
  errors = relaxed rules f.errors;
  forbidden_ops = relaxed rules f.forbidden_ops;
  dangerous_ops = relaxed rules f.dangerous_ops ++ upgraded rules f.warnings;
  warnings =
      kept_warnings rules f.warnings
      ++ (downgraded rules f.errors
          ++ (downgraded rules f.forbidden_ops ++ downgraded rules f.dangerous_ops));
}

pub apply_rule_policy : Rules → Findings → Findings
apply_rule_policy [] f = f
apply_rule_policy (r ∷ rules) f = apply_rules (r ∷ rules) f

pub record Approval : Type 0 where
  pub approver : Option Text
  pub released_codes : List Text

-- `w.type === 'forbidden-allowed'`
unfoldable pub is_released : Item → Bool
unfolding text_eq
is_released w = text_eq w.kind (codes "forbidden-allowed")

-- `[...new Set(codes)]`, without absent and empty ones
add_new : List Text → Option Text → List Text
unfolding contains
add_new seen none = seen
add_new seen (some c) = if contains seen c then seen else seen ++ c ∷ []

codes_of : List Text → List Item → List Text
unfolding add_new
codes_of seen [] = seen
codes_of seen (i ∷ items) = codes_of (add_new seen (truthy i.code)) items

abbrev pub approve : Text → Item → Item
approve name w = if is_released w then record w { approved_by = some name } else w

abbrev pub approver_required : Item → Item
approver_required w = record {
  kind = codes "approver-required";
  code = some (codes "APPROVER_REQUIRED");
  message = or_default w.code (codes "A forbidden operation");
  approved_by = none;
}

-- past the early return, by the trimmed name
pub release : Bool → Text → List Item → Findings → Findings × Option Approval
unfolding codes_of
release required (c ∷ name) released f = (
  record f { warnings = map (approve (c ∷ name)) f.warnings },
  some (record { approver = some (c ∷ name); released_codes = codes_of [] released }),
)
release false [] released f =
    (f, some (record { approver = none; released_codes = codes_of [] released }))
release true [] released f = (
  record f {
    warnings = filter (λ w. not (is_released w)) f.warnings;
    forbidden_ops = f.forbidden_ops ++ map approver_required released;
  },
  none,
)

pub release_any : Bool → Text → List Item → Findings → Findings × Option Approval
release_any required name [] f = (f, none)
release_any required name (w ∷ released) f = release required name (w ∷ released) f

-- `applyApproval(policy, approvedBy)`, with `requireApprover` of the configuration
pub apply_approval : Bool → Option Text → Findings → Findings × Option Approval
unfolding trim
apply_approval required approved_by f =
    release_any required (trim (or_default approved_by [])) (filter is_released f.warnings) f
