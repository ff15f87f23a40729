-- ===== src/Policy/Tests.antt =====
-- A released DROP without an approver, and a rule that is off.
use db_migrate.Policy.{
  off, warn, Rules, Item, Findings, is_released, apply_rule_policy, apply_approval, release,
  release_any,
}
use db_migrate.Policy.Approved.{Checked, apply_approval-Checked}
use db_migrate.Policy.Reported.{count, count_all_off, apply_rule_policy-count}
use db_migrate.Policy.Configured.{protected_rule_codes, get_validation_policy}
use db_migrate.Policy.Configured.Protected.{Unchanged, policy-Unchanged}
use db_migrate.Base.{
  ◌+◌, ◌≡◌, refl, true, none, some, [], ◌∷◌, ◌++◌, length, Text, codes, text_eq, contains,
}

abbrev item : Text → Text → Item
item kind code = record { kind = kind; code = some code; message = []; approved_by = none }

abbrev drop_table : Item
drop_table = item (codes "forbidden-allowed") (codes "DROP_TABLE")

abbrev released_drop : Findings
released_drop = record {
  errors = [];
  forbidden_ops = [];
  dangerous_ops = item (codes "dangerous") (codes "RENAME") ∷ [];
  warnings = drop_table ∷ [];
}

-- without a name, or with one of spaces, the release becomes a forbidden operation
refused : length (apply_approval true (some (codes "  ")) released_drop).0.forbidden_ops ≡ 1
unfolding apply_approval release release_any is_released
refused = refl

apply_approval-Checked_example :
    Checked released_drop (apply_approval true (some (codes " ann ")) released_drop)
apply_approval-Checked_example = apply_approval-Checked (some (codes " ann ")) released_drop

abbrev rules : Rules
rules = (codes "RENAME", warn) ∷ (codes "DROP_TABLE", off) ∷ []

apply_rule_policy-count_example :
    count (apply_rule_policy rules released_drop) + count_all_off rules released_drop ≡ 2
apply_rule_policy-count_example = apply_rule_policy-count rules released_drop

abbrev broken : Findings
broken = record {
  errors =
      record {
        kind = codes "syntax";
        code = some (codes "JS_SYNTAX_ERROR");
        message = [];
        approved_by = none;
      }
      ∷ [];
  forbidden_ops = [];
  dangerous_ops = [];
  warnings = [];
}

js_is_protected :
    contains (protected_rule_codes ++ codes "CREATE_TABLE" ∷ []) (codes "JS_SYNTAX_ERROR") ≡ true
unfolding contains text_eq
js_is_protected = refl

-- the configuration tries to turn the rule off
policy-Unchanged_example : Unchanged (codes "JS_SYNTAX_ERROR") broken (
    apply_rule_policy
      (get_validation_policy
        (λ r. some (λ t. true))
        (codes "JS_SYNTAX_ERROR" ∷ [])
        (codes "CREATE_TABLE" ∷ [])
        []
        ((codes "js_syntax_error", codes "off") ∷ [])).rules
      broken)
policy-Unchanged_example =
    policy-Unchanged (λ r. some (λ t. true)) (codes "JS_SYNTAX_ERROR" ∷ [])
      (codes "CREATE_TABLE" ∷ []) [] ((codes "js_syntax_error", codes "off") ∷ [])
      (codes "JS_SYNTAX_ERROR") broken js_is_protected
