-- ===== src/Policy/Configured.antt =====
-- base-adapter.js: getValidationConfig, getValidationPolicy and evaluateCustomRules. A pattern is a
-- regular expression of the configuration, and its compilation a parameter.
pub mod Protected
use db_migrate.Policy.{Setting, off, warn, error, Item, Findings, Rules}
use db_migrate.MariaDb.Files.Annotations.{lower, is_empty}
use db_migrate.Base.{
  ℕ, suc, ◌+◌, ◌-◌, ◌*◌, String, ◌⊎◌, inl, inr, Bool, true, false, not, ◌&&◌, ◌||◌, Option, none,
  some, List, [], ◌∷◌, ◌++◌, map, leb, ◌==◌, if◌then◌else◌, or_default, filter, any, Text, codes,
  text_eq, contains, split_on, trim, upper, truthy,
}

-- a value of `validation.allow`
pub data AllowValue : Type 0 where
  listed : List Text → AllowValue
  text : Text → AllowValue

pub record ValidationConfig : Type 0 where
  pub allow : List (Text × List Text)
  pub existing : List Text
  pub require_approver : Bool

-- `.map(c => String(c).trim().toUpperCase()).filter(Boolean)`
unfoldable pub clean_codes : List Text → List Text
unfolding trim upper is_empty
clean_codes list = filter (λ c. not (is_empty c)) (map (λ c. map upper (trim c)) list)

unfoldable pub allowed_codes_of : AllowValue → List Text
unfolding clean_codes split_on
allowed_codes_of (listed list) = clean_codes list
allowed_codes_of (text s) = clean_codes (split_on b',' s)

unfoldable pub allow_entry : Text × AllowValue → Text × List Text
unfolding allowed_codes_of
allow_entry (file, value) = (file, allowed_codes_of value)

-- `getValidationConfig()`; `mongodb` is the test of the adapter's type
unfoldable pub get_validation_config :
    Bool → List (Text × AllowValue) → List Text → Bool → ValidationConfig
unfolding allow_entry lower
get_validation_config mongodb allow existing require_approver = record {
  allow = map allow_entry allow;
  existing = if mongodb then existing else map (λ t. map lower t) existing;
  require_approver = require_approver;
}

-- an entry of `validation.customRules`, as it is written
pub record RawRule : Type 0 where
  pub code : Option Text
  pub level : Option Text
  pub message : Option Text
  pub pattern : Text
  pub flags : Option Text

pub data Level : Type 0 where
  forbidden dangerous warning : Level

pub record CustomRule : Type 0 where
  pub code : Text
  pub level : Level
  pub matches : Text → Bool
  pub message : Text

pub data PolicyProblem : Type 0 where
  needs_code : ℕ → PolicyProblem
  bad_level needs_message bad_pattern : ℕ → Text → PolicyProblem
  bad_setting cannot_change no_such_code : Text → PolicyProblem

is_upper : ℕ → Bool
is_upper c = leb b'A' c && leb c b'Z'

all_code_chars : Text → Bool
unfolding is_upper
all_code_chars [] = true
all_code_chars (c ∷ s) = (is_upper c || leb b'0' c && leb c b'9' || c == b'_') && all_code_chars s

-- `/^[A-Z][A-Z0-9_]*$/`
unfoldable pub is_code : Text → Bool
unfolding is_upper all_code_chars
is_code [] = false
is_code (c ∷ s) = is_upper c && all_code_chars s

unfoldable pub level_of : Option Text → Option Level
unfolding text_eq
level_of none = none
level_of (some l) =
    if text_eq l (codes "forbidden")
    then some forbidden
    else if text_eq l (codes "dangerous")
    then some dangerous
    else if text_eq l (codes "warning")
    then some warning
    else none

-- `String(r?.code || '').trim().toUpperCase()`
unfoldable pub code_of_rule : RawRule → Text
unfolding trim upper
code_of_rule r = map upper (trim (or_default r.code []))

module _ (compile : RawRule → Option (Text → Bool)) where
  unfoldable pub with_pattern :
      ℕ → Text → Level → Text → Option (Text → Bool) → PolicyProblem ⊎ CustomRule
  with_pattern i code level message none = inl (bad_pattern i code)
  with_pattern i code level message (some matches) =
      inr (record { code = code; level = level; matches = matches; message = message })

  unfoldable pub with_message :
      ℕ → Text → Level → RawRule → Option Text → PolicyProblem ⊎ CustomRule
  unfolding with_pattern
  with_message i code level r none = inl (needs_message i code)
  with_message i code level r (some message) = with_pattern i code level message (compile r)

  unfoldable pub with_level : ℕ → Text → RawRule → Option Level → PolicyProblem ⊎ CustomRule
  unfolding with_message
  with_level i code r none = inl (bad_level i code)
  with_level i code r (some level) = with_message i code level r (truthy r.message)

  -- one round of the loop over the custom rules
  unfoldable pub custom_rule : ℕ → RawRule → PolicyProblem ⊎ CustomRule
  unfolding with_level level_of code_of_rule is_code
  custom_rule i r =
      let code = code_of_rule r in
      if is_code code then with_level i code r (level_of r.level) else inl (needs_code i)

  unfoldable pub custom_rules : ℕ → List RawRule → List PolicyProblem × List CustomRule
  unfolding custom_rule
  custom_rules i [] = ([], [])
  custom_rules i (r ∷ rest) =
      let (problems, rules) = custom_rules (suc i) rest in
      elim (custom_rule i r) [
        | inl problem ↦ (problem ∷ problems, rules)
        | inr rule ↦ (problems, rule ∷ rules)
      ]

-- a value of `validation.rules`
unfoldable pub setting_named : Text → Option Setting
unfolding text_eq
setting_named s =
    if text_eq s (codes "off")
    then some off
    else if text_eq s (codes "warn")
    then some warn
    else if text_eq s (codes "error")
    then some error
    else none

-- `rules[code] = setting`
unfoldable pub assign : Text → Setting → Rules → Rules
unfolding text_eq
assign code s [] = (code, s) ∷ []
assign code s ((c, t) ∷ rules) =
    if text_eq c code then (c, s) ∷ rules else (c, t) ∷ assign code s rules

-- one round of the loop over `validation.rules`: the sets are those of the protected and of the
-- known codes
unfoldable pub add_rule :
    List Text → List Text → Text → Option Setting → Rules → PolicyProblem ⊎ Rules
unfolding assign upper contains
add_rule protected known raw none rules = inl (bad_setting raw)
add_rule protected known raw (some s) rules =
    let code = map upper raw in
    if contains protected code
    then inl (cannot_change raw)
    else if not (contains known code)
    then inl (no_such_code raw)
    else inr (assign code s rules)

-- a problem is noted, and the rules are left
abbrev pub noted :
    Rules
    → PolicyProblem ⊎ Rules
    → (Rules → List PolicyProblem × Rules)
    → List PolicyProblem × Rules
noted rules (inl problem) next = (problem ∷ (next rules).0, (next rules).1)
noted rules (inr more) next = next more

unfoldable pub add_rules :
    List Text → List Text → List (Text × Text) → Rules → List PolicyProblem × Rules
unfolding add_rule setting_named
add_rules protected known [] rules = ([], rules)
add_rules protected known ((raw, s) ∷ rest) rules =
    noted rules (add_rule protected known raw (setting_named s) rules)
      (add_rules protected known rest)

pub record ValidationPolicy : Type 0 where
  pub rules : Rules
  pub custom_rules : List CustomRule
  pub problems : List PolicyProblem

-- `PROTECTED_RULE_CODES`
abbrev pub protected_rule_codes : List Text
protected_rule_codes =
    codes "MISSING_UP_MARKER" ∷ codes "MISSING_UP_EXPORT" ∷ codes "JS_SYNTAX_ERROR" ∷ []

abbrev pub rule_code : CustomRule → Text
rule_code r = r.code

-- `getValidationPolicy()`, with the known and the protected codes of the adapter
unfoldable pub get_validation_policy :
    (RawRule → Option (Text → Bool))
    → List Text
    → List Text
    → List RawRule
    → List (Text × Text)
    → ValidationPolicy
unfolding custom_rules add_rules
get_validation_policy compile known protected raw_rules settings =
    let (problems, customs) = custom_rules compile 0 raw_rules in
    let (more, rules) =
      add_rules (protected_rule_codes ++ protected) (known ++ map rule_code customs) settings [] in
    record { rules = rules; custom_rules = customs; problems = problems ++ more }

-- the allowances of a run and of a file
pub record Allowances : Type 0 where
  pub allow_forbidden : Bool
  pub allow_dangerous : Bool
  pub allowed_codes : List Text

abbrev custom_item : Text → CustomRule → Item
custom_item kind rule = record {
  kind = kind;
  code = some rule.code;
  message = rule.message;
  approved_by = none;
}

-- a custom rule that matches one of the texts, by its level and what is allowed
unfoldable pub report_rule : Level → Bool → CustomRule → Findings → Findings
report_rule warning allowed rule f = record f {
  warnings = f.warnings ++ custom_item (codes "warning") rule ∷ [];
}
report_rule forbidden true rule f = record f {
  warnings = f.warnings ++ custom_item (codes "forbidden-allowed") rule ∷ [];
}
report_rule forbidden false rule f = record f {
  forbidden_ops = f.forbidden_ops ++ custom_item (codes "forbidden-custom") rule ∷ [];
}
report_rule dangerous true rule f = record f {
  warnings = f.warnings ++ custom_item (codes "dangerous-allowed") rule ∷ [];
}
report_rule dangerous false rule f = record f {
  dangerous_ops = f.dangerous_ops ++ custom_item (codes "dangerous-custom") rule ∷ [];
}

unfoldable pub is_allowed : Allowances → CustomRule → Bool
unfolding contains
is_allowed options rule =
    elim rule.level [ forbidden ↦ options.allow_forbidden | _ ↦ options.allow_dangerous ]
    || contains options.allowed_codes rule.code

-- `evaluateCustomRules(texts, options, findings)`
unfoldable pub evaluate_custom_rules :
    List Text → Allowances → List CustomRule → Findings → Findings
unfolding report_rule is_allowed
evaluate_custom_rules texts options [] f = f
evaluate_custom_rules texts options (rule ∷ rules) f =
    let reported = report_rule rule.level (is_allowed options rule) rule f in
    evaluate_custom_rules texts options rules (if any rule.matches texts then reported else f)
