-- ===== src/ValidationGate.antt =====
-- src/core/validation-gate.js, classifyCodes: which error codes of a file an allowance can release.
pub mod Unreleased
pub mod Check
mod Tests
use db_migrate.Base.{
  ◌+◌, ◌-◌, Bool, not, ◌&&◌, ◌||◌, Option, none, some, List, [], ◌∷◌, ◌++◌, map, if◌then◌else◌,
  filter, Text, codes, text_eq, contains, truthy,
}

-- an entry of `forbiddenOps` and `dangerousOps`
pub record Op : Type 0 where
  pub type : Text
  pub code : Text

-- an entry of `errors`
pub record Problem : Type 0 where
  pub code : Option Text
  pub type : Option Text

-- what `validate` reports of a file
pub record Report : Type 0 where
  pub forbidden_ops : List Op
  pub dangerous_ops : List Op
  pub errors : List Problem

pub record Classified : Type 0 where
  pub all_codes : List Text
  pub allowable : List Text
  pub must_fix : List Text

-- `ALLOWABLE_STRUCTURAL_CODES`
abbrev pub allowable_structural_codes : List Text
allowable_structural_codes =
    codes "ORPHAN_DROP_DOWN" ∷ codes "ORPHAN_DROP_UP" ∷ codes "FK_UNRESOLVED_REFERENCE" ∷ []

unfoldable pub can_release : Op → Bool
unfolding text_eq
can_release op =
    not (text_eq op.type (codes "forbidden-dclReverse"))
    && not (text_eq op.type (codes "approver-required"))

abbrev pub code_of : Op → Text
code_of op = op.code

-- the codes of the errors that are structural
pub structural : List Problem → List Text
structural [] = []
structural (e ∷ errors) =
    let rest = structural errors in
    elim e.code [
      | none ↦ rest
      | some c ↦ if contains allowable_structural_codes c then c ∷ rest else rest
    ]

-- the set `allowable`
unfoldable pub allowable_codes : Report → List Text
allowable_codes r =
    map code_of (filter can_release r.forbidden_ops)
    ++ (map code_of r.dangerous_ops ++ structural r.errors)

-- `e.code || e.type`
abbrev pub code_or_type : Problem → Option Text
code_or_type e = elim (truthy e.code) [ some c ↦ some c | none ↦ truthy e.type ]

add_code : List Text → Option Text → List Text
add_code seen none = seen
add_code seen (some c) = if contains seen c then seen else seen ++ c ∷ []

-- `[...new Set(…)]`
pub distinct_codes : List Text → List Problem → List Text
unfolding add_code
distinct_codes seen [] = seen
distinct_codes seen (e ∷ errors) = distinct_codes (add_code seen (code_or_type e)) errors

unfoldable pub classify_codes : Report → Classified
classify_codes r =
    let all = distinct_codes [] r.errors in
    record {
      all_codes = all;
      allowable = filter (λ c. contains (allowable_codes r) c) all;
      must_fix = filter (λ c. not (contains (allowable_codes r) c)) all;
    }
