-- ===== src/ValidationGate/Check.antt =====
-- validation-gate.js: validationOptionsFromCli, checkMigrationsToRun, describeValidationFailures and
-- allowHintForFailures. The adapter's `validate` is a parameter.
pub mod Gate
use db_migrate.Selection.{SelectOptions, SelectError, Selection, select_pending_migrations}
use db_migrate.MariaDb.Files.Annotations.{is_empty}
use db_migrate.ValidationGate.{Report, Classified, classify_codes}
use db_migrate.Base.{
  ◌+◌, ◌-◌, Bool, true, false, not, Option, none, some, List, [], ◌∷◌, ◌++◌, map, if◌then◌else◌,
  or_default, filter, any, Text, codes, text_eq, ends_with, contains, join_with, trim, upper,
  truthy,
}

pub record GateOptions : Type 0 where
  pub select : SelectOptions
  pub allow_dangerous : Bool
  pub allow_forbidden : Bool
  pub allow : List Text
  pub approved_by : Option Text

-- what `validate` takes
pub record ValidateOptions : Type 0 where
  pub allow_dangerous : Bool
  pub allow_forbidden : Bool
  pub allowed_codes : List Text
  pub approved_by : Option Text

-- `validationOptionsFromCli(options)`
unfoldable pub validation_options_from_cli : GateOptions → ValidateOptions
unfolding trim upper is_empty
validation_options_from_cli options = record {
  allow_dangerous = options.allow_dangerous;
  allow_forbidden = options.allow_forbidden;
  allowed_codes = filter (λ c. not (is_empty c)) (map (λ c. map upper (trim c)) options.allow);
  approved_by = truthy (some (trim (or_default options.approved_by [])));
}

pub record Warning : Type 0 where
  pub type : Text
  pub code : Option Text
  pub message : Text
  pub approved_by : Option Text

-- an entry of the results of `validate`
pub record FileResult : Type 0 where
  pub file : Text
  pub valid : Bool
  pub report : Report
  pub messages : List Text
  pub warnings : List Warning

pub data Validated : Type 0 where
  could_not_run : Text → Validated
  results : List FileResult → List Text → Validated

pub record Failure : Type 0 where
  pub file : Text
  pub classified : Classified
  pub messages : List Text

-- an allowance that was used; `approver` holds something only for a forbidden operation
pub record Allowed : Type 0 where
  pub file : Text
  pub code : Option Text
  pub message : Text
  pub forbidden : Bool
  pub approver : Option Text

pub data GateError : Type 0 where
  not_selected : SelectError → GateError
  not_validated : Text → GateError

pub record GateResult : Type 0 where
  pub files : List Text
  pub failures : List Failure
  pub allowed : List Allowed
  pub config_warnings : List Text
  pub error : Option GateError

abbrev pub no_result : GateResult
no_result = record { files = []; failures = []; allowed = []; config_warnings = []; error = none }

-- `/-allowed$/`
unfoldable pub is_used : Warning → Bool
unfolding ends_with
is_used w = ends_with w.type (codes "-allowed")

unfoldable pub used : Text → Warning → Allowed
unfolding text_eq
used file w =
    let forbidden = text_eq w.type (codes "forbidden-allowed") in
    record {
      file = file;
      code = truthy w.code;
      message = w.message;
      forbidden = forbidden;
      approver = if forbidden then truthy w.approved_by else none;
    }

unfoldable pub failure_of : FileResult → Failure
unfolding classify_codes
failure_of r = record { file = r.file; classified = classify_codes r.report; messages = r.messages }

-- the loop over the results
unfoldable pub read_results : List FileResult → GateResult → GateResult
unfolding failure_of used is_used
read_results [] out = out
read_results (r ∷ rest) out = read_results rest (record out {
  failures = if r.valid then out.failures else out.failures ++ failure_of r ∷ [];
  allowed = out.allowed ++ map (used r.file) (filter is_used r.warnings);
})

unfoldable pub judge : List Text → Validated → GateResult
unfolding read_results
judge files (could_not_run message) = record no_result {
  files = files;
  error = some (not_validated message);
}
judge files (results rs config_warnings) =
    read_results rs (record no_result { files = files; config_warnings = config_warnings })

module _ (validate : ValidateOptions → List Text → Validated) where
  unfoldable pub of_selection : GateOptions → Option SelectError → List Text → GateResult
  unfolding judge validation_options_from_cli
  of_selection options (some e) files = record no_result { error = some (not_selected e) }
  of_selection options none [] = no_result
  of_selection options none (f ∷ files) =
      judge (f ∷ files) (validate (validation_options_from_cli options) (f ∷ files))

  unfoldable pub check_selected : GateOptions → Selection → GateResult
  unfolding of_selection
  check_selected options s = of_selection options s.error s.selected

  -- `checkMigrationsToRun(adapter, pending, options)`
  unfoldable pub check_migrations_to_run : List Text → GateOptions → GateResult
  unfolding check_selected select_pending_migrations
  check_migrations_to_run pending options =
      check_selected options (select_pending_migrations pending options.select)

-- `[...new Set(list)]`
unfoldable pub distinct : List Text → List Text → List Text
unfolding contains
distinct seen [] = seen
distinct seen (c ∷ list) =
    let rest = distinct (seen ++ c ∷ []) list in
    let skip = distinct seen list in if contains seen c then skip else rest

abbrev pub allowable_of : List Failure → List Text
allowable_of [] = []
allowable_of (f ∷ failures) = f.classified.allowable ++ allowable_of failures

pub record AllowHint : Type 0 where
  pub allow : Text
  pub needs_fix : Bool

-- `allowHintForFailures(failures)`
unfoldable pub allow_hint_for_failures : List Failure → AllowHint
unfolding distinct join_with
allow_hint_for_failures failures = record {
  allow = join_with b',' (distinct [] (allowable_of failures));
  needs_fix =
      any (λ (f : Failure). elim f.classified.must_fix [ [] ↦ false | c ∷ more ↦ true ]) failures;
}
