-- ===== src/ValidationGate/Tests.antt =====
-- A DROP in a DCL file, and a dangerous operation.
use db_migrate.ValidationGate.{Report}
use db_migrate.Selection.{select_pending_migrations}
use db_migrate.ValidationGate.Check.{
  GateOptions, ValidateOptions, Validated, results, check_migrations_to_run, check_selected, judge,
  read_results, of_selection,
}
use db_migrate.ValidationGate.Check.Gate.{Judged, check-Judged}
use db_migrate.Base.{◌≡◌, refl, false, none, some, List, [], ◌∷◌, map, Text, codes}

abbrev report : Report
report = record {
  forbidden_ops = record { type = codes "forbidden-dclReverse"; code = codes "DDL_IN_DCL" } ∷ [];
  dangerous_ops = record { type = codes "dangerous"; code = codes "RENAME" } ∷ [];
  errors =
      record { code = some (codes "DDL_IN_DCL"); type = none }
      ∷ record { code = some (codes "RENAME"); type = none }
      ∷ [];
}

abbrev gate_options : GateOptions
gate_options = record {
  select = record { target = none; only = none };
  allow_dangerous = false;
  allow_forbidden = false;
  allow = [];
  approved_by = none;
}

-- every file fails
abbrev fails_all : ValidateOptions → List Text → Validated
fails_all options files =
    results
      (map
        (λ f. record {
          file = f;
          valid = false;
          report = record { forbidden_ops = []; dangerous_ops = []; errors = [] };
          messages = [];
          warnings = [];
        })
        files)
      []

no_error : (check_migrations_to_run fails_all (codes "1_a.sql" ∷ []) gate_options).error ≡ none
unfolding check_migrations_to_run check_selected of_selection judge read_results
no_error = refl

check-Judged_example :
    Judged fails_all gate_options
      (select_pending_migrations (codes "1_a.sql" ∷ []) gate_options.select).selected
      (check_migrations_to_run fails_all (codes "1_a.sql" ∷ []) gate_options)
check-Judged_example = check-Judged fails_all gate_options (codes "1_a.sql" ∷ []) no_error
