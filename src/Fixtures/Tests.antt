-- ===== src/Fixtures/Tests.antt =====
-- A fixture that is meant to fail with one code.
use db_migrate.Fixtures.{FixtureResult, check_file_expectation}
use db_migrate.Fixtures.Verdicts.{Meets, check-Meets}
use db_migrate.Base.{◌≡◌, ◌↔◌, false, none, some, [], ◌∷◌, codes}

abbrev truncates : FixtureResult
truncates = record {
  valid = false;
  errors = record { code = some (codes "TRUNCATE_TABLE"); type = none } ∷ [];
}

check-Meets_example :
    (check_file_expectation truncates (some (codes "TRUNCATE_TABLE" ∷ [])) ≡ none)
    ↔ Meets truncates (some (codes "TRUNCATE_TABLE" ∷ []))
check-Meets_example = check-Meets truncates (some (codes "TRUNCATE_TABLE" ∷ []))
