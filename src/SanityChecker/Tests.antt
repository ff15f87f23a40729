-- ===== src/SanityChecker/Tests.antt =====
-- A migration whose post-check fails.
use db_migrate.MariaDb.{Exec, ok}
use db_migrate.SanityChecker.{CheckResult, Migration, run_with_sanity_check}
use db_migrate.SanityChecker.Trace.Calls.{Event, traced}
use db_migrate.SanityChecker.Trace.{Traced, run_with_sanity_check-Traced}
use db_migrate.Base.{ℕ, suc, ◌-◌, refl, true, none, some, List, [], ◌==◌, Text}

-- a timer that never fires
abbrev no_timer : Text → Exec (List Event × ℕ) CheckResult → Exec (List Event × ℕ) CheckResult
no_timer message check = check

-- the state counts the table's columns; the check wants none
abbrev add_column : Migration ℕ
add_column = record {
  up = λ n. (ok tt, suc n);
  down = some (λ n. (ok tt, n - 1));
  pre_check = some (λ n. (ok (record { success = n == 0; error = none }), n));
  post_check = some (λ n. (ok (record { success = n == 0; error = none }), n));
}

run_with_sanity_check-Traced_example :
    Traced no_timer
      (λ message check s. refl)
      true
      add_column
      0
      (run_with_sanity_check no_timer
        (record { enabled = true; auto_rollback = true })
        (traced add_column)
        ([], 0))
run_with_sanity_check-Traced_example =
    run_with_sanity_check-Traced no_timer (λ message check s. refl) true add_column 0
