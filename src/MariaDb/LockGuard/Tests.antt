-- ===== src/MariaDb/LockGuard/Tests.antt =====
-- A server that meets a given number of lock wait timeouts, and runs against it.
use db_migrate.Base.{ℕ, zero, suc, ◌≡◌, refl, true, none, some, [], ◌∷◌, Text, codes}
use db_migrate.MariaDb.{Result, ok, err, Error, Exec, Sql, script, set_max_statement_time}
use db_migrate.MariaDb.LockGuard.{
  LockGuardConfig, attempt, run_statements, is_lock_wait_timeout, run_split, execute_guarded,
  execute_with_lock_guard,
}
use db_migrate.MariaDb.LockGuard.Log.{logging}
use db_migrate.MariaDb.LockGuard.Order.{Ran, statements-Ran}
use db_migrate.MariaDb.LockGuard.Restore.{Passed, execute-restores}

abbrev locked : Error
locked = record { errno = 1205; code = codes "ER_LOCK_WAIT_TIMEOUT"; message = []; notes = [] }

-- the state is the number of timeouts to come
flaky : Sql → Exec ℕ (Unit {0})
flaky (script s) zero = (ok tt, zero)
flaky (script s) (suc n) = (err locked, n)
flaky q n = (ok tt, n)

abbrev first : Text
first = codes "ALTER a"

abbrev second : Text
second = codes "ALTER b"

-- the first statement is sent again after its timeouts
retried :
    run_split (logging flaky) 3 (codes "") (some (first ∷ second ∷ [])) ([], 2)
    ≡ (ok tt, (script first ∷ script first ∷ script first ∷ script second ∷ [], 0))
unfolding run_split run_statements attempt is_lock_wait_timeout logging flaky
retried = refl

statements-Ran_example :
    Ran flaky 3 2 0
      (first ∷ second ∷ [])
      []
      (run_split (logging flaky) 3 (codes "") (some (first ∷ second ∷ [])) ([], 2))
statements-Ran_example = statements-Ran flaky 3 (codes "") (first ∷ second ∷ []) 2

abbrev config : LockGuardConfig
config = record {
  enabled = some true;
  lock_wait_timeout_sec = none;
  innodb_lock_wait_timeout_sec = none;
  max_retries = none;
}

execute-restores_example :
    (r : Result (Unit {0})) × (last : ℕ) × (execute_with_lock_guard flaky
        (λ n. (ok 0, n))
        config
        first
        none
        (record { sec = some 30; source = codes "@timeout" })
        5
      ≡ (r, (flaky (set_max_statement_time 0) last).1))
    × (last ≡ (execute_guarded flaky config first none 5).1)
    × Passed 30 (codes "@timeout") (execute_guarded flaky config first none 5).0 r
unfolding flaky
execute-restores_example =
    execute-restores flaky (λ n. (ok 0, n)) config first none 29 (codes "@timeout") 5 5 5 0 refl
      refl
