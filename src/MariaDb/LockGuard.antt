-- ===== src/MariaDb/LockGuard.antt =====
-- mariadb-adapter.js, _executeGuarded and executeWithLockGuard: a migration's SQL is run one
-- statement at a time, each retried when it met a lock wait timeout.
mod Log
mod Order
mod Restore
pub mod Effect
mod Tests
use db_migrate.SqlStatements.Split.{split_sql_statements}
use db_migrate.MariaDb.{
  Note, at_statement, stopped_by, Error, new_error, add_note, Result, ok, err, Exec, pure, throw,
  ◌>>=◌, ◌>>◌, catch, resume, rescue, Sql, script, use_database, script_in, set_lock_wait_timeout,
  set_innodb_lock_wait_timeout, set_max_statement_time,
}
use db_migrate.Base.{
  ℕ, zero, suc, ◌+◌, ◌-◌, Bool, true, ◌||◌, Option, none, some, List, [], ◌∷◌, ltb, ◌==◌,
  if◌then◌else◌, or_default, length, Text, codes, text_eq, truthy,
}

-- `config.ddlSafety.lockGuard`. In a field that must be a positive integer 0 stands for every value
-- that is none.
pub record LockGuardConfig : Type 0 where
  pub enabled : Option Bool
  pub lock_wait_timeout_sec : Option ℕ
  pub innodb_lock_wait_timeout_sec : Option ℕ
  pub max_retries : Option ℕ

-- the `timeoutSec` and `timeoutSource` of an execution
pub record Timeout : Type 0 where
  pub sec : Option ℕ
  pub source : Text

unfoldable pub require_positive_int : {W : Type 0} → ℕ → Text → Exec W ℕ
require_positive_int zero name = throw (new_error name)
require_positive_int (suc n) name = pure (suc n)

-- `isLockWaitTimeout`
unfoldable pub is_lock_wait_timeout : Error → Bool
unfolding text_eq
is_lock_wait_timeout e = e.errno == 1205 || text_eq e.code (codes "ER_LOCK_WAIT_TIMEOUT")

-- `error.errno === 1969 || error.errno === 1317`
unfoldable pub is_interrupted : Error → Bool
is_interrupted e = e.errno == 1969 || e.errno == 1317

-- what the `catch` adds to an error that it throws on
pub locate : ℕ → ℕ → Error → Error
locate index total e = if ltb 1 total then add_note (at_statement index total) e else e

module _ {W : Type 0} (query : Sql → Exec W (Unit {0})) where
  -- The `for (;;)` over one statement; the number is `maxRetries - attempt`, how many more attempts
  -- the `catch` allows.
  pub attempt : ℕ → Text → Exec W (Unit {0})
  attempt zero statement = query (script statement)
  attempt (suc left) statement =
      catch (query (script statement))
        λ e. let again = attempt left statement in if is_lock_wait_timeout e then again else throw e

  -- the loop over `statements.entries()`
  pub run_statements : ℕ → ℕ → ℕ → List Text → Exec W (Unit {0})
  run_statements max_retries total index [] = pure tt
  run_statements max_retries total index (statement ∷ statements) = do
    catch (attempt (max_retries - 1) statement) λ e. throw (locate (index + 1) total e)
    run_statements max_retries total (index + 1) statements

  pub use_if_given : Option Text → Exec W (Unit {0})
  use_if_given none = pure tt
  use_if_given (some db) = query (use_database db)

  -- what runs once the session is set up: batch or statements
  pub run_split : ℕ → Text → Option (List Text) → Exec W (Unit {0})
  run_split max_retries sql none = query (script sql)
  run_split max_retries sql (some statements) =
      run_statements max_retries (length statements) 0 statements

  unfoldable pub unguarded : Text → Option Text → Exec W (Unit {0})
  unguarded sql none = query (script sql)
  unguarded sql (some db) = query (script_in db sql)

  pub guarded : LockGuardConfig → Text → Option Text → Exec W (Unit {0})
  guarded cfg sql database = do
    lock ←
        require_positive_int (or_default cfg.lock_wait_timeout_sec 5) (codes "lockWaitTimeoutSec")
    innodb ←
        require_positive_int (or_default cfg.innodb_lock_wait_timeout_sec 5)
          (codes "innodbLockWaitTimeoutSec")
    query (set_lock_wait_timeout lock)
    query (set_innodb_lock_wait_timeout innodb)
    use_if_given database
    run_split (or_default cfg.max_retries 3) sql (split_sql_statements sql)

  -- `_executeGuarded(sql, database)`
  unfoldable pub execute_guarded : LockGuardConfig → Text → Option Text → Exec W (Unit {0})
  execute_guarded cfg sql database =
      if or_default cfg.enabled true
      then guarded cfg sql (truthy database)
      else unguarded sql (truthy database)

  -- `finally { await query(…).catch(() => {}) }`
  pub restore : {A : Type 0} → ℕ → Result A × W → Result A × W
  restore previous (r, w) = (r, (query (set_max_statement_time previous) w).1)

  module _ (session_statement_time : Exec W ℕ) where
    -- `SELECT @@session.max_statement_time`, which MySQL refuses
    pub read_statement_time : Text → Exec W ℕ
    read_statement_time source =
        catch session_statement_time
          λ e. if e.errno == 1193 then throw (new_error source) else throw e

    pub limited : LockGuardConfig → Text → Option Text → ℕ → Text → Exec W (Unit {0})
    limited cfg sql database sec source = do
      previous ← read_statement_time source
      query (set_max_statement_time sec)
      λ w. restore previous (
          catch (execute_guarded cfg sql database)
            (λ e. throw (if is_interrupted e then add_note (stopped_by source sec) e else e)) w)

    -- `executeWithLockGuard(sql, { database, timeoutSec, timeoutSource })`
    unfoldable pub execute_with_lock_guard :
        LockGuardConfig → Text → Option Text → Timeout → Exec W (Unit {0})
    execute_with_lock_guard cfg sql database timeout = elim timeout.sec [
      | none ↦ execute_guarded cfg sql database
      | some zero ↦ execute_guarded cfg sql database
      | some (suc n) ↦ limited cfg sql database (suc n) timeout.source
    ]
