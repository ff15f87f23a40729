-- ===== src/MariaDb/LockGuard/Effect.antt =====
-- mariadb-adapter.js, executeWithLockGuard: a migration's run observes and changes no more of the
-- server than the texts it sends do.
use db_migrate.Base.{
  ℕ, zero, suc, ◌+◌, ◌-◌, refl, ◌∙◌, Bool, true, Option, none, some, List, [], ◌∷◌, ◌==◌,
  or_default, length, Text, codes, truthy,
}
use db_migrate.SqlStatements.Split.{split_sql_statements}
use db_migrate.MariaDb.{
  Exec, throw, catch, Sql, script, set_max_statement_time, script_in, use_database,
  set_lock_wait_timeout, set_innodb_lock_wait_timeout,
}
use db_migrate.MariaDb.Keeps.{Keeps, >>=-Keeps, catch-Keeps, if-Keeps, pure-Keeps, rescue-Keeps}
use db_migrate.MariaDb.LockGuard.{
  LockGuardConfig, Timeout, is_lock_wait_timeout, require_positive_int, locate, attempt,
  run_statements, use_if_given, run_split, unguarded, guarded, execute_guarded, restore,
  read_statement_time, limited, execute_with_lock_guard,
}

module _ {W : Type 0} (f : W → Bool) (query : Sql → Exec W (Unit {0}))
    (keeps : (q : Sql) → Keeps f (query q)) where
  attempt-Keeps : (n : ℕ) (st : Text) → Keeps f (attempt query n st)
  unfolding attempt
  attempt-Keeps zero st = keeps (script st)
  attempt-Keeps (suc n) st =
      catch-Keeps f (query (script st)) _ (keeps (script st))
        λ e. if-Keeps f (is_lock_wait_timeout e) _ _ (attempt-Keeps n st) (λ w. refl)

  run_statements-Keeps :
      (m total index : ℕ) (sts : List Text) → Keeps f (run_statements query m total index sts)
  unfolding run_statements
  run_statements-Keeps m total index [] = pure-Keeps f tt
  run_statements-Keeps m total index (st ∷ sts) =
      >>=-Keeps f (catch (attempt query (m - 1) st) (λ e. throw (locate (index + 1) total e))) _
        (catch-Keeps f (attempt query (m - 1) st) _ (attempt-Keeps (m - 1) st) (λ e w. refl))
        (λ _. run_statements-Keeps m total (index + 1) sts)

  require-Keeps : (n : ℕ) (name : Text) → Keeps f (require_positive_int {W = W} n name)
  unfolding require_positive_int
  require-Keeps zero name w = refl
  require-Keeps (suc n) name w = refl

  use-Keeps : (db : Option Text) → Keeps f (use_if_given query db)
  unfolding use_if_given
  use-Keeps none w = refl
  use-Keeps (some db) w = keeps (use_database db) w

  run_split-Keeps :
      (m : ℕ) (sql : Text) (sts : Option (List Text)) → Keeps f (run_split query m sql sts)
  unfolding run_split
  run_split-Keeps m sql none = keeps (script sql)
  run_split-Keeps m sql (some sts) = run_statements-Keeps m (length sts) 0 sts

  unguarded-Keeps : (sql : Text) (db : Option Text) → Keeps f (unguarded query sql db)
  unfolding unguarded
  unguarded-Keeps sql none = keeps (script sql)
  unguarded-Keeps sql (some db) = keeps (script_in db sql)

  guarded-Keeps :
      (cfg : LockGuardConfig) (sql : Text) (db : Option Text) → Keeps f (guarded query cfg sql db)
  unfolding guarded
  guarded-Keeps cfg sql db =
      let lock_name = codes "lockWaitTimeoutSec" in
      let innodb_name = codes "innodbLockWaitTimeoutSec" in
      let lock_sec = or_default cfg.lock_wait_timeout_sec 5 in
      let innodb_sec = or_default cfg.innodb_lock_wait_timeout_sec 5 in
      let m = or_default cfg.max_retries 3 in
      >>=-Keeps f (require_positive_int lock_sec lock_name) _ (require-Keeps lock_sec lock_name)
        λ lock.
          >>=-Keeps f (require_positive_int innodb_sec innodb_name) _
            (require-Keeps innodb_sec innodb_name)
            λ innodb.
              >>=-Keeps f (query (set_lock_wait_timeout lock)) _
                (keeps (set_lock_wait_timeout lock))
                λ _.
                  >>=-Keeps f (query (set_innodb_lock_wait_timeout innodb)) _
                    (keeps (set_innodb_lock_wait_timeout innodb))
                    λ _.
                      >>=-Keeps f (use_if_given query db) _ (use-Keeps db)
                        λ _. run_split-Keeps m sql (split_sql_statements sql)

  execute_guarded-Keeps :
      (cfg : LockGuardConfig) (sql : Text) (db : Option Text)
      → Keeps f (execute_guarded query cfg sql db)
  unfolding execute_guarded
  execute_guarded-Keeps cfg sql db =
      if-Keeps f (or_default cfg.enabled true) _ _ (guarded-Keeps cfg sql (truthy db))
        (unguarded-Keeps sql (truthy db))

  module _ (time : Exec W ℕ) (keeps_time : Keeps f time) where
    read-Keeps : (source : Text) → Keeps f (read_statement_time query time source)
    unfolding read_statement_time
    read-Keeps source =
        catch-Keeps f time _ keeps_time
          λ e. if-Keeps f (e.errno == 1193) _ _ (λ w. refl) (λ w. refl)

    limited-Keeps :
        (cfg : LockGuardConfig) (sql : Text) (db : Option Text) (sec : ℕ) (source : Text)
        → Keeps f (limited query time cfg sql db sec source)
    unfolding limited restore
    limited-Keeps cfg sql db sec source =
        >>=-Keeps f (read_statement_time query time source) _ (read-Keeps source) λ previous.
          >>=-Keeps f (query (set_max_statement_time sec)) _ (keeps (set_max_statement_time sec))
            λ _ w.
              keeps (set_max_statement_time previous) _
              ∙ rescue-Keeps f _ (f w) (execute_guarded query cfg sql db w)
                  (execute_guarded-Keeps cfg sql db w) (λ e w3. refl)

    -- If each text that is sent leaves a part of the server's state, so does the run of a migration.
    pub execute-Keeps :
        (cfg : LockGuardConfig) (sql : Text) (db : Option Text) (timeout : Timeout)
        → Keeps f (execute_with_lock_guard query time cfg sql db timeout)
    unfolding execute_with_lock_guard
    execute-Keeps cfg sql db timeout = go timeout.sec
      where
        go :
            (sec : Option ℕ)
            → Keeps f (
                execute_with_lock_guard query time cfg sql db
                  (record { sec = sec; source = timeout.source }))
        go none = execute_guarded-Keeps cfg sql db
        go (some zero) = execute_guarded-Keeps cfg sql db
        go (some (suc n)) = limited-Keeps cfg sql db (suc n) timeout.source
