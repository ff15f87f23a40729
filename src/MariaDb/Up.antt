-- ===== src/MariaDb/Up.antt =====
-- mariadb-adapter.js, up: runs the selected migrations in order and records each one.
pub mod Recorded
use db_migrate.Selection.{SelectError}
use db_migrate.MariaDb.{
  Result, ok, err, Error, new_error, Exec, pure, throw, ◌>>=◌, ◌>>◌, catch, resume, rescue,
}
use db_migrate.MariaDb.LockGuard.{Timeout, execute_with_lock_guard}
use db_migrate.MariaDb.Files.Sections.{has_section, extract_section}
use db_migrate.MariaDb.Files.Annotations.{resolve_statement_timeout}
use db_migrate.MariaDb.Server.{Server, Config}
use db_migrate.Base.{◌-◌, List, [], ◌∷◌, if◌then◌else◌, Text, codes, remove_first}

-- an entry of `result.errors`: of a file, or of the run before its first file
pub data RunError : Type 0 where
  of_file : Text → Error → RunError
  of_run : Error → RunError
  of_selection : SelectError → RunError

pub record UpResult : Type 0 where
  pub applied : List Text
  pub errors : List RunError

-- `file.replace('.sql', '')`
unfoldable pub file_id : Text → Text
unfolding remove_first
file_id file = remove_first (codes ".sql") file

-- what a function returns or throws without a call of the server
abbrev pub lift : {W A : Type 0} → Result A → Exec W A
lift r w = (r, w)

module _ (server : Server) (config : Config) where
  open server use {World, query, session_statement_time, insert_row, read_file, sha256}

  -- `executeWithLockGuard(sql, { database: dbName, ...this.resolveStatementTimeout(content) })`
  unfoldable pub execute_section : Text → Text → Exec World (Unit {0})
  execute_section content sql = do
    timeout ← lift (resolve_statement_timeout config.statement_timeout_sec content)
    execute_with_lock_guard query session_statement_time config.lock_guard sql config.database
        timeout

  unfoldable pub run_if_any : Text → Text → Exec World (Unit {0})
  run_if_any content [] = pure tt
  run_if_any content (c ∷ sql) = execute_section content (c ∷ sql)

  -- the section, if it holds anything, and then the changelog's row
  unfoldable pub run_and_record : Text → Text → Exec World (Unit {0})
  run_and_record file content = do
    run_if_any content (extract_section (codes "up") content)
    insert_row (file_id file) (sha256 content)

  unfoldable pub apply_content : Text → Text → Exec World (Unit {0})
  apply_content file content =
      if has_section (codes "up") content
      then run_and_record file content
      else throw (new_error (codes "no Up section"))

  -- the inner `try` of the loop
  unfoldable pub apply_file : Text → Exec World (Unit {0})
  apply_file file = do content ← lift (read_file file); apply_content file content

  -- The loop; an error ends it. A function of the files that are left, to which the caller adds
  -- those applied before.
  unfoldable pub up_step :
      Text → Result (Unit {0}) × World → (World → UpResult × World) → UpResult × World
  up_step file (ok a, w) rest =
      let out = rest w in (record out.0 { applied = file ∷ out.0.applied }, out.1)
  up_step file (err e, w) rest = (record { applied = []; errors = of_file file e ∷ [] }, w)

  unfoldable pub up_files : List Text → World → UpResult × World
  up_files [] w = (record { applied = []; errors = [] }, w)
  up_files (file ∷ files) w = up_step file (apply_file file w) (up_files files)
