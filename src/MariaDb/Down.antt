-- ===== src/MariaDb/Down.antt =====
-- mariadb-adapter.js, rollbackPlan and down: which migrations are rolled back, and how.
pub mod Recorded
use db_migrate.Selection.{SelectError, Selection, select_pending_migrations}
use db_migrate.MariaDb.{Result, ok, err, new_error, Exec, pure, throw, ◌>>=◌, ◌>>◌, catch}
use db_migrate.MariaDb.Files.Sections.{extract_section}
use db_migrate.MariaDb.Server.{Server, Config}
use db_migrate.MariaDb.Status.{Status, read_status}
use db_migrate.MariaDb.Up.{RunError, of_file, of_run, file_id, lift, execute_section}
use db_migrate.Base.{
  ℕ, Option, none, some, List, [], ◌∷◌, take, filter, Text, codes, contains, reverse, truthy,
}

pub record RollbackPlan : Type 0 where
  pub files : List Text
  pub error : Option SelectError
  pub checksum_mismatches : List Text

-- the files and the error, of a target or of a count
unfoldable pub planned : ℕ → Option Text → List Text → Selection
planned count none newest_first = record { selected = take count newest_first; error = none }
planned count (some target) newest_first =
    select_pending_migrations newest_first (record { target = some target; only = none })

unfoldable pub plan : ℕ → Option Text → Status → RollbackPlan
unfolding contains
plan count target status =
    let selection = planned count (truthy target) (reverse status.applied) in
    record {
      files = selection.selected;
      error = selection.error;
      checksum_mismatches = filter (λ f. contains selection.selected f) status.checksum_mismatches;
    }

pub record DownResult : Type 0 where
  pub rolled_back : List Text
  pub errors : List RunError

module _ (server : Server) (config : Config) where
  open server use {World, query, session_statement_time, insert_ignore_row, delete_row, read_file}

  -- `rollbackPlan({ count, target })`
  pub rollback_plan : ℕ → Option Text → Exec World RollbackPlan
  rollback_plan count target = do
    status ← read_status server config
    pure (plan count target status)

  -- the Down section, after the DELETE; if it fails the row is put back, and if that fails too the
  -- first error is thrown all the same
  unfoldable pub run_down : Text → Text → Text → Exec World (Unit {0})
  run_down id content sql =
      catch (execute_section server config content sql)
        λ e. catch (insert_ignore_row id) (λ _. pure tt) >> throw e

  unfoldable pub delete_and_run : Text → Text → Text → Exec World (Unit {0})
  delete_and_run file content [] = throw (new_error (codes "no Down section"))
  delete_and_run file content (c ∷ sql) = do
    delete_row (file_id file)
    run_down (file_id file) content (c ∷ sql)

  -- the inner `try` of the loop
  unfoldable pub roll_back : Text → Exec World (Unit {0})
  roll_back file = do
    content ← lift (read_file file)
    delete_and_run file content (extract_section (codes "down") content)

  -- the loop, as in `up`
  pub down_step :
      Text → Result (Unit {0}) × World → (World → DownResult × World) → DownResult × World
  down_step file (ok a, w) rest =
      let out = rest w in (record out.0 { rolled_back = file ∷ out.0.rolled_back }, out.1)
  down_step file (err e, w) rest = (record { rolled_back = []; errors = of_file file e ∷ [] }, w)

  -- `down(files)`
  pub down_files : List Text → World → DownResult × World
  down_files [] w = (record { rolled_back = []; errors = [] }, w)
  down_files (file ∷ files) w = down_step file (roll_back file w) (down_files files)

  down_planned : Result RollbackPlan × World → DownResult × World
  down_planned (ok p, w) = down_files p.files w
  down_planned (err e, w) = (record { rolled_back = []; errors = of_run e ∷ [] }, w)

  -- `down(count)`
  pub down : ℕ → World → DownResult × World
  down count w = down_planned (rollback_plan count none w)
