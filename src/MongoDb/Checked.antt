-- ===== src/MongoDb/Checked.antt =====
-- mongodb-adapter.js: upWithSanityCheck, for the pending migrations of a run.
pub mod Replay
use db_migrate.Selection.{SelectOptions, SelectError, Selection, select_pending_migrations}
use db_migrate.MariaDb.{Result, ok, err, Error, Exec, pure, ◌>>=◌, ◌>>◌, resume}
use db_migrate.SanityChecker.{CheckResult, Migration, Outcome, run_with_sanity_check}
use db_migrate.MongoDb.{Module, Store, MongoConfig}
use db_migrate.MongoDb.Status.{read_status}
use db_migrate.MongoDb.Migrate.{load_migration, apply_one, rollback_one}
use db_migrate.Base.{
  ◌-◌, Bool, true, not, ◌||◌, Option, none, some, List, [], ◌∷◌, if◌then◌else◌, is_some, Text,
}

-- an entry of `sanityResults`; without an outcome the file has no checks, and was applied
pub record Entry : Type 0 where
  pub file : Text
  pub outcome : Option Outcome

-- an entry of `errors`
pub data CheckedError : Type 0 where
  of_outcome : Text → Option Text → CheckedError
  of_throw : Text → Error → CheckedError
  of_selection : SelectError → CheckedError

pub record CheckedResult : Type 0 where
  pub applied : List Text
  pub errors : List CheckedError
  pub sanity_results : List Entry

abbrev pub nothing_done : CheckedResult
nothing_done = record { applied = []; errors = []; sanity_results = [] }

-- no outcome, or one that succeeded
unfoldable pub passed : Option Outcome → Bool
passed none = true
passed (some o) = o.success

abbrev pub error_of : Option Outcome → Option Text
error_of none = none
error_of (some o) = o.error

module _ (store : Store) (config : MongoConfig)
    (race : Text → Exec store.World CheckResult → Exec store.World CheckResult) where
  open store use {World}

  unfoldable pub checked_migration : Text → Module World → Migration World
  checked_migration file m = record {
    up = apply_one store config file;
    down = some (rollback_one store config file);
    pre_check = m.pre_check;
    post_check = m.post_check;
  }

  unfoldable pub run_checked : Text → Module World → Exec World (Option Outcome)
  run_checked file m = do
    outcome ←
        run_with_sanity_check race (record { enabled = true; auto_rollback = config.auto_rollback })
          (checked_migration file m)
    pure (some outcome)

  unfoldable pub run_unchecked : Text → Exec World (Option Outcome)
  run_unchecked file = do apply_one store config file; pure none

  -- with its module loaded
  unfoldable pub run_loaded : Text → Module World → Exec World (Option Outcome)
  run_loaded file m =
      if is_some m.pre_check || is_some m.post_check then run_checked file m else run_unchecked file

  -- the body of the loop's `try`
  unfoldable pub run_file : Text → Exec World (Option Outcome)
  run_file file = do loaded ← load_migration store config file; run_loaded file loaded.1

  -- one round of the loop, and the rounds after it
  unfoldable pub checked_step :
      Text
      → Result (Option Outcome) × World
      → (World → CheckedResult × World)
      → CheckedResult × World
  checked_step file (err e, w) rest = (record nothing_done { errors = of_throw file e ∷ [] }, w)
  checked_step file (ok o, w) rest =
      let out = rest w in
      let entry : Entry = record { file = file; outcome = o } in
      if passed o
      then (
        record out.0 {
          applied = file ∷ out.0.applied;
          sanity_results = entry ∷ out.0.sanity_results;
        },
        out.1,
      )
      else (
        record nothing_done {
          errors = of_outcome file (error_of o) ∷ [];
          sanity_results = entry ∷ [];
        },
        w,
      )

  unfoldable pub checked_files : List Text → World → CheckedResult × World
  checked_files [] w = (nothing_done, w)
  checked_files (file ∷ files) w = checked_step file (run_file file w) (checked_files files)

  unfoldable pub checked_selected : Selection → Exec World CheckedResult
  checked_selected s w = elim s.error [
    | none ↦ let out = checked_files s.selected w in (ok out.0, out.1)
    | some e ↦ (ok (record nothing_done { errors = of_selection e ∷ [] }), w)
  ]

  -- `upWithSanityCheck(options)`; an error of `status` is not caught
  unfoldable pub up_with_sanity_check : SelectOptions → Exec World CheckedResult
  unfolding select_pending_migrations
  up_with_sanity_check options = do
    status ← read_status store config
    checked_selected (select_pending_migrations status.pending options)
