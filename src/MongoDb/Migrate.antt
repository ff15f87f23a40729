-- ===== src/MongoDb/Migrate.antt =====
-- mongodb-adapter.js: _runMigrationFunction, _applyOne, _rollbackOne, and the loops of up and down;
-- baseline and resetChangelog.
pub mod Recorded
use db_migrate.Selection.{SelectOptions, Selection, select_pending_migrations}
use db_migrate.MariaDb.{
  Result, ok, err, Error, new_error, add_note, Note, ran_longer, Exec, pure, throw, ◌>>=◌, ◌>>◌,
  catch, resume, rescue,
}
use db_migrate.MariaDb.Up.{RunError, of_file, of_run, of_selection, UpResult, lift}
use db_migrate.MariaDb.Down.{DownResult}
use db_migrate.MongoDb.{Doc, Module, Store, MongoConfig}
use db_migrate.MongoDb.Annotations.{
  OperationTimeout, TimeoutSource, of_annotation, of_config, resolve_operation_timeout,
}
use db_migrate.MongoDb.Status.{MongoStatus, read_status}
use db_migrate.Base.{
  ℕ, ◌+◌, ◌-◌, Bool, true, false, ◌||◌, Option, none, some, List, [], ◌∷◌, ◌++◌, ◌==◌,
  if◌then◌else◌, Text, codes, text_eq,
}

module _ (store : Store) (config : MongoConfig) where
  open store use {
    World, find_doc, insert_doc, delete_doc, count_docs, delete_docs, load_module,
    is_operation_timeout, read_file, sha256,
  }

  -- `_loadMigration(fileName)`
  unfoldable pub load_migration : Text → Exec World (Text × Module World)
  load_migration file = do
    content ← lift (read_file file)
    loaded ← load_module file
    pure (content, loaded)

  -- the driver's error for an operation that ran over its limit
  unfoldable pub is_timeout : Error → Bool
  unfolding text_eq
  is_timeout e =
      is_operation_timeout e || e.errno == 50 || text_eq e.code (codes "MaxTimeMSExpired")

  -- what `_runMigrationFunction` throws in its `catch`
  unfoldable pub explain : OperationTimeout → Error → Error
  explain t e = elim t.timeout_ms [
    | none ↦ e
    | some limit ↦
        if is_timeout e
        then record (new_error e.message) {
          notes =
              e.notes
              ++ ran_longer (elim t.source [ of_annotation ↦ true | of_config ↦ false ]) limit ∷ [];
        }
        else e
  ]

  -- `_runMigrationFunction(fn, content)`
  unfoldable pub run_migration_function :
      (Option ℕ → Exec World (Unit {0})) → Text → Exec World (Unit {0})
  run_migration_function fn content = do
    t ← lift (resolve_operation_timeout config.operation_timeout_ms content)
    catch (fn t.timeout_ms) λ e. throw (explain t e)

  unfoldable pub run_and_insert : Text → Text → Module World → Exec World (Unit {0})
  run_and_insert file content m = elim m.up [
    | none ↦ throw (new_error (codes "Migration must export an \"up\" function"))
    | some up ↦ do run_migration_function up content; insert_doc file (sha256 content)
  ]

  -- `_applyOne(fileName)`
  unfoldable pub apply_one : Text → Exec World (Unit {0})
  apply_one file = do loaded ← load_migration file; run_and_insert file loaded.0 loaded.1

  unfoldable pub run_and_delete : Text → Text → Module World → Exec World (Unit {0})
  run_and_delete file content m = elim m.down [
    | none ↦ throw (new_error (codes "Migration must export a \"down\" function"))
    | some down ↦ do run_migration_function down content; delete_doc file
  ]

  -- `_rollbackOne(fileName)`
  unfoldable pub rollback_one : Text → Exec World (Unit {0})
  rollback_one file = do loaded ← load_migration file; run_and_delete file loaded.0 loaded.1

  -- The loop of `up`; an error ends it. A function of the files that are left, to which the caller
  -- adds those applied before.
  unfoldable pub up_step :
      Text → Result (Unit {0}) × World → (World → UpResult × World) → UpResult × World
  up_step file (ok a, w) rest =
      let out = rest w in (record out.0 { applied = file ∷ out.0.applied }, out.1)
  up_step file (err e, w) rest = (record { applied = []; errors = of_file file e ∷ [] }, w)

  unfoldable pub up_files : List Text → World → UpResult × World
  up_files [] w = (record { applied = []; errors = [] }, w)
  up_files (file ∷ files) w = up_step file (apply_one file w) (up_files files)

  unfoldable pub up_selected : Selection → World → UpResult × World
  up_selected s w = elim s.error [
    | none ↦ up_files s.selected w
    | some e ↦ (record { applied = []; errors = of_selection e ∷ [] }, w)
  ]

  unfoldable pub up_pending : SelectOptions → Result MongoStatus × World → UpResult × World
  unfolding select_pending_migrations
  up_pending options (ok s, w) = up_selected (select_pending_migrations s.pending options) w
  up_pending options (err e, w) = (record { applied = []; errors = of_run e ∷ [] }, w)

  -- `up(options)`
  unfoldable pub up : SelectOptions → World → UpResult × World
  up options w = up_pending options (read_status store config w)

  -- the loop of `down`
  unfoldable pub down_step :
      Text → Result (Unit {0}) × World → (World → DownResult × World) → DownResult × World
  down_step file (ok a, w) rest =
      let out = rest w in (record out.0 { rolled_back = file ∷ out.0.rolled_back }, out.1)
  down_step file (err e, w) rest = (record { rolled_back = []; errors = of_file file e ∷ [] }, w)

  -- `down(files)`
  unfoldable pub down_files : List Text → World → DownResult × World
  down_files [] w = (record { rolled_back = []; errors = [] }, w)
  down_files (file ∷ files) w = down_step file (rollback_one file w) (down_files files)
