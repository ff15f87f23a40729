-- ===== src/MariaDb/Run.antt =====
-- mariadb-adapter.js, up: the status, the selection of the pending files, and the run of these.
pub mod Complete
use db_migrate.Selection.{SelectOptions, SelectError, Selection, select_pending_migrations}
use db_migrate.MariaDb.{Result, ok, err}
use db_migrate.MariaDb.Server.{Server, Config}
use db_migrate.MariaDb.Status.{Status, read_status}
use db_migrate.MariaDb.Up.{RunError, of_run, of_selection, UpResult, up_files}
use db_migrate.Base.{◌-◌, Option, none, some, List, [], ◌∷◌, Text}

module _ (server : Server) (config : Config) where
  open server use {World}

  -- past the `if (selectError)`
  unfoldable pub run_selected : Option SelectError → List Text → World → UpResult × World
  run_selected (some e) selected w = (record { applied = []; errors = of_selection e ∷ [] }, w)
  run_selected none selected w = up_files server config selected w

  -- the outer `try`
  unfoldable pub run_pending : SelectOptions → Result Status × World → UpResult × World
  run_pending options (err e, w) = (record { applied = []; errors = of_run e ∷ [] }, w)
  run_pending options (ok status, w) =
      let selection = select_pending_migrations status.pending options in
      run_selected selection.error selection.selected w

  -- `up(options)`
  unfoldable pub up : SelectOptions → World → UpResult × World
  up options w = run_pending options (read_status server config w)
