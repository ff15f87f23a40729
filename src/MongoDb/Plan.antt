-- ===== src/MongoDb/Plan.antt =====
-- mongodb-adapter.js: rollbackPlan, which migrations `down` rolls back, and down with a count.
pub mod Newest
use db_migrate.Selection.{SelectError, Selection, select_pending_migrations}
use db_migrate.MariaDb.{Result, ok, err, Exec, pure, ◌>>=◌}
use db_migrate.MariaDb.Up.{of_run, lift}
use db_migrate.MariaDb.Down.{RollbackPlan, DownResult}
use db_migrate.MongoDb.{Store, MongoConfig}
use db_migrate.MongoDb.Status.{AppliedFile, MongoStatus, js_files, read_status}
use db_migrate.MongoDb.Migrate.{down_files}
use db_migrate.Base.{
  ℕ, suc, ◌-◌, Bool, false, not, ◌&&◌, ◌||◌, Option, none, some, List, [], ◌∷◌, map, ltb, leb, ◌==◌,
  if◌then◌else◌, take, filter, Text, text_eq, contains, truthy, sort_by,
}

-- `new Map(files.map((f, i) => [f, i])).get(file)`, counted from `i`
unfoldable pub order_of : Text → ℕ → List Text → Option ℕ
unfolding text_eq
order_of file i [] = none
order_of file i (f ∷ files) = elim (order_of file (suc i) files) [
  | none ↦ if text_eq f file then some i else none
  | some later ↦ some later
]

-- a file that is not on disk is not in the status, so that it is not looked up here
unfoldable pub rank : List Text → AppliedFile → ℕ
unfolding order_of
rank files a = elim (order_of a.file_name 0 files) [ none ↦ 0 | some i ↦ i ]

-- the comparison does not put `b` first
unfoldable pub not_older : List Text → AppliedFile → AppliedFile → Bool
unfolding rank
not_older files a b =
    ltb b.applied_at a.applied_at
    || a.applied_at == b.applied_at && leb (rank files b) (rank files a)

abbrev pub name_of : AppliedFile → Text
name_of a = a.file_name

-- `newestFirst`
unfoldable pub newest_first : List Text → List AppliedFile → List Text
unfolding not_older
newest_first files applied = map name_of (sort_by (not_older files) applied)

-- the files and the error, of a target or of a count
unfoldable pub planned : ℕ → Option Text → List Text → Selection
planned count none newest = record { selected = take count newest; error = none }
planned count (some target) newest =
    select_pending_migrations newest (record { target = some target; only = none })

unfoldable pub plan : ℕ → Option Text → List Text → MongoStatus → RollbackPlan
unfolding newest_first planned contains
plan count target files status =
    let selection = planned count (truthy target) (newest_first files status.applied) in
    record {
      files = selection.selected;
      error = selection.error;
      checksum_mismatches =
          filter (λ f. contains selection.selected f) (map name_of status.checksum_mismatches);
    }

module _ (store : Store) (config : MongoConfig) where
  open store use {World, read_dir}

  -- `rollbackPlan({ count, target })`
  unfoldable pub rollback_plan : ℕ → Option Text → Exec World RollbackPlan
  unfolding js_files
  rollback_plan count target = do
    status ← read_status store config
    dir ← lift read_dir
    pure (plan count target (js_files false dir) status)

  unfoldable pub down_planned : Result RollbackPlan × World → DownResult × World
  unfolding down_files
  down_planned (ok p, w) = down_files store config p.files w
  down_planned (err e, w) = (record { rolled_back = []; errors = of_run e ∷ [] }, w)

  -- `down(count)`
  unfoldable pub down : ℕ → World → DownResult × World
  down count w = down_planned (rollback_plan count none w)
