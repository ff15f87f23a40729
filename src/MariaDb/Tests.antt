-- ===== src/MariaDb/Tests.antt =====
-- Runs of the engine against a server whose state is the rows of the changelog.
mod Table
use Table.*
use db_migrate.MariaDb.{ok, Exec}
use db_migrate.MariaDb.LockGuard.{unguarded, execute_guarded, execute_with_lock_guard}
use db_migrate.MariaDb.Files.Sections.{has_section, extract_section}
use db_migrate.MariaDb.Files.Annotations.{resolve_statement_timeout}
use db_migrate.MariaDb.Server.{Row, Config, by_id}
use db_migrate.MariaDb.Status.{
  Status, empty_status, read_status, migration_files, classify, verdict, compare_checksum,
  rows_without_file, add_pending, add_verdict, add_applied, add_column_if_missing, select_database,
  ensure_changelog_table, rows_to_write, read_rows, current_checksum, write_verdict, write_row,
  next, check_file, check_files, with_rows,
}
use db_migrate.MariaDb.Status.Partition.{
  has_row, has_no_row, edited, to_baseline, classify-partition,
}
use db_migrate.MariaDb.Status.Shows.{status-shows}
use db_migrate.MariaDb.Up.{
  UpResult, file_id, up_files, up_step, apply_file, apply_content, run_and_record, run_if_any,
  execute_section,
}
use db_migrate.MariaDb.Up.Recorded.{UpRan, up_files-UpRan}
use db_migrate.MariaDb.Run.{run_selected, run_pending, up}
use db_migrate.MariaDb.Run.Complete.{everything, up_complete}
use db_migrate.MariaDb.Down.{roll_back}
use db_migrate.MariaDb.Baseline.{mark_file, mark_step, mark_files, mark_all, baseline}
use db_migrate.MariaDb.Baseline.Marked.{baseline_lem}
use db_migrate.MariaDb.Down.Recorded.{RolledBack, roll_back-RolledBack}
use db_migrate.Selection.{select_pending_migrations}
use db_migrate.SanityChecker.{CheckResult}
use db_migrate.MariaDb.Checks.{execute_sanity_check, checks_of}
use db_migrate.MariaDb.Checks.Held.{AllHeld, execute-AllHeld}
use db_migrate.Base.{
  ℕ, ◌-◌, ◌*◌, ◌≡◌, refl, ap, ◌↔◌, true, false, not, none, some, List, [], ◌∷◌, filter, All, Text,
  codes, text_eq,
}

abbrev config : Config
config = record {
  database = some (codes "app");
  create_database_if_missing = false;
  repeatable = false;
  read_only = false;
  lock_guard = record {
    enabled = some false;
    lock_wait_timeout_sec = none;
    innodb_lock_wait_timeout_sec = none;
    max_retries = none;
  };
  statement_timeout_sec = none;
}

abbrev first : Text
first = codes "1_a.sql"

abbrev second : Text
second = codes "2_b.sql"

-- the first migration is applied
abbrev one_row : List Row
one_row = row_of (codes "1_a") (some (codes "sum")) ∷ []

abbrev two_rows : List Row
two_rows = row_of (codes "2_b") (some (codes "sum")) ∷ one_row

abbrev one_pending : Status
one_pending = record empty_status { pending = second ∷ []; applied = first ∷ [] }

abbrev none_pending : Status
none_pending = record empty_status { applied = first ∷ second ∷ [] }

status_of_one : read_status table_server config one_row ≡ (ok one_pending, one_row)
unfolding read_status read_rows rows_to_write ensure_changelog_table select_database
    add_column_if_missing classify check_files check_file write_row next verdict current_checksum
    write_verdict with_rows rows_without_file add_pending add_verdict add_applied compare_checksum
    by_id migration_files file_id
status_of_one = refl

status_of_two : read_status table_server config two_rows ≡ (ok none_pending, two_rows)
unfolding read_status read_rows rows_to_write ensure_changelog_table select_database
    add_column_if_missing classify check_files check_file write_row next verdict current_checksum
    write_verdict with_rows rows_without_file add_pending add_verdict add_applied compare_checksum
    by_id migration_files file_id
status_of_two = refl

run_of_second :
    up_files table_server config (second ∷ []) one_row
    ≡ (record { applied = second ∷ []; errors = [] }, two_rows)
unfolding file_id execute_section run_if_any run_and_record apply_content apply_file up_step
    up_files execute_with_lock_guard execute_guarded unguarded extract_section has_section
    resolve_statement_timeout
run_of_second = refl

up_of_one :
    up table_server config everything one_row
    ≡ (record { applied = second ∷ []; errors = [] }, two_rows)
unfolding up run_pending run_selected select_pending_migrations
up_of_one = rw status_of_one run_of_second

classify_one :
    classify table_server config one_row (first ∷ second ∷ []) one_row ≡ (ok one_pending, one_row)
unfolding read_status read_rows rows_to_write ensure_changelog_table select_database
    add_column_if_missing classify check_files check_file write_row next verdict current_checksum
    write_verdict with_rows rows_without_file add_pending add_verdict add_applied compare_checksum
    by_id migration_files file_id
classify_one = refl

classify-partition_example :
    (second ∷ [] ≡ filter (has_no_row table_server config one_row) (first ∷ second ∷ []))
    × (first ∷ [] ≡ filter (has_row table_server config one_row) (first ∷ second ∷ []))
    × (one_pending.checksum_mismatches
        ≡ filter (edited table_server config one_row) (first ∷ second ∷ []))
    × (one_pending.checksum_baselined
        ≡ filter (to_baseline table_server config one_row) (first ∷ second ∷ []))
    × ((one_pending.out_of_order_applied ≡ []) ↔ (first ∷ second ∷ [] ≡ first ∷ second ∷ []))
classify-partition_example =
    classify-partition table_server config one_row (first ∷ second ∷ []) one_pending one_row one_row
      classify_one

status-shows_example :
    (names : List Text) × (table_server.read_dir ≡ ok names)
    × (second ∷ [] ≡ filter (λ f. not (recorded one_row (file_id f))) (migration_files names))
    × (first ∷ [] ≡ filter (λ f. recorded one_row (file_id f)) (migration_files names))
    × ((id : Text) → recorded one_row id ≡ recorded one_row id)
status-shows_example =
    status-shows table_server config recorded table_server-IsTable table_server-IsSelect
      table_server-IsApart table_server-IsSetup one_pending one_row one_row refl refl status_of_one

up_files-UpRan_example :
    UpRan table_server config recorded
      (second ∷ [])
      one_row
      (up_files table_server config (second ∷ []) one_row)
up_files-UpRan_example =
    up_files-UpRan table_server config recorded table_server-IsTable table_server-IsApart
      (second ∷ []) one_row

after_up :
    read_status table_server config (up table_server config everything one_row).1
    ≡ (ok none_pending, two_rows)
after_up = rw up_of_one status_of_two

up_complete_example : none_pending.pending ≡ []
up_complete_example =
    up_complete table_server config recorded table_server-IsTable table_server-IsSelect
      table_server-IsApart table_server-IsSetup one_row two_rows none_pending refl refl
      (ap (λ (o : UpResult × List Row). o.0.errors) up_of_one) after_up

roll_back-RolledBack_example :
    RolledBack table_server config recorded second two_rows
      (roll_back table_server config second two_rows)
unfolding file_id text_eq
roll_back-RolledBack_example =
    roll_back-RolledBack table_server config recorded table_server-IsTable table_server-IsApart
      (λ id e w w' j h. absurd (cc)) second two_rows refl

marked_both : (baseline table_server config (first ∷ second ∷ []) []).0.errors ≡ []
unfolding baseline mark_all mark_files mark_step mark_file ensure_changelog_table select_database
    add_column_if_missing
marked_both = refl

baseline_lem_example :
    All
      (λ f. recorded (baseline table_server config (first ∷ second ∷ []) []).1 (file_id f) ≡ true)
      (first ∷ second ∷ [])
baseline_lem_example =
    baseline_lem table_server config recorded table_server-IsTable
      (λ id sum e w w' h d. absurd (cc)) (λ file e h. absurd (cc)) (first ∷ second ∷ []) []
      marked_both

-- every query gives one row
abbrev one_row_each : Text → Exec (List Row) ℕ
one_row_each sql w = (ok 1, w)

-- a timer that never fires
abbrev no_timer : Text → Exec (List Row) CheckResult → Exec (List Row) CheckResult
no_timer message check = check

abbrev row_check : Text
row_check = codes "SELECT 1;\n-- EXPECT_NO_ROWS: SELECT 2;"

execute-AllHeld_example :
    (r : CheckResult) × (w' : List Row) × (execute_sanity_check one_row_each row_check one_row
      ≡ (ok r, w'))
    × ((r.success ≡ true) ↔ AllHeld one_row_each (checks_of row_check) one_row w')
execute-AllHeld_example = execute-AllHeld one_row_each row_check one_row
