-- ===== src/MariaDb/Status.antt =====
-- mariadb-adapter.js, status, with ensureChangelogTable, getMigrationFiles and, of
-- src/core/sql-columns.js, addColumnIfMissing.
pub mod Edited
pub mod Partition
pub mod Shows
use db_migrate.Selection.{is_repeatable_migration_file}
use db_migrate.MariaDb.{ok, err, new_error, Exec, pure, throw, ◌>>=◌, ◌>>◌, catch, use_database}
use db_migrate.MariaDb.Server.{Row, Server, Config, by_id}
use db_migrate.MariaDb.Up.{file_id, lift}
use db_migrate.Base.{
  ◌+◌, Bool, true, false, not, ◌&&◌, Option, none, some, List, [], ◌∷◌, ◌++◌, map, if◌then◌else◌,
  filter, Text, codes, text_eq, ends_with, contains, truthy, text_lt,
}

pub record Status : Type 0 where
  pub pending : List Text
  pub applied : List Text
  pub checksum_mismatches : List Text
  pub checksum_baselined : List Text
  pub out_of_order_applied : List Text
  pub orphaned_changelog_entries : List Text
  pub ignored_repeatable_entries : List Text

abbrev pub empty_status : Status
empty_status = record {
  pending = [];
  applied = [];
  checksum_mismatches = [];
  checksum_baselined = [];
  out_of_order_applied = [];
  orphaned_changelog_entries = [];
  ignored_repeatable_entries = [];
}

-- What the loop finds out about an applied file: nothing, that its checksum is to be baselined with
-- the current one, or that the two differ.
pub data Verdict : Type 0 where
  fine mismatch : Verdict
  baseline : Text → Verdict

-- the comparison of a row's checksum with the file's; `none` is a file that could not be read
unfoldable pub compare_checksum : Bool → Option Text → Option Text → Verdict
unfolding text_eq
compare_checksum read_only recorded none = fine
compare_checksum read_only none (some current) = if read_only then fine else baseline current
compare_checksum read_only (some sum) (some current) =
    if text_eq sum current then fine else mismatch

-- `fs.readdir` sorted and filtered
pub insert_sorted : Text → List Text → List Text
unfolding text_lt
insert_sorted f [] = f ∷ []
insert_sorted f (g ∷ fs) = if text_lt g f then g ∷ insert_sorted f fs else f ∷ g ∷ fs

-- `files.sort()`
unfoldable pub sort_files : List Text → List Text
unfolding insert_sorted
sort_files [] = []
sort_files (f ∷ fs) = insert_sorted f (sort_files fs)

unfoldable pub migration_files : List Text → List Text
unfolding ends_with is_repeatable_migration_file sort_files
migration_files files =
    sort_files
      (filter (λ f. ends_with f (codes ".sql") && not (is_repeatable_migration_file f)) files)

pub row_id : Row → Text
row_id r = r.id

-- rows with no file on disk; those of `R__` files are reported apart
unfoldable pub rows_without_file : Bool → List Text → List Row → List Text
unfolding contains is_repeatable_migration_file
rows_without_file repeatable ids rows = map row_id (
    filter
      (λ r.
        not (contains ids r.id)
        && (if repeatable
            then is_repeatable_migration_file r.id
            else not (is_repeatable_migration_file r.id)))
      rows)

-- the loop's variables
pub record Loop : Type 0 where
  pub status : Status
  pub seen_pending : Bool

unfoldable pub add_pending : Text → Loop → Loop
add_pending file l = record {
  status = record l.status { pending = l.status.pending ++ file ∷ [] };
  seen_pending = true;
}

unfoldable pub add_verdict : Text → Verdict → Status → Status
add_verdict file fine s = s
add_verdict file mismatch s = record s { checksum_mismatches = s.checksum_mismatches ++ file ∷ [] }
add_verdict file (baseline sum) s = record s {
  checksum_baselined = s.checksum_baselined ++ file ∷ [];
}

unfoldable pub add_applied : Text → Verdict → Loop → Loop
unfolding add_verdict
add_applied file v l =
    let s = add_verdict file v l.status in
    record l {
      status = record s {
        applied = s.applied ++ file ∷ [];
        out_of_order_applied =
            if l.seen_pending then s.out_of_order_applied ++ file ∷ [] else s.out_of_order_applied;
      };
    }

module _ (server : Server) (config : Config) where
  open server use {
    World, query, schema_exists, create_database, create_changelog, has_checksum_column,
    add_checksum_column, changelog_columns, select_rows, select_rows_without_checksum,
    update_checksum, read_dir, read_file, sha256,
  }

  -- `addColumnIfMissing` for the changelog's `checksum`; a column that another run has just added
  -- is no error
  unfoldable pub add_column_if_missing : Exec World (Unit {0})
  add_column_if_missing = do
    there ← has_checksum_column
    elim there [
      | true ↦ pure tt
      | false ↦
          catch add_checksum_column
            λ e. if text_eq e.code (codes "ER_DUP_FIELDNAME") then pure tt else throw e
    ]

  pub create_if_allowed : Text → Exec World (Unit {0})
  create_if_allowed db =
      if config.create_database_if_missing
      then create_database db
      else throw (new_error (codes "database no longer exists"))

  unfoldable pub select_database : Option Text → Exec World (Unit {0})
  select_database none = pure tt
  select_database (some db) = do
    there ← schema_exists db
    if there then pure tt else create_if_allowed db
    query (use_database db)

  unfoldable pub ensure_changelog_table : Exec World (Unit {0})
  ensure_changelog_table = do
    select_database (truthy config.database)
    create_changelog
    add_column_if_missing

  -- the rows, as a command that may write or one that may not reads them
  pub rows_read_only : Exec World (List Row)
  rows_read_only = do
    columns ← changelog_columns
    elim columns [
      | none ↦ pure []
      | some names ↦
          if contains names (codes "checksum") then select_rows else select_rows_without_checksum
    ]

  unfoldable pub rows_to_write : Exec World (List Row)
  rows_to_write = do ensure_changelog_table; select_rows

  unfoldable pub read_rows : Exec World (List Row)
  read_rows = if config.read_only then rows_read_only else rows_to_write

  -- the checksum of the file on disk; a file that cannot be read is passed over
  unfoldable pub current_checksum : Text → Option Text
  current_checksum file = elim (read_file file) [
    | ok content ↦ some (sha256 content)
    | err e ↦ none
  ]

  unfoldable pub verdict : Row → Text → Verdict
  verdict row file = compare_checksum config.read_only row.checksum (current_checksum file)

  unfoldable pub write_verdict : Text → Verdict → Exec World (Unit {0})
  write_verdict id fine = pure tt
  write_verdict id mismatch = pure tt
  write_verdict id (baseline sum) = update_checksum id sum

  unfoldable pub write_row : Text → Option Row → Exec World (Unit {0})
  write_row file none = pure tt
  write_row file (some row) = write_verdict (file_id file) (verdict row file)

  -- the bookkeeping of a file, without and with a row
  unfoldable pub next : Text → Option Row → Loop → Loop
  next file none l = add_pending file l
  next file (some row) l = add_applied file (verdict row file) l

  -- one round of the loop over the files
  unfoldable pub check_file : List Row → Text → Loop → Exec World Loop
  check_file rows file l =
      let row = by_id (file_id file) rows in write_row file row >> pure (next file row l)

  unfoldable pub check_files : List Row → List Text → Loop → Exec World Loop
  check_files rows [] l = pure l
  check_files rows (file ∷ files) l = check_file rows file l >>= check_files rows files

  unfoldable pub with_rows : List Text → List Row → Status
  with_rows files rows =
      let ids = map file_id files in
      record empty_status {
        orphaned_changelog_entries = rows_without_file false ids rows;
        ignored_repeatable_entries = rows_without_file true ids rows;
      }

  -- what follows the reading of the rows
  unfoldable pub classify : List Row → List Text → Exec World Status
  classify rows files = do
    l ← check_files rows files (record { status = with_rows files rows; seen_pending = false })
    pure l.status

  -- `status()`; an error is thrown on with "Failed to get status" before its message
  unfoldable pub read_status : Exec World Status
  read_status =
      if config.repeatable
      then pure empty_status
      else do rows ← read_rows; files ← lift read_dir; classify rows (migration_files files)
