-- ===== src/MariaDb/Checked.antt =====
-- mariadb-adapter.js: upWithSanityCheck, repairChecksum and resetChangelog.
pub mod Replay
use db_migrate.Selection.{SelectOptions, SelectError, Selection, select_pending_migrations}
use db_migrate.SanityChecker.{CheckResult, Migration, Outcome, run_with_sanity_check}
use db_migrate.MariaDb.{
  Result, ok, err, Error, new_error, Exec, pure, throw, ◌>>=◌, ◌>>◌, catch, rescue, resume,
}
use db_migrate.MariaDb.Files.Sections.{has_section, extract_section}
use db_migrate.MariaDb.Server.{Server, Config}
use db_migrate.MariaDb.Up.{file_id, lift, execute_section, run_and_record}
use db_migrate.MariaDb.Status.{Status, read_status}
use db_migrate.MariaDb.Checks.{extract_sanity_section, execute_sanity_check}
use db_migrate.Base.{
  ℕ, ◌-◌, Bool, true, false, not, ◌&&◌, ◌||◌, Option, none, some, List, [], ◌∷◌, ltb, leb, ◌==◌,
  if◌then◌else◌, is_some, or_default, length, any, Text, codes, text_eq, truthy,
}

-- an entry of `sanityResults`; without an outcome the file has no checks, and was applied
pub record Entry : Type 0 where
  pub file : Text
  pub outcome : Option Outcome

-- an entry of `errors`
pub data CheckedError : Type 0 where
  of_outcome : Text → Option Text → CheckedError
  of_throw : Text → Error → CheckedError
  of_selection : SelectError → CheckedError
  of_status : Error → CheckedError

pub record CheckedResult : Type 0 where
  pub applied : List Text
  pub errors : List CheckedError
  pub sanity_results : List Entry

abbrev pub nothing_done : CheckedResult
nothing_done = record { applied = []; errors = []; sanity_results = [] }

-- no outcome, or one that succeeded
unfoldable pub passed : Option Outcome → Bool
passed none = true
passed (some o) = o.success

abbrev pub error_of : Option Outcome → Option Text
error_of none = none
error_of (some o) = o.error

-- `/^[a-zA-Z_][a-zA-Z0-9_]{0,63}$/`
is_letter : ℕ → Bool
is_letter c = leb b'a' c && leb c b'z' || leb b'A' c && leb c b'Z' || c == b'_'

unfoldable pub is_identifier : Text → Bool
unfolding is_letter
is_identifier [] = false
is_identifier (c ∷ s) =
    is_letter c
    && leb (length s) 63
    && not (any (λ d. not (is_letter d || leb b'0' d && leb d b'9')) s)

module _ (server : Server) (config : Config) (auto_rollback : Bool)
    (race : Text → Exec server.World CheckResult → Exec server.World CheckResult)
    (rows_of : Text → Exec server.World ℕ) where
  open server use {World, delete_row, update_checksum, read_file, sha256}

  -- the `down` of a checked migration: without a Down section it does nothing
  unfoldable pub undo : Text → Text → Text → Exec World (Unit {0})
  unfolding execute_section file_id
  undo file content [] = pure tt
  undo file content (c ∷ sql) = do
    execute_section server config content (c ∷ sql)
    delete_row (file_id file)

  -- a check, if the section holds anything
  unfoldable pub check_if : Option Text → Option (Exec World CheckResult)
  unfolding execute_sanity_check
  check_if none = none
  check_if (some section) = some (execute_sanity_check rows_of section)

  unfoldable pub pre_check_of : Text → Option (Exec World CheckResult)
  unfolding check_if extract_sanity_section
  pre_check_of content = check_if (truthy (extract_sanity_section content (codes "precheck")))

  unfoldable pub post_check_of : Text → Option (Exec World CheckResult)
  unfolding check_if extract_sanity_section
  post_check_of content = check_if (truthy (extract_sanity_section content (codes "postcheck")))

  unfoldable pub checked_migration : Text → Text → Migration World
  unfolding undo run_and_record extract_section pre_check_of post_check_of
  checked_migration file content = record {
    up = run_and_record server config file content;
    down = some (undo file content (extract_section (codes "down") content));
    pre_check = pre_check_of content;
    post_check = post_check_of content;
  }

  unfoldable pub run_checked : Text → Text → Exec World (Option Outcome)
  run_checked file content = do
    outcome ←
        run_with_sanity_check race (record { enabled = true; auto_rollback = auto_rollback })
          (checked_migration file content)
    pure (some outcome)

  unfoldable pub run_unchecked : Text → Text → Exec World (Option Outcome)
  run_unchecked file content = do run_and_record server config file content; pure none

  -- a file that has been read
  unfoldable pub run_content : Text → Text → Exec World (Option Outcome)
  run_content file content =
      if has_section (codes "up") content
      then (if is_some (pre_check_of content) || is_some (post_check_of content)
          then run_checked file content
          else run_unchecked file content)
      else throw (new_error (codes "no Up section"))

  -- the body of the loop's `try`
  unfoldable pub run_file : Text → Exec World (Option Outcome)
  run_file file = do content ← lift (read_file file); run_content file content

  -- one round of the loop, and the rounds after it
  unfoldable pub checked_step :
      Text
      → Result (Option Outcome) × World
      → (World → CheckedResult × World)
      → CheckedResult × World
  checked_step file (err e, w) rest = (record nothing_done { errors = of_throw file e ∷ [] }, w)
  checked_step file (ok o, w) rest =
      let out = rest w in
      let entry : Entry = record { file = file; outcome = o } in
      if passed o
      then (
        record out.0 {
          applied = file ∷ out.0.applied;
          sanity_results = entry ∷ out.0.sanity_results;
        },
        out.1,
      )
      else (
        record nothing_done {
          errors = of_outcome file (error_of o) ∷ [];
          sanity_results = entry ∷ [];
        },
        w,
      )

  unfoldable pub checked_files : List Text → World → CheckedResult × World
  checked_files [] w = (nothing_done, w)
  checked_files (file ∷ files) w = checked_step file (run_file file w) (checked_files files)

  unfoldable pub checked_selected : Selection → World → CheckedResult × World
  checked_selected s w = elim s.error [
    | none ↦ checked_files s.selected w
    | some e ↦ (record nothing_done { errors = of_selection e ∷ [] }, w)
  ]

  unfoldable pub checked_pending : SelectOptions → Result Status × World → CheckedResult × World
  unfolding select_pending_migrations
  checked_pending options (ok s, w) =
      checked_selected (select_pending_migrations s.pending options) w
  checked_pending options (err e, w) = (record nothing_done { errors = of_status e ∷ [] }, w)

  -- `upWithSanityCheck(options)`
  unfoldable pub up_with_sanity_check : SelectOptions → World → CheckedResult × World
  up_with_sanity_check options w = checked_pending options (read_status server config w)

module _ (server : Server) where
  open server use {World, update_checksum, read_file, sha256}

  -- `repairChecksum(fileName)`
  unfoldable pub repair_checksum : Text → Exec World Text
  unfolding file_id
  repair_checksum file = do
    content ← lift (read_file file)
    update_checksum (file_id file) (sha256 content)
    pure (sha256 content)

  module _ (count_rows : Text → Exec World ℕ) (delete_rows : Text → Exec World (Unit {0})) where
    -- the count, and the DELETE of a table that holds anything
    unfoldable pub count_and_delete : Bool → Text → Exec World ℕ
    count_and_delete dry_run table = do
      count ← count_rows table
      if not dry_run && ltb 0 count then delete_rows table else pure tt
      pure count

    -- a table that does not exist holds nothing
    unfoldable pub if_no_table : Error → Exec World ℕ
    unfolding text_eq
    if_no_table e = if text_eq e.code (codes "ER_NO_SUCH_TABLE") then pure 0 else throw e

    -- `resetChangelog({ dryRun, tableName })`
    unfoldable pub reset_changelog : Bool → Option Text → Text → Exec World ℕ
    unfolding is_identifier
    reset_changelog dry_run table_name changelog_table =
        let table = or_default (truthy table_name) changelog_table in
        if is_identifier table
        then catch (count_and_delete dry_run table) if_no_table
        else throw (new_error (codes "Invalid table name"))
