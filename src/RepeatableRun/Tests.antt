-- ===== src/RepeatableRun/Tests.antt =====
-- A connection whose state is the rows of the checksum table.
use db_migrate.RepeatableStatus.{RepeatableFile, Stored, checksum_changed, stored_by}
use db_migrate.MariaDb.Files.Annotations.{is_empty}
use db_migrate.MariaDb.Files.Sections.{after_word, after_spaces}
use db_migrate.MariaDb.{ok}
use db_migrate.RepeatableRun.{
  Connection, Context, RunResult, no_result, run_mariadb, process_delimiter_sql,
  get_stored_checksums, run_files, run_step, decided_step, applied_step, apply_file, run_chunks,
  decision_on, is_current, delimiter_of,
}
use db_migrate.RepeatableRun.Current.{run_mariadb-Settled}
use db_migrate.RepeatableRun.Current.Loop.{IsChecksumTable, shown, was_skipped}
use db_migrate.Base.{
  ◌≡◌, refl, sym, ap, ◌∙◌, Bool, true, false, ◌||◌, none, some, List, [], ◌∷◌, ◌++◌, arith,
  if◌then◌else◌, All, Text, codes, text_eq, starts_with, ends_with, split_on, is_space, trim_start,
  trim,
}

abbrev row_of : Text → Text → Stored
row_of id sum = record { id = id; sum = sum; stored_content = none }

-- an upsert puts the row behind the others, where it is the one that is found
abbrev rows_connection : Connection
rows_connection = record {
  World = List Stored;
  query = λ sql w. (ok tt, w);
  create_checksum_table = λ w. (ok tt, w);
  add_content_column = λ w. (ok tt, w);
  column_names = λ w. (ok [], w);
  select_checksums = λ w. (ok w, w);
  select_without_content = λ w. (ok w, w);
  upsert_checksum = λ id sum content w. (ok tt, w ++ row_of id sum ∷ []);
  check_accounts = λ content w. (ok tt, w);
}

stored_by-snoc :
    (rows : List Stored) (id sum n : Text)
    → stored_by n (rows ++ row_of id sum ∷ [])
      ≡ (if text_eq id n then some (row_of id sum) else stored_by n rows)
unfolding stored_by
stored_by-snoc [] id sum n = refl
stored_by-snoc (r ∷ rows) id sum n = ground (arith, stored_by-snoc rows id sum n)

shown-snoc :
    (rows : List Stored) (id sum n c : Text)
    → shown (rows ++ row_of id sum ∷ []) n c
      ≡ (if text_eq id n then text_eq sum c else shown rows n c)
shown-snoc rows id sum n c =
    ap (λ o. elim o [ none ↦ false | some s ↦ text_eq s.sum c ]) (stored_by-snoc rows id sum n)
    ∙ split (text_eq id n)
  where
    split :
        (own : Bool)
        → (elim (if own then some (row_of id sum) else stored_by n rows) [
          | none ↦ false
          | some s ↦ text_eq s.sum c
        ])
          ≡ (if own then text_eq sum c else shown rows n c)
    split true = refl
    split false = refl

rows_connection-IsChecksumTable : IsChecksumTable rows_connection shown
rows_connection-IsChecksumTable = record {
  select_shows = λ w w' rows n c e.
      let same : w ≡ rows = cc in
      let world : w ≡ w' = cc in ap (λ l. shown l n c) (sym same) ∙ ap (λ l. shown l n c) world;
  upsert = λ id sum content w w' n c e.
      let same : w ++ row_of id sum ∷ [] ≡ w' = cc in
      ap (λ l. shown l n c) (sym same) ∙ shown-snoc w id sum n c;
  upsert_err = λ id sum content e w w' n c h. absurd (cc);
  query_leaves = λ sql w n c. refl;
  accounts_leave = λ content w n c. refl;
}

abbrev context : Context
context = record { validator = none; resolve_passwords = λ f. (f.content, false) }

abbrev grants : RepeatableFile
grants = record {
  file_name = codes "R__grants.sql";
  dir = codes "/dcl";
  checksum = codes "new";
  content = codes "GRANT SELECT ON a TO b;";
}

-- the table has an older checksum of the file
abbrev old_rows : List Stored
old_rows = row_of (codes "R__grants.sql") (codes "old") ∷ []

abbrev after_run : RunResult
after_run = record no_result { applied = record { file = grants; reason = checksum_changed } ∷ [] }

runs :
    run_mariadb rows_connection context (grants ∷ []) old_rows
    ≡ (ok after_run, old_rows ++ row_of (codes "R__grants.sql") (codes "new") ∷ [])
unfolding run_mariadb get_stored_checksums run_files run_step decided_step applied_step apply_file
    run_chunks decision_on is_current stored_by text_eq process_delimiter_sql trim trim_start
    is_space
runs = refl

run_mariadb-Settled_example :
    All
      (λ (f : RepeatableFile).
        (shown
            (old_rows ++ row_of (codes "R__grants.sql") (codes "new") ∷ [])
            f.file_name
            f.checksum
          || was_skipped f after_run)
        ≡ true)
      (grants ∷ [])
run_mariadb-Settled_example =
    run_mariadb-Settled rows_connection shown rows_connection-IsChecksumTable context (grants ∷ [])
      old_rows after_run (old_rows ++ row_of (codes "R__grants.sql") (codes "new") ∷ []) (tt, tt)
      runs refl

-- a procedure between two changes of the delimiter
chunks :
    process_delimiter_sql (codes "DELIMITER //\nCREATE a;\nEND//\nDELIMITER ;\nSELECT 1;")
    ≡ record { sql = codes "CREATE a;\nEND"; delimiter = codes "//" }
      ∷ record { sql = codes "SELECT 1;"; delimiter = codes ";" }
      ∷ []
unfolding process_delimiter_sql delimiter_of text_eq trim trim_start is_space ends_with starts_with
    split_on after_word after_spaces is_empty
chunks = refl
