-- ===== src/MongoDb/Status.antt =====
-- mongodb-adapter.js: getMigrationFiles, getIgnoredRepeatableFiles, repairChecksum and status.
pub mod Described
use db_migrate.Selection.{is_repeatable_migration_file}
use db_migrate.MariaDb.{ok, err, Exec, pure, ◌>>=◌, ◌>>◌}
use db_migrate.MariaDb.Status.{Verdict, fine, mismatch, baseline, compare_checksum, sort_files}
use db_migrate.MariaDb.Up.{lift}
use db_migrate.MongoDb.{Doc, Store, MongoConfig, doc_of}
use db_migrate.Base.{
  ℕ, ◌+◌, ◌-◌, Bool, true, false, not, ◌&&◌, Option, none, some, List, [], ◌∷◌, ◌++◌, map,
  if◌then◌else◌, length, filter, Text, codes, ends_with, contains,
}

pub record AppliedFile : Type 0 where
  pub file_name : Text
  pub applied_at : ℕ

pub record MongoStatus : Type 0 where
  pub pending : List Text
  pub applied : List AppliedFile
  pub total : ℕ
  pub checksum_mismatches : List AppliedFile
  pub checksum_baselined : List Text
  pub out_of_order_applied : List Text
  pub orphaned_changelog_entries : List AppliedFile
  pub ignored_repeatable_entries : List Text
  pub ignored_repeatable_files : List Text

abbrev pub no_status : MongoStatus
no_status = record {
  pending = [];
  applied = [];
  total = 0;
  checksum_mismatches = [];
  checksum_baselined = [];
  out_of_order_applied = [];
  orphaned_changelog_entries = [];
  ignored_repeatable_entries = [];
  ignored_repeatable_files = [];
}

-- the `.js` files of the directory that are, or are not, repeatable
unfoldable pub js_files : Bool → List Text → List Text
unfolding ends_with is_repeatable_migration_file sort_files
js_files repeatable files = sort_files (
    filter
      (λ f.
        ends_with f (codes ".js")
        && (if repeatable
            then is_repeatable_migration_file f
            else not (is_repeatable_migration_file f)))
      files)

-- documents with no file on disk; those of `R__` files are reported apart
unfoldable pub docs_without_file : Bool → List Text → List Doc → List Doc
unfolding contains is_repeatable_migration_file
docs_without_file repeatable files docs =
    filter
      (λ (d : Doc).
        not (contains files d.file_name)
        && (if repeatable
            then is_repeatable_migration_file d.file_name
            else not (is_repeatable_migration_file d.file_name)))
      docs

-- the loop's variables
pub record MongoLoop : Type 0 where
  pub status : MongoStatus
  pub seen_pending : Bool

unfoldable pub add_pending : Text → MongoLoop → MongoLoop
add_pending file l = record {
  status = record l.status { pending = l.status.pending ++ file ∷ [] };
  seen_pending = true;
}

unfoldable pub add_verdict : AppliedFile → Verdict → MongoStatus → MongoStatus
add_verdict entry fine s = s
add_verdict entry mismatch s = record s {
  checksum_mismatches = s.checksum_mismatches ++ entry ∷ [];
}
add_verdict entry (baseline sum) s = record s {
  checksum_baselined = s.checksum_baselined ++ entry.file_name ∷ [];
}

unfoldable pub add_applied : Text → ℕ → Verdict → MongoLoop → MongoLoop
unfolding add_verdict
add_applied file at v l =
    let entry : AppliedFile = record { file_name = file; applied_at = at } in
    let s = add_verdict entry v l.status in
    record l {
      status = record s {
        applied = s.applied ++ entry ∷ [];
        out_of_order_applied =
            if l.seen_pending then s.out_of_order_applied ++ file ∷ [] else s.out_of_order_applied;
      };
    }

-- what is known before the loop, from the directory and the documents
unfoldable pub with_docs : List Text → List Doc → MongoStatus
unfolding js_files docs_without_file
with_docs dir docs = record no_status {
  total = length (js_files false dir);
  orphaned_changelog_entries =
      map (λ (d : Doc). record { file_name = d.file_name; applied_at = d.applied_at })
        (docs_without_file false (js_files false dir) docs);
  ignored_repeatable_entries =
      map (λ (d : Doc). d.file_name) (docs_without_file true (js_files false dir) docs);
  ignored_repeatable_files = js_files true dir;
}

module _ (store : Store) (config : MongoConfig) where
  open store use {World, find_docs, set_checksum, read_dir, read_file, sha256}

  -- `repairChecksum(fileName)`
  unfoldable pub repair_checksum : Text → Exec World Text
  repair_checksum file = do
    content ← lift (read_file file)
    set_checksum file (sha256 content)
    pure (sha256 content)

  -- the checksum of the file on disk; a file that cannot be read is passed over
  unfoldable pub current_checksum : Text → Option Text
  current_checksum file = elim (read_file file) [
    | ok content ↦ some (sha256 content)
    | err e ↦ none
  ]

  unfoldable pub verdict : Doc → Text → Verdict
  verdict doc file = compare_checksum config.read_only doc.checksum (current_checksum file)

  unfoldable pub write_verdict : Text → Verdict → Exec World (Unit {0})
  write_verdict file fine = pure tt
  write_verdict file mismatch = pure tt
  write_verdict file (baseline sum) = set_checksum file sum

  unfoldable pub write_doc : Text → Option Doc → Exec World (Unit {0})
  write_doc file none = pure tt
  write_doc file (some doc) = write_verdict file (verdict doc file)

  -- the bookkeeping of a file, without and with a document
  unfoldable pub next : Text → Option Doc → MongoLoop → MongoLoop
  next file none l = add_pending file l
  next file (some doc) l = add_applied file doc.applied_at (verdict doc file) l

  -- one round of the loop over the files
  unfoldable pub check_file : List Doc → Text → MongoLoop → Exec World MongoLoop
  check_file docs file l =
      let doc = doc_of file docs in write_doc file doc >> pure (next file doc l)

  unfoldable pub check_files : List Doc → List Text → MongoLoop → Exec World MongoLoop
  check_files docs [] l = pure l
  check_files docs (file ∷ files) l = check_file docs file l >>= check_files docs files

  unfoldable pub classify : List Text → List Doc → Exec World MongoStatus
  classify dir docs = do
    l ←
        check_files docs (js_files false dir)
          (record { status = with_docs dir docs; seen_pending = false })
    pure l.status

  -- `status()`; an error is thrown on with "Failed to get status" before its message
  unfoldable pub read_status : Exec World MongoStatus
  read_status =
      if config.repeatable
      then pure no_status
      else do dir ← lift read_dir; docs ← find_docs; classify dir docs
