-- ===== src/MongoDb/Tests.antt =====
-- Runs of the MongoDB adapter against a store whose state is the documents of the changelog.
mod Collection
use Collection.*
use db_migrate.MariaDb.{Exec, ok}
use db_migrate.MariaDb.Files.Annotations.{parse_whole_number}
use db_migrate.MariaDb.Status.{compare_checksum}
use db_migrate.SanityChecker.{CheckResult}
use db_migrate.MongoDb.{Doc, MongoConfig, doc_of}
use db_migrate.MongoDb.Annotations.{
  of_annotation, resolve_operation_timeout, parse_file_annotations, unless_zero,
  timeout_of_annotation, get_operation_timeout_ms, timeout_of_config,
}
use db_migrate.MongoDb.Annotations.Bounds.{IsLimit, resolve-IsLimit}
use db_migrate.MongoDb.Status.{
  MongoStatus, no_status, classify, js_files, docs_without_file, with_docs, check_files, check_file,
  next, write_doc, write_verdict, verdict, current_checksum, add_pending, add_applied, add_verdict,
}
use db_migrate.MongoDb.Status.Described.{described, classify-described, classify-read_only}
use db_migrate.MongoDb.Migrate.{
  load_migration, up_files, up_step, down_files, down_step, apply_one, rollback_one, run_and_insert,
  run_and_delete, run_migration_function,
}
use db_migrate.MongoDb.Migrate.Recorded.Loops.{RanDown, down_files-RanDown, down_files-up_files}
use db_migrate.MongoDb.Plan.{plan}
use db_migrate.MongoDb.Plan.Newest.{PicksNewest, plan-PicksNewest}
use db_migrate.MongoDb.Baseline.{baseline}
use db_migrate.MongoDb.Baseline.Marked.{BaselineMarks, baseline-BaselineMarks}
use db_migrate.Base.{
  ◌-◌, ◌*◌, ◌≡◌, refl, Bool, true, false, none, some, List, [], ◌∷◌, Text, codes, reverse,
}

abbrev config : Bool → MongoConfig
config read_only = record {
  repeatable = false;
  read_only = read_only;
  operation_timeout_ms = some (some 500);
  changelog_collection = codes "changelog";
  auto_rollback = true;
}

abbrev first : Text
first = codes "1_a.js"

abbrev second : Text
second = codes "2_b.js"

-- the first migration is applied
abbrev one_doc : List Doc
one_doc = doc_named first ∷ []

abbrev dir : List Text
dir = second ∷ first ∷ codes "R__v.js" ∷ []

abbrev slow : Text
slow = codes "// @operation-timeout-ms: 1500\nexport const up = 1;"

resolve-IsLimit_example :
    IsLimit (some (some 500)) slow (record { timeout_ms = some 1500; source = of_annotation })
resolve-IsLimit_example =
    unfold resolve_operation_timeout parse_file_annotations parse_whole_number timeout_of_annotation
      unless_zero in
    resolve-IsLimit (some (some 500)) slow
      (record { timeout_ms = some 1500; source = of_annotation }) refl

classify-read_only_example :
    classify collection_store (config true) dir one_doc one_doc
    ≡ (ok (described collection_store (config true) one_doc dir), one_doc)
classify-read_only_example =
    classify-read_only collection_store (config true) one_doc refl dir one_doc

down_files-RanDown_example :
    RanDown collection_store
      (config false)
      documents
      (first ∷ [])
      one_doc
      (down_files collection_store (config false) (first ∷ []) one_doc)
down_files-RanDown_example =
    down_files-RanDown collection_store (config false) documents collection_store-IsCollection
      collection_store-IsApart (first ∷ []) one_doc

baseline-BaselineMarks_example :
    BaselineMarks collection_store
      (config false)
      recorded
      collection_store-Inserts
      collection_store-IsLookup
      (first ∷ second ∷ [])
      one_doc
      (baseline collection_store (config false) (first ∷ second ∷ []) one_doc)
baseline-BaselineMarks_example =
    baseline-BaselineMarks collection_store (config false) recorded collection_store-Inserts
      collection_store-IsLookup (first ∷ second ∷ []) one_doc

-- a timer that never fires
abbrev no_timer : Text → Exec (List Doc) CheckResult → Exec (List Doc) CheckResult
no_timer message check = check

abbrev both_applied : MongoStatus
both_applied = record no_status {
  applied =
      record { file_name = first; applied_at = 7 }
      ∷ record { file_name = second; applied_at = 9 }
      ∷ [];
}

plan-PicksNewest_example :
    PicksNewest
      (first ∷ second ∷ [])
      both_applied.applied
      1
      (plan 1 none (first ∷ second ∷ []) both_applied).files
plan-PicksNewest_example = plan-PicksNewest 1 (first ∷ second ∷ []) both_applied

rolled_back :
    (down_files collection_store
      (config false)
      (reverse (up_files collection_store (config false) (second ∷ []) one_doc).0.applied)
      (up_files collection_store (config false) (second ∷ []) one_doc).1).0.errors
    ≡ []
unfolding up_files up_step apply_one run_and_insert run_migration_function down_files down_step
    rollback_one run_and_delete resolve_operation_timeout parse_file_annotations load_migration
    get_operation_timeout_ms timeout_of_config
rolled_back = refl

down_files-up_files_example :
    documents
      (down_files collection_store
        (config false)
        (reverse (up_files collection_store (config false) (second ∷ []) one_doc).0.applied)
        (up_files collection_store (config false) (second ∷ []) one_doc).1).1
      second
    ≡ documents one_doc second
down_files-up_files_example =
    down_files-up_files collection_store (config false) documents collection_store-IsCollection
      collection_store-IsApart (second ∷ []) one_doc rolled_back second

abbrev found : MongoStatus
found = record no_status {
  pending = second ∷ [];
  applied = record { file_name = first; applied_at = 7 } ∷ [];
  total = 2;
  ignored_repeatable_files = codes "R__v.js" ∷ [];
}

found_status : classify collection_store (config false) dir one_doc one_doc ≡ (ok found, one_doc)
unfolding classify js_files docs_without_file with_docs check_files check_file next write_doc
    write_verdict verdict current_checksum add_pending add_applied add_verdict compare_checksum
    doc_of
found_status = refl

classify-described_example : found ≡ described collection_store (config false) one_doc dir
classify-described_example =
    classify-described collection_store (config false) one_doc dir one_doc found one_doc
      found_status
