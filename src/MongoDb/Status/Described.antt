-- ===== src/MongoDb/Status/Described.antt =====
-- mongodb-adapter.js, status: the loop over the files against a description of each list.
use db_migrate.Selection.{is_repeatable_migration_file}
use db_migrate.MariaDb.Status.{fine, mismatch, compare_checksum, sort_files}
use db_migrate.MariaDb.Status.Edited.{
  differs, lacks, is_mismatch, is_baseline, mismatch_differs, baseline_lacks,
}
use db_migrate.MariaDb.{ok, pure}
use db_migrate.MariaDb.Actions.{>>=-eq-ok}
use db_migrate.MongoDb.{Doc, Store, MongoConfig, doc_of}
use db_migrate.MongoDb.Status.{
  AppliedFile, MongoStatus, MongoLoop, js_files, add_pending, add_verdict, add_applied, verdict,
  write_verdict, write_doc, next, docs_without_file, check_file, check_files, with_docs, classify,
  current_checksum,
}
use db_migrate.Base.{
  ◌≡◌, refl, sym, ap, ◌∙◌, Bool, true, false, not, ◌&&◌, Option, none, some, List, [], ◌∷◌, ◌++◌,
  map, append-nil, append_assoc, arith, if◌then◌else◌, is_some, length, filter, Text, codes,
  text_eq, ends_with, contains,
}

-- a repeatable migration, or one that is not
abbrev pub is_kind : Bool → Text → Bool
is_kind true file = is_repeatable_migration_file file
is_kind false file = not (is_repeatable_migration_file file)

module _ (store : Store) (config : MongoConfig) (docs : List Doc) where
  open store use {World, read_file, sha256}

  -- Has the file a document in the changelog?
  abbrev pub has_doc : Text → Bool
  has_doc file = is_some (doc_of file docs)

  abbrev pub has_no_doc : Text → Bool
  has_no_doc file = not (has_doc file)

  -- its document has a checksum that is not the hash of its text
  abbrev pub is_edited : Text → Bool
  is_edited file = elim (doc_of file docs) [
    | none ↦ false
    | some doc ↦ differs sha256 doc.checksum (read_file file)
  ]

  -- its document has no checksum, and the command may write one
  abbrev pub is_baselined : Text → Bool
  is_baselined file = elim (doc_of file docs) [
    | none ↦ false
    | some doc ↦ not config.read_only && lacks doc.checksum (read_file file)
  ]

  verdict-mismatch :
      (f : Text) (doc : Doc)
      → is_mismatch (verdict store config doc f) ≡ differs sha256 doc.checksum (read_file f)
  unfolding verdict current_checksum
  verdict-mismatch f doc = mismatch_differs sha256 config.read_only doc.checksum (read_file f)

  verdict-baseline :
      (f : Text) (doc : Doc)
      → is_baseline (verdict store config doc f)
        ≡ (not config.read_only && lacks doc.checksum (read_file f))
  unfolding verdict current_checksum
  verdict-baseline f doc = baseline_lacks sha256 config.read_only doc.checksum (read_file f)

  abbrev pub entry : Text → AppliedFile
  entry file = record {
    file_name = file;
    applied_at = elim (doc_of file docs) [ none ↦ 0 | some doc ↦ doc.applied_at ];
  }

  -- the files behind the first that has no document
  abbrev pub behind : List Text → List Text
  behind [] = []
  behind (f ∷ fs) = let rest = behind fs in if has_doc f then rest else fs

  -- the migrations of a directory that are repeatable, or are not, sorted by name
  abbrev pub files_of : Bool → List Text → List Text
  files_of repeatable dir =
      sort_files (filter (λ f. ends_with f (codes ".js") && is_kind repeatable f) dir)

  -- the documents of no file in the directory, for repeatable migrations or the others
  abbrev pub orphans : Bool → List Text → List Doc
  orphans repeatable dir =
      filter
        (λ (d : Doc).
          not (contains (files_of false dir) d.file_name) && is_kind repeatable d.file_name)
        docs

  -- the status by filters instead of a loop
  abbrev pub described : List Text → MongoStatus
  described dir =
      let files = files_of false dir in
      record {
        pending = filter has_no_doc files;
        applied = map entry (filter has_doc files);
        total = length files;
        checksum_mismatches = map entry (filter is_edited files);
        checksum_baselined = filter is_baselined files;
        out_of_order_applied = filter has_doc (behind files);
        orphaned_changelog_entries =
            map (λ (d : Doc). record { file_name = d.file_name; applied_at = d.applied_at })
              (orphans false dir);
        ignored_repeatable_entries = map (λ (d : Doc). d.file_name) (orphans true dir);
        ignored_repeatable_files = files_of true dir;
      }

  -- what the rest of the loop adds
  abbrev added : List Text → MongoLoop → MongoStatus
  added files l = record l.status {
    pending = l.status.pending ++ filter has_no_doc files;
    applied = l.status.applied ++ map entry (filter has_doc files);
    checksum_mismatches = l.status.checksum_mismatches ++ map entry (filter is_edited files);
    checksum_baselined = l.status.checksum_baselined ++ filter is_baselined files;
    out_of_order_applied =
        l.status.out_of_order_applied
        ++ filter has_doc (if l.seen_pending then files else behind files);
  }

  -- the loop without its writes
  all_files : List Text → MongoLoop → MongoLoop
  all_files [] l = l
  all_files (file ∷ files) l = all_files files (next store config file (doc_of file docs) l)

  added-nil : (l : MongoLoop) → added [] l ≡ l.status
  added-nil l = go l.seen_pending
    where
      go :
          (b : Bool)
          → record l.status {
            pending = l.status.pending ++ [];
            applied = l.status.applied ++ [];
            checksum_mismatches = l.status.checksum_mismatches ++ [];
            checksum_baselined = l.status.checksum_baselined ++ [];
            out_of_order_applied =
                l.status.out_of_order_applied ++ filter has_doc (if b then [] else []);
          }
            ≡ l.status
      go true = simp (append-nil)
      go false = simp (append-nil)

  added-pending :
      (f : Text) (fs : List Text) (l : MongoLoop)
      → doc_of f docs ≡ none
      → added fs (add_pending f l) ≡ added (f ∷ fs) l
  unfolding add_pending
  added-pending f fs l e =
      ground (arith, e, append_assoc l.status.pending (f ∷ []) (filter has_no_doc fs))

  added-applied :
      (f : Text) (fs : List Text) (l : MongoLoop) (doc : Doc)
      → doc_of f docs ≡ some doc
      → added fs (add_applied f doc.applied_at (verdict store config doc f) l) ≡ added (f ∷ fs) l
  unfolding add_applied add_verdict
  added-applied f fs l doc e = ground (
    arith,
    e,
    verdict-mismatch f doc,
    verdict-baseline f doc,
    append_assoc l.status.applied (entry f ∷ []) (map entry (filter has_doc fs)),
    append_assoc l.status.checksum_mismatches (entry f ∷ []) (map entry (filter is_edited fs)),
    append_assoc l.status.checksum_baselined (f ∷ []) (filter is_baselined fs),
    append_assoc l.status.out_of_order_applied (f ∷ []) (filter has_doc fs),
    append_assoc l.status.out_of_order_applied (f ∷ []) (filter has_doc (behind fs)),
  )

  all_files-added : (files : List Text) (l : MongoLoop) → (all_files files l).status ≡ added files l
  unfolding all_files
  all_files-added [] l = sym (added-nil l)
  all_files-added (f ∷ fs) l =
      go (doc_of f docs) refl (all_files-added fs (next store config f (doc_of f docs) l))
    where
      go :
          (doc : Option Doc)
          → doc_of f docs ≡ doc
          → (all_files fs (next store config f doc l)).status ≡ added fs (next store config f doc l)
          → (all_files fs (next store config f doc l)).status ≡ added (f ∷ fs) l
      go none e ih = unfold next in ih ∙ added-pending f fs l e
      go (some doc) e ih = unfold next in ih ∙ added-applied f fs l doc e

  check_files-ok :
      (files : List Text) (l l' : MongoLoop) (w w' : World)
      → check_files store config docs files l w ≡ (ok l', w')
      → l' ≡ all_files files l
  unfolding check_files all_files check_file
  check_files-ok [] l l' w w' e = cc
  check_files-ok (file ∷ files) l l' w w' e =
      let doc = doc_of file docs in
      let m = check_file store config docs file l in
      let (l1, v, first, rest) = >>=-eq-ok m (check_files store config docs files) w l' w' e in
      let (_, u, _, kept) =
        >>=-eq-ok (write_doc store config file doc) (λ _. pure (next store config file doc l)) w l1
          v first in
      let same : next store config file doc l ≡ l1 = cc in
      check_files-ok files l1 l' v w' rest ∙ ap (all_files files) (sym same)

  -- a read-only command finds nothing to baseline
  compare-writes_nothing :
      (file : Text) (recorded current : Option Text) (w : World)
      → write_verdict store config file (compare_checksum true recorded current) w ≡ (ok tt, w)
  unfolding write_verdict compare_checksum
  compare-writes_nothing file none none w = refl
  compare-writes_nothing file (some sum) none w = refl
  compare-writes_nothing file none (some now) w = refl
  compare-writes_nothing file (some sum) (some now) w = go (text_eq sum now)
    where
      go :
          (b : Bool) → write_verdict store config file (if b then fine else mismatch) w ≡ (ok tt, w)
      go true = refl
      go false = refl

  read_only-writes_nothing :
      config.read_only ≡ true
      → (file : Text) (doc : Option Doc) (w : World)
      → write_doc store config file doc w ≡ (ok tt, w)
  unfolding write_doc verdict
  read_only-writes_nothing ro file none w = refl
  read_only-writes_nothing ro file (some doc) w =
      let sum = current_checksum store config file in
      ap (λ b. write_verdict store config file (compare_checksum b doc.checksum sum) w) ro
      ∙ compare-writes_nothing file doc.checksum sum w

  read_only-check_files :
      config.read_only ≡ true
      → (files : List Text) (l : MongoLoop) (w : World)
      → check_files store config docs files l w ≡ (ok (all_files files l), w)
  unfolding check_files all_files check_file
  read_only-check_files ro [] l w = refl
  read_only-check_files ro (file ∷ files) l w =
      rw (read_only-writes_nothing ro file (doc_of file docs) w)
        (read_only-check_files ro files (next store config file (doc_of file docs) l) w)

  -- A status that is computed is the one that filters describe: pending are the files with no
  -- document, applied those with one and the time in it, edited those whose document has a checksum
  -- that is not the hash of the file's text, baselined, unless the command is read-only, those whose
  -- document has none, where the file can be read, out of order those with a document behind one
  -- without, all in the order of the files. The documents that no file of the directory has are
  -- orphaned, or ignored if they are named like a repeatable migration.
  pub classify-described :
      (dir : List Text) (w : World) (s : MongoStatus) (w' : World)
      → classify store config dir docs w ≡ (ok s, w')
      → s ≡ described dir
  unfolding classify js_files docs_without_file with_docs
  classify-described dir w s w' e =
      let start : MongoLoop = record { status = with_docs dir docs; seen_pending = false } in
      let files = files_of false dir in
      let (l, v, done, last) =
        >>=-eq-ok (check_files store config docs files start) (λ l. pure l.status) w s w' e in
      let same : l.status ≡ s = cc in
      sym same
      ∙ ap (λ k. k.status) (check_files-ok files start l w v done)
      ∙ all_files-added files start

  -- A read-only command computes the described status whatever the checksums are, and leaves the
  -- database as it is.
  pub classify-read_only :
      config.read_only ≡ true
      → (dir : List Text) (w : World) → classify store config dir docs w ≡ (ok (described dir), w)
  unfolding classify js_files docs_without_file with_docs
  classify-read_only ro dir w =
      let start : MongoLoop = record { status = with_docs dir docs; seen_pending = false } in
      let files = files_of false dir in
      rw (read_only-check_files ro files start w)
        (ap (λ s. (ok s, w)) (all_files-added files start))
