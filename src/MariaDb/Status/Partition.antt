-- ===== src/MariaDb/Status/Partition.antt =====
-- mariadb-adapter.js, status: what the lists of a status are.
use db_migrate.Base.{
  ◌≡◌, refl, sym, ap, ◌∙◌, ◌↔◌, ◌⊎◌, inl, inr, Bool, true, false, not, ◌&&◌, Option, none, some,
  List, [], ◌∷◌, ◌++◌, append-nil, append_assoc, arith, if◌then◌else◌, Bool-cases, is_some, filter,
  Text,
}
use db_migrate.MariaDb.{ok, pure}
use db_migrate.MariaDb.Actions.{>>=-eq-ok}
use db_migrate.MariaDb.Server.{Row, Server, Config, by_id}
use db_migrate.MariaDb.Up.{file_id}
use db_migrate.MariaDb.Status.Edited.{
  differs, lacks, is_mismatch, is_baseline, mismatch_differs, baseline_lacks,
}
use db_migrate.MariaDb.Status.{
  current_checksum, Loop, add_pending, add_applied, add_verdict, next, check_file, check_files,
  verdict, write_row, Status, classify, with_rows,
}

module _ (server : Server) (config : Config) (rows : List Row) where
  open server use {World, read_file, sha256}

  -- Has the file a row in the changelog?
  abbrev pub has_row : Text → Bool
  has_row file = is_some (by_id (file_id file) rows)

  abbrev pub has_no_row : Text → Bool
  has_no_row file = not (has_row file)

  -- the loop without its writes
  all_files : List Text → Loop → Loop
  all_files [] l = l
  all_files (file ∷ files) l =
      all_files files (next server config file (by_id (file_id file) rows) l)

  check_files-ok :
      (files : List Text) (l l' : Loop) (w w' : World)
      → check_files server config rows files l w ≡ (ok l', w')
      → l' ≡ all_files files l
  unfolding check_files all_files check_file
  check_files-ok [] l l' w w' e = cc
  check_files-ok (file ∷ files) l l' w w' e =
      let row = by_id (file_id file) rows in
      let m = check_file server config rows file l in
      let (l1, v, first, rest) = >>=-eq-ok m (check_files server config rows files) w l' w' e in
      let (_, u, _, kept) =
        >>=-eq-ok (write_row server config file row) (λ _. pure (next server config file row l)) w
          l1 v first in
      let same : next server config file row l ≡ l1 = cc in
      check_files-ok files l1 l' v w' rest ∙ ap (all_files files) (sym same)

  -- the file was changed after it was applied
  abbrev pub edited : Text → Bool
  edited file = elim (by_id (file_id file) rows) [
    | none ↦ false
    | some row ↦ differs sha256 row.checksum (read_file file)
  ]

  -- Its row has no checksum yet, and the command may write one.
  abbrev pub to_baseline : Text → Bool
  to_baseline file = elim (by_id (file_id file) rows) [
    | none ↦ false
    | some row ↦ not config.read_only && lacks row.checksum (read_file file)
  ]

  verdict-mismatch :
      (f : Text) (row : Row)
      → is_mismatch (verdict server config row f) ≡ differs sha256 row.checksum (read_file f)
  unfolding verdict current_checksum
  verdict-mismatch f row = mismatch_differs sha256 config.read_only row.checksum (read_file f)

  verdict-baseline :
      (f : Text) (row : Row)
      → is_baseline (verdict server config row f)
        ≡ (not config.read_only && lacks row.checksum (read_file f))
  unfolding verdict current_checksum
  verdict-baseline f row = baseline_lacks sha256 config.read_only row.checksum (read_file f)

  -- the files with a row that come behind one without
  late : Bool → List Text → List Text
  late seen [] = []
  late seen (f ∷ fs) =
      if has_row f then (if seen then f ∷ late seen fs else late seen fs) else late true fs

  record Summary (files : List Text) (l l' : Loop) : Type 0 where
    pending : l'.status.pending ≡ l.status.pending ++ filter has_no_row files
    applied : l'.status.applied ≡ l.status.applied ++ filter has_row files
    mismatches : l'.status.checksum_mismatches ≡ l.status.checksum_mismatches ++ filter edited files
    baselined :
        l'.status.checksum_baselined ≡ l.status.checksum_baselined ++ filter to_baseline files
    out_of_order :
        l'.status.out_of_order_applied ≡ l.status.out_of_order_applied ++ late l.seen_pending files

  Summary-none :
      (f : Text) (fs : List Text) (l l' : Loop)
      → by_id (file_id f) rows ≡ none
      → Summary fs (add_pending f l) l'
      → Summary (f ∷ fs) l l'
  unfolding add_pending late
  Summary-none f fs l l' e h = record {
    pending =
        ground (arith, h.pending, append_assoc l.status.pending (f ∷ []) (filter has_no_row fs));
    applied = ground (arith, h.applied);
    mismatches = ground (arith, h.mismatches);
    baselined = ground (arith, h.baselined);
    out_of_order = ground (arith, h.out_of_order);
  }

  Summary-some :
      (f : Text) (fs : List Text) (l l' : Loop) (row : Row)
      → by_id (file_id f) rows ≡ some row
      → Summary fs (add_applied f (verdict server config row f) l) l'
      → Summary (f ∷ fs) l l'
  unfolding add_applied add_verdict late
  Summary-some f fs l l' row e h = record {
    pending = ground (arith, h.pending);
    applied = ground (arith, h.applied, append_assoc l.status.applied (f ∷ []) (filter has_row fs));
    mismatches = ground (
      arith,
      h.mismatches,
      verdict-mismatch f row,
      append_assoc l.status.checksum_mismatches (f ∷ []) (filter edited fs),
    );
    baselined = ground (
      arith,
      h.baselined,
      verdict-baseline f row,
      append_assoc l.status.checksum_baselined (f ∷ []) (filter to_baseline fs),
    );
    out_of_order =
        ground (
          arith,
          h.out_of_order,
          append_assoc l.status.out_of_order_applied (f ∷ []) (late true fs),
        );
  }

  all_files-Summary : (files : List Text) (l : Loop) → Summary files l (all_files files l)
  unfolding all_files
  all_files-Summary [] l =
      unfold late in
      record {
        pending = sym (append-nil _);
        applied = sym (append-nil _);
        mismatches = sym (append-nil _);
        baselined = sym (append-nil _);
        out_of_order = sym (append-nil _);
      }
  all_files-Summary (f ∷ fs) l =
      let row = by_id (file_id f) rows in
      split row refl (all_files-Summary fs (next server config f row l))
    where
      split :
          (row : Option Row)
          → by_id (file_id f) rows ≡ row
          → Summary fs (next server config f row l) (all_files fs (next server config f row l))
          → Summary (f ∷ fs) l (all_files fs (next server config f row l))
      split none e h = unfold next in Summary-none f fs l _ e h
      split (some row) e h = unfold next in Summary-some f fs l _ row e h

  none-later :
      (fs : List Text) → late true fs ≡ [] → (filter has_row fs ≡ []) × (filter has_no_row fs ≡ fs)
  unfolding late
  none-later [] h = (refl, refl)
  none-later (f ∷ fs) h = ground (arith, none-later fs)

  in_order : (fs : List Text) → late false fs ≡ [] → fs ≡ filter has_row fs ++ filter has_no_row fs
  unfolding late
  in_order [] h = refl
  in_order (f ∷ fs) h = ground (arith, in_order fs, none-later fs)

  late-seen : (fs : List Text) → late true fs ≡ filter has_row fs
  unfolding late
  late-seen [] = refl
  late-seen (f ∷ fs) = ground (arith, late-seen fs)

  filter-head :
      (fs : List Text)
      → (filter has_row fs ≡ [])
        ⊎ ((g : Text) × (gs : List Text) × (filter has_row fs ≡ g ∷ gs) × (has_row g ≡ true))
  filter-head [] = inl refl
  filter-head (f ∷ fs) = elim (Bool-cases (has_row f)) [
    | inl has ↦ inr (f, filter has_row fs, ground arith, has)
    | inr lacks ↦ elim (filter-head fs) [
      | inl e ↦ inl (ground (arith, e))
      | inr (g, gs, e, has) ↦ inr (g, gs, ground (arith, e), has)
    ]
  ]

  none-late : (fs : List Text) → fs ≡ filter has_row fs ++ filter has_no_row fs → late false fs ≡ []
  unfolding late
  none-late [] h = refl
  none-late (f ∷ fs) h = elim (Bool-cases (has_row f)) [
    | inl has ↦ ground (arith, none-late fs)
    | inr lacks ↦ elim (filter-head fs) [
      | inl e ↦ ground (arith, e, late-seen fs)
      | inr (g, gs, e, has) ↦ absurd (ground arith)
    ]
  ]

  -- A status that is computed lists as pending the files with no row in the changelog, as applied
  -- those with one, as changed those of them whose row has a checksum that is not the hash of the
  -- file's text, and as baselined, unless the command is read-only, those whose row has none, where
  -- the file can be read; all in the order of the files. It lists no file as applied out of order
  -- exactly when the applied files come before the pending ones.
  pub classify-partition :
      (files : List Text) (st : Status) (w w' : World)
      → classify server config rows files w ≡ (ok st, w')
      → (st.pending ≡ filter has_no_row files)
        × (st.applied ≡ filter has_row files)
        × (st.checksum_mismatches ≡ filter edited files)
        × (st.checksum_baselined ≡ filter to_baseline files)
        × ((st.out_of_order_applied ≡ []) ↔ (files ≡ st.applied ++ st.pending))
  unfolding classify with_rows
  classify-partition files st w w' e =
      let start : Loop = record {
        status = with_rows server config files rows;
        seen_pending = false;
      } in
      let (l, v, run, ended) =
        >>=-eq-ok (check_files server config rows files start) (λ l. pure l.status) w st w' e in
      let s = all_files-Summary files start in
      let same = check_files-ok files start l w v run in
      let is : st ≡ (all_files files start).status =
        sym (ap (λ (l : Loop). l.status) (sym same) ∙ cc) in
      let p = ap (λ (s : Status). s.pending) is ∙ s.pending in
      let a = ap (λ (s : Status). s.applied) is ∙ s.applied in
      let o = ap (λ (s : Status). s.out_of_order_applied) is ∙ s.out_of_order in
      (
        p,
        a,
        ap (λ (s : Status). s.checksum_mismatches) is ∙ s.mismatches,
        ap (λ (s : Status). s.checksum_baselined) is ∙ s.baselined,
        (
          λ h. rw (p, a) (in_order files (sym o ∙ h)),
          λ h.
              o
              ∙ none-late files
                  (h ∙ ap (λ l. l ++ st.pending) a ∙ ap (λ l. filter has_row files ++ l) p),
        ),
      )
