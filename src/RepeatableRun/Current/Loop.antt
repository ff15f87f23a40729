-- ===== src/RepeatableRun/Current/Loop.antt =====
-- repeatable-runner.js, runMariaDB: what its loop leaves in the checksum table.
use db_migrate.RepeatableStatus.{RepeatableFile, Stored, stored_by}
use db_migrate.MariaDb.{Result, ok, err, Error, pure}
use db_migrate.MariaDb.Keeps.{Keeps, After, Sets, After-intro, >>=-Sets, >>=-Keeps, if-Keeps}
use db_migrate.RepeatableRun.{
  Chunk, Connection, Context, RunResult, SkippedFile, is_current, Decision, go, skip, stop,
  decision_on, ApprovedCode, of_file, run_chunks, apply_file, applied_step, decided_step, run_step,
  run_files, process_delimiter_sql,
}
use db_migrate.Base.{
  ◌≡◌, refl, sym, ap, ◌∙◌, inl, inr, Bool, true, false, ◌||◌, none, some, List, [], ◌∷◌, arith,
  if◌then◌else◌, Bool-cases, any, All, Text, text_eq, text_eq_iff, text_eq_refl, All-map,
}

-- The checksum that rows show for a name.
abbrev pub shown : List Stored → Text → Text → Bool
shown rows n c = elim (stored_by n rows) [ none ↦ false | some s ↦ text_eq s.sum c ]

-- What is relied on: `holds w name sum` says whether the table has this checksum for the name. An
-- upsert that succeeds sets it, and no other call changes it.
pub record IsChecksumTable (connection : Connection) (holds : connection.World → Text → Text → Bool)
    : Type 0 where
  pub upsert :
      (id sum content : Text) (w w' : connection.World) (n c : Text)
      → connection.upsert_checksum id sum content w ≡ (ok tt, w')
      → holds w' n c ≡ (if text_eq id n then text_eq sum c else holds w n c)
  pub upsert_err :
      (id sum content : Text) (e : Error) (w w' : connection.World) (n c : Text)
      → connection.upsert_checksum id sum content w ≡ (err e, w')
      → holds w' n c ≡ holds w n c
  pub select_shows :
      (w w' : connection.World) (rows : List Stored) (n c : Text)
      → connection.select_checksums w ≡ (ok rows, w')
      → shown rows n c ≡ holds w' n c
  pub query_leaves :
      (sql : Text) (w : connection.World) (n c : Text)
      → holds (connection.query sql w).1 n c ≡ holds w n c
  pub accounts_leave :
      (content : Text) (w : connection.World) (n c : Text)
      → holds (connection.check_accounts content w).1 n c ≡ holds w n c

-- no file has the name of a later one, which listMigrationFiles sees to
abbrev pub Distinct : List RepeatableFile → Type 0
Distinct [] = Unit
Distinct (f ∷ files) =
    All (λ (g : RepeatableFile). text_eq g.file_name f.file_name ≡ false) files × Distinct files

-- was the file skipped?
abbrev pub was_skipped : RepeatableFile → RunResult → Bool
was_skipped f r = any (λ (s : SkippedFile). text_eq s.file_name f.file_name) r.skipped

text_eq-false_comm : (a b : Text) → text_eq a b ≡ false → text_eq b a ≡ false
text_eq-false_comm a b h = elim (Bool-cases (text_eq b a)) [
  | inl same ↦ let mine = (text_eq_iff a b).1 (sym ((text_eq_iff b a).0 same)) in absurd (cc)
  | inr other ↦ other
]

module _ (connection : Connection) (holds : connection.World → Text → Text → Bool)
    (table : IsChecksumTable connection holds) (context : Context) (rows : List Stored) where
  open connection use {World, query, upsert_checksum, check_accounts}

  abbrev seen : Text → Text → World → Bool
  seen n c w = holds w n c

  chunks-Keeps :
      (n c : Text) (chunks : List Chunk) → Keeps (seen n c) (run_chunks connection chunks)
  unfolding run_chunks
  chunks-Keeps n c [] = λ w. refl
  chunks-Keeps n c (k ∷ chunks) =
      >>=-Keeps (seen n c) _ _
        (if-Keeps (seen n c) _ (pure tt) (query k.sql) (λ w. refl)
          (λ w. table.query_leaves k.sql w n c))
        (λ _. chunks-Keeps n c chunks)

  abbrev sets : Text → Text → RepeatableFile → Bool → Bool
  sets n c f b = if text_eq f.file_name n then text_eq f.checksum c else b

  apply-Sets :
      (n c : Text) (f : RepeatableFile)
      → Sets (seen n c) (sets n c f) (apply_file connection context f)
  unfolding apply_file
  apply-Sets n c f =
      >>=-Sets (seen n c) (sets n c f)
        (if (context.resolve_passwords f).1 then check_accounts f.content else pure tt) _
        (if-Keeps (seen n c) _ (check_accounts f.content) (pure tt)
          (λ w. table.accounts_leave f.content w n c) (λ w. refl))
        λ _.
          >>=-Sets (seen n c) (sets n c f)
            (run_chunks connection (process_delimiter_sql (context.resolve_passwords f).0)) _
            (chunks-Keeps n c (process_delimiter_sql (context.resolve_passwords f).0))
            λ _ w.
              After-intro (seen n c) (sets n c f) (holds w n c)
                (upsert_checksum f.file_name f.checksum f.content w)
                (λ w' e. table.upsert f.file_name f.checksum f.content w w' n c e)
                (λ x w' e. table.upsert_err f.file_name f.checksum f.content x w w' n c e)

  -- files of other names leave the checksum of a name
  applied-Other :
      (n c : Text) (f : RepeatableFile) (files : List RepeatableFile)
      (approvals : List ApprovedCode) (w : World) (out : Result (Unit {0}) × World)
      → text_eq f.file_name n ≡ false
      → After (seen n c) (sets n c f) (holds w n c) out
      → ((v : World) → holds (run_files connection context rows files v).1 n c ≡ holds v n c)
      → holds
          (applied_step connection rows f approvals out (run_files connection context rows files)).1
          n
          c
        ≡ holds w n c
  unfolding applied_step
  applied-Other n c f files approvals w (ok _, v) other h rest =
      rest v ∙ h ∙ ap (λ b. if b then text_eq f.checksum c else holds w n c) other
  applied-Other n c f files approvals w (err e, v) other h rest = h

  decided-Other :
      (n c : Text) (f : RepeatableFile) (files : List RepeatableFile) (d : Decision) (w : World)
      → text_eq f.file_name n ≡ false
      → ((v : World) → holds (run_files connection context rows files v).1 n c ≡ holds v n c)
      → holds
          (decided_step connection context rows f d (run_files connection context rows files) w).1
          n
          c
        ≡ holds w n c
  unfolding decided_step
  decided-Other n c f files (go approvals) w other rest =
      applied-Other n c f files approvals w (apply_file connection context f w) other
        (apply-Sets n c f w) rest
  decided-Other n c f files (skip list) w other rest = rest w
  decided-Other n c f files (stop messages) w other rest = refl

  files-Other :
      (n c : Text) (files : List RepeatableFile) (w : World)
      → All (λ (f : RepeatableFile). text_eq f.file_name n ≡ false) files
      → holds (run_files connection context rows files w).1 n c ≡ holds w n c
  unfolding run_files run_step
  files-Other n c [] w h = refl
  files-Other n c (f ∷ files) w (other, h) =
      split (is_current rows f) (λ v. files-Other n c files v h)
    where
      split :
          (current : Bool)
          → ((v : World) → holds (run_files connection context rows files v).1 n c ≡ holds v n c)
          → holds
              (if current
                then run_files connection context rows files w
                else decided_step connection context rows f
                    (decision_on context f)
                    (run_files connection context rows files)
                    w).1
              n
              c
            ≡ holds w n c
      split true rest = rest w
      split false rest = decided-Other n c f files (decision_on context f) w other rest

  abbrev Settled : RunResult × World → RepeatableFile → Type 0
  Settled out f = (holds out.1 f.file_name f.checksum || was_skipped f out.0) ≡ true

  -- a file whose row is current when its turn comes
  abbrev KnownAt : World → RepeatableFile → Type 0
  KnownAt w f = is_current rows f ≡ true → holds w f.file_name f.checksum ≡ true

  KnownAt-apply_file :
      (f : RepeatableFile) (files : List RepeatableFile) (w v : World)
      → ((n c : Text) → After (seen n c) (sets n c f) (holds w n c) (ok tt, v))
      → All (λ (g : RepeatableFile). text_eq g.file_name f.file_name ≡ false) files
      → All (KnownAt w) files
      → All (KnownAt v) files
  KnownAt-apply_file f [] w v h others known = tt
  KnownAt-apply_file f (g ∷ files) w v h (other, others) (k, known) = (
    λ current.
        h g.file_name g.checksum
        ∙ ap (λ b. if b then text_eq f.checksum g.checksum else holds w g.file_name g.checksum)
            (text_eq-false_comm g.file_name f.file_name other)
        ∙ k current,
    KnownAt-apply_file f files w v h others known,
  )

  decided-Settled :
      (f : RepeatableFile) (files : List RepeatableFile) (d : Decision) (w : World)
      → All (λ (g : RepeatableFile). text_eq g.file_name f.file_name ≡ false) files
      → All (KnownAt w) files
      → ((v : World)
          → All (KnownAt v) files
          → (run_files connection context rows files v).0.errors ≡ []
          → All (Settled (run_files connection context rows files v)) files)
      → (decided_step connection context rows f d
          (run_files connection context rows files)
          w).0.errors
        ≡ []
      → All
          (Settled
            (decided_step connection context rows f d (run_files connection context rows files) w))
          (f ∷ files)
  unfolding decided_step
  decided-Settled f files (stop messages) w others known rest clean = absurd (cc)
  decided-Settled f files (skip list) w others known rest clean = (
    ground (arith, text_eq_refl f.file_name),
    All-map (λ g h. ground (arith, h)) files (rest w known clean),
  )
  decided-Settled f files (go approvals) w others known rest clean =
      split (apply_file connection context f w) (λ n c. apply-Sets n c f w) clean
    where
      split :
          (out : Result (Unit {0}) × World)
          → ((n c : Text) → After (seen n c) (sets n c f) (holds w n c) out)
          → (applied_step connection rows f approvals out
              (run_files connection context rows files)).0.errors
            ≡ []
          → All
              (Settled (
                applied_step connection rows f approvals out
                  (run_files connection context rows files)))
              (f ∷ files)
      split (err e, v) h clean = unfold applied_step in absurd (nonempty clean)
        where
          nonempty : of_file f.file_name e ∷ [] ≡ [] → ⊥
          nonempty k = absurd (cc)
      split (ok _, v) h clean =
          unfold applied_step in
          let mine : holds (run_files connection context rows files v).1 f.file_name f.checksum
              ≡ true =
            files-Other f.file_name f.checksum files v others
            ∙ h f.file_name f.checksum
            ∙ ap (λ b. if b then text_eq f.checksum f.checksum else holds w f.file_name f.checksum)
                (text_eq_refl f.file_name)
            ∙ text_eq_refl f.checksum in
          (
            ap (λ b. b || was_skipped f (run_files connection context rows files v).0) mine,
            rest v (KnownAt-apply_file f files w v h others known) clean,
          )

  pub run_files-Settled :
      (files : List RepeatableFile) (w : World)
      → Distinct files
      → All (KnownAt w) files
      → (run_files connection context rows files w).0.errors ≡ []
      → All (Settled (run_files connection context rows files w)) files
  unfolding run_files run_step
  run_files-Settled [] w distinct known clean = tt
  run_files-Settled (f ∷ files) w (others, distinct) (k, known) clean =
      split (is_current rows f) k clean (λ v. run_files-Settled files v distinct)
    where
      split :
          (current : Bool)
          → (current ≡ true → holds w f.file_name f.checksum ≡ true)
          → (if current
              then run_files connection context rows files w
              else decided_step connection context rows f
                  (decision_on context f)
                  (run_files connection context rows files)
                  w).0.errors
            ≡ []
          → ((v : World)
              → All (KnownAt v) files
              → (run_files connection context rows files v).0.errors ≡ []
              → All (Settled (run_files connection context rows files v)) files)
          → All
              (Settled (
                if current
                then run_files connection context rows files w
                else decided_step connection context rows f
                    (decision_on context f)
                    (run_files connection context rows files)
                    w))
              (f ∷ files)
      split true k clean ih =
          let mine : holds (run_files connection context rows files w).1 f.file_name f.checksum
              ≡ true =
            files-Other f.file_name f.checksum files w others ∙ k refl in
          (
            ap (λ b. b || was_skipped f (run_files connection context rows files w).0) mine,
            ih w known clean,
          )
      split false k clean ih =
          decided-Settled f files (decision_on context f) w others known ih clean
