-- ===== src/MariaDb/Baseline/Marked.antt =====
-- mariadb-adapter.js, baseline: which files have a row afterwards.
use db_migrate.MariaDb.{Result, ok, err, Error, resume}
use db_migrate.MariaDb.Keeps.{After, After-intro, >>=-Sets}
use db_migrate.MariaDb.Status.{ensure_changelog_table}
use db_migrate.MariaDb.Server.{Server, Config, IsTable}
use db_migrate.MariaDb.Up.{of_file, file_id, lift}
use db_migrate.MariaDb.Baseline.{
  BaselineResult, is_duplicate, mark_file, mark_step, mark_files, mark_all, baseline,
}
use db_migrate.Base.{
  ◌≡◌, refl, Bool, true, false, ◌||◌, List, [], ◌∷◌, arith, if◌then◌else◌, any, All, Text, text_eq,
  text_eq_refl,
}

module _ (server : Server) (config : Config) (recorded : server.World → Text → Bool)
    (table : IsTable server recorded)
    (duplicate : (id sum : Text) (e : Error) (w w' : server.World)
      → server.insert_row id sum w ≡ (err e, w')
      → is_duplicate e ≡ true
      → recorded w id ≡ true)
    (unreadable : (file : Text) (e : Error)
      → server.read_file file ≡ err e
      → is_duplicate e ≡ false) where
  open server use {World, insert_row, read_file, sha256}

  -- Each file has a row if there is no error.
  record Marks (files : List Text) (w : World) (out : BaselineResult × World) : Type 0 where
    records :
        (id : Text)
        → recorded out.1 id ≡ (any (λ f. text_eq (file_id f) id) out.0.marked || recorded w id)
    complete : out.0.errors ≡ [] → All (λ f. recorded out.1 (file_id f) ≡ true) files

  mark_file-After :
      (file : Text) (w : World) (id : Text)
      → After
          (λ v. recorded v id)
          (λ b. text_eq (file_id file) id || b)
          (recorded w id)
          (mark_file server config file w)
  unfolding mark_file
  mark_file-After file w id =
      >>=-Sets (λ v. recorded v id) (λ b. text_eq (file_id file) id || b) (lift (read_file file)) _
        (λ v. refl)
        (λ content v.
          After-intro (λ v. recorded v id) (λ b. text_eq (file_id file) id || b) (recorded v id)
            (insert_row (file_id file) (sha256 content) v)
            (λ w' e. table.insert (file_id file) (sha256 content) v w' id e)
            (λ x w' e. table.insert_err (file_id file) (sha256 content) x v w' id e))
        w

  mark_file-duplicate :
      (file : Text) (w : World) (e : Error) (v : World)
      → mark_file server config file w ≡ (err e, v)
      → is_duplicate e ≡ true
      → recorded w (file_id file) ≡ true
  unfolding mark_file
  mark_file-duplicate file w e v h d = go (read_file file) refl h
    where
      go :
          (r : Result Text)
          → read_file file ≡ r
          → resume (λ content. insert_row (file_id file) (sha256 content)) (r, w) ≡ (err e, v)
          → recorded w (file_id file) ≡ true
      go (ok content) read h = duplicate (file_id file) (sha256 content) e w v h d
      go (err x) read h = let same : x ≡ e = cc in absurd (let no = unreadable file x read in cc)

  step-Marks :
      (file : Text) (files : List Text) (w : World) (out : Result (Unit {0}) × World)
      → ((id : Text)
          → After (λ v. recorded v id) (λ b. text_eq (file_id file) id || b) (recorded w id) out)
      → ((e : Error) (v : World)
          → out ≡ (err e, v)
          → is_duplicate e ≡ true
          → recorded w (file_id file) ≡ true)
      → ((v : World) → Marks files v (mark_files server config files v))
      → Marks (file ∷ files) w (mark_step server config file out (mark_files server config files))
  unfolding mark_step
  step-Marks file files w (ok tt, v) h dup rest =
      let r = rest v in
      record {
        records = λ id. ground (arith, r.records id, h id);
        complete = λ clean. (
          ground (arith, r.records (file_id file), h (file_id file), text_eq_refl (file_id file)),
          r.complete clean,
        );
      }
  step-Marks file files w (err e, v) h dup rest = go (is_duplicate e) refl
    where
      go :
          (b : Bool)
          → is_duplicate e ≡ b
          → Marks (file ∷ files) w (
            if b
                then (mark_files server config files v).0
                else record (mark_files server config files v).0 {
                  errors = of_file file e ∷ (mark_files server config files v).0.errors;
                },
            (mark_files server config files v).1,
          )
      go true d =
          let r = rest v in
          record {
            records = λ id. ground (arith, r.records id, h id);
            complete = λ clean. (
              ground (arith, r.records (file_id file), h (file_id file), dup e v refl d),
              r.complete clean,
            );
          }
      go false d =
          let r = rest v in
          record {
            records = λ id. ground (arith, r.records id, h id);
            complete = λ clean. absurd (cc);
          }

  mark_files-Marks :
      (files : List Text) (w : World) → Marks files w (mark_files server config files w)
  unfolding mark_files
  mark_files-Marks [] w = record { records = λ id. refl; complete = λ clean. tt }
  mark_files-Marks (file ∷ files) w =
      step-Marks file files w (mark_file server config file w) (mark_file-After file w)
        (mark_file-duplicate file w) (mark_files-Marks files)

  -- After a baseline that reported no error, every file that it was given has a row in the
  -- changelog table, those included whose row was there before. Assumed is that an INSERT fails
  -- with ER_DUP_ENTRY only if the id has a row, that no error of reading a file has that code, and
  -- that the server's statements do what their documentation says.
  pub baseline_lem :
      (files : List Text) (w : World)
      → (baseline server config files w).0.errors ≡ []
      → All (λ f. recorded (baseline server config files w).1 (file_id f) ≡ true) files
  unfolding baseline mark_all
  baseline_lem files w clean = go (ensure_changelog_table server config w) clean
    where
      go :
          (out : Result (Unit {0}) × World)
          → (mark_all server config files out).0.errors ≡ []
          → All (λ f. recorded (mark_all server config files out).1 (file_id f) ≡ true) files
      go (ok tt, v) none_failed = (mark_files-Marks files v).complete none_failed
      go (err e, v) none_failed = absurd (cc)
