-- ===== src/RepeatableRun/Current.antt =====
-- repeatable-runner.js, runMariaDB: what the checksum table holds after a run.
pub mod Loop
use db_migrate.RepeatableStatus.{RepeatableFile, Stored, stored_by}
use db_migrate.MariaDb.{Result, ok, ◌>>=◌, ◌>>◌}
use db_migrate.MariaDb.Actions.{>>=-eq-ok}
use db_migrate.RepeatableRun.{
  Connection, Context, RunResult, is_current, run_mariadb, get_stored_checksums, run_files,
}
use db_migrate.RepeatableRun.Current.Loop.{
  IsChecksumTable, Distinct, was_skipped, shown, run_files-Settled,
}
use db_migrate.Base.{
  ◌-◌, ◌≡◌, sym, ap, ◌∙◌, Bool, true, false, ◌||◌, List, [], ◌∷◌, All, Text, All-map,
}

module _ (connection : Connection) (holds : connection.World → Text → Text → Bool)
    (table : IsChecksumTable connection holds) (context : Context) where
  open connection use {World, create_checksum_table, add_content_column, select_checksums}

  -- rows that were read show what the table holds
  rows-shown :
      (w v : World) (rows : List Stored)
      → get_stored_checksums connection false w ≡ (ok rows, v)
      → (n c : Text) → shown rows n c ≡ holds v n c
  unfolding get_stored_checksums
  rows-shown w v rows e n c =
      let (_, u, _, e2) =
        >>=-eq-ok create_checksum_table (λ _. add_content_column >> select_checksums) w rows v e in
      let (_, u2, _, e3) = >>=-eq-ok add_content_column (λ _. select_checksums) u rows v e2 in
      table.select_shows u2 v rows n c e3

  known :
      (v : World) (rows : List Stored) (files : List RepeatableFile)
      → ((n c : Text) → shown rows n c ≡ holds v n c)
      → All (λ f. is_current rows f ≡ true → holds v f.file_name f.checksum ≡ true) files
  unfolding is_current
  known v rows [] h = tt
  known v rows (f ∷ files) h =
      (λ current. sym (h f.file_name f.checksum) ∙ current, known v rows files h)

  -- After a run of repeatable migrations that reports no error, the checksum table has for each
  -- file the checksum of its present text, or the file was skipped by validation; so the next run,
  -- which skips files whose checksum is there, has nothing to apply but what validation held back.
  -- Assumed is that no two files have one name, which listMigrationFiles sees to, that the calls of
  -- the connection do what their documentation says, and that the migrations leave the table alone.
  pub run_mariadb-Settled :
      (files : List RepeatableFile) (w : World) (r : RunResult) (w' : World)
      → Distinct files
      → run_mariadb connection context files w ≡ (ok r, w')
      → r.errors ≡ []
      → All (λ f. (holds w' f.file_name f.checksum || was_skipped f r) ≡ true) files
  unfolding run_mariadb
  run_mariadb-Settled files w r w' distinct e clean =
      let (rows, v, read, ran) =
        >>=-eq-ok (get_stored_checksums connection false)
          (λ rows u. (
            ok (run_files connection context rows files u).0,
            (run_files connection context rows files u).1,
          ))
          w r w' e in
      let same : (run_files connection context rows files v).0 ≡ r = cc in
      let world : (run_files connection context rows files v).1 ≡ w' = cc in
      let settled =
        run_files-Settled connection holds table context rows files v distinct
          (known v rows files (rows-shown w v rows read)) (ap (λ x. x.errors) same ∙ clean) in
      All-map
        (λ f h.
          ap (λ (x : World). holds x f.file_name f.checksum || was_skipped f r) (sym world)
          ∙ ap
              (λ (x : RunResult).
                holds (run_files connection context rows files v).1 f.file_name f.checksum
                || was_skipped f x)
              (sym same)
          ∙ h)
        files settled
