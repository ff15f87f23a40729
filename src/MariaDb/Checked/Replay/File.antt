-- ===== src/MariaDb/Checked/Replay/File.antt =====
-- mariadb-adapter.js, upWithSanityCheck: what the run of one file does to the changelog table.
use db_migrate.MariaDb.{Result, ok, err, new_error, Exec, pure, throw, resume}
use db_migrate.MariaDb.Keeps.{Keeps, After, Sets, After-intro, >>=-Sets}
use db_migrate.SanityChecker.{CheckResult, Outcome, run_with_sanity_check}
use db_migrate.SanityChecker.Effect.{effect, KeepsIf, Lands, run_with_sanity_check-Lands}
use db_migrate.MariaDb.Files.Sections.{has_section, extract_section}
use db_migrate.MariaDb.Server.{Server, Config, IsTable, IsApart}
use db_migrate.MariaDb.Up.{file_id, execute_section, run_and_record}
use db_migrate.MariaDb.Up.Recorded.{run-Sets, section-Keeps}
use db_migrate.MariaDb.Checks.{
  RowCheck, query_of, check_step, run_checks, checks_of, verdict_on, after_verdict,
  execute_sanity_check, extract_sanity_section,
}
use db_migrate.MariaDb.Checked.{
  Entry, undo, check_if, pre_check_of, post_check_of, checked_migration, run_checked, run_unchecked,
  run_content, run_file,
}
use db_migrate.Base.{
  ℕ, ◌≡◌, refl, ◌∙◌, Bool, true, false, ◌||◌, Option, none, some, List, [], ◌∷◌, if◌then◌else◌,
  is_some, Text, codes, text_eq, truthy,
}

module _ (server : Server) where
  -- the Down section of a file
  abbrev pub down_of : Text → Text
  down_of file = elim (server.read_file file) [
    | ok content ↦ extract_section (codes "down") content
    | err e ↦ []
  ]

  abbrev pub added : Text → Text → Bool → Bool
  added file id b = text_eq (file_id file) id || b

  -- what a rollback with this Down section takes away: nothing, if the section is empty
  abbrev pub removed : Text → Text → Text → Bool → Bool
  removed [] file id b = b
  removed (c ∷ sql) file id b = if text_eq (file_id file) id then false else b

  -- Has an id a row after what an entry tells, if `b` says whether it had one before?
  abbrev pub replay_entry : Text → Entry → Bool → Bool
  replay_entry id entry b = elim entry.outcome [
    | none ↦ added entry.file id b
    | some o ↦ effect (added entry.file id) (removed (down_of entry.file) entry.file id) o b
  ]

  abbrev pub replay : Text → List Entry → Bool → Bool
  replay id [] b = b
  replay id (entry ∷ entries) b = replay id entries (replay_entry id entry b)

module _ (server : Server) (recorded : server.World → Text → Bool) where
  -- what the run of one file does
  abbrev pub Tells : Text → Text → Text → Bool → Result (Option Outcome) × server.World → Type 0
  Tells down id file b (ok none, v) = recorded v id ≡ added server file id b
  Tells down id file b (ok (some o), v) =
      recorded v id ≡ effect (added server file id) (removed server down file id) o b
  Tells down id file b (err e, v) = recorded v id ≡ b

module _ {W : Type 0} (f : W → Bool) (rows_of : Text → Exec W ℕ)
    (rows_keep : (sql : Text) → Keeps f (rows_of sql)) where
  run_checks-Keeps : (checks : List RowCheck) (w : W) → f (run_checks rows_of checks w).1 ≡ f w
  unfolding run_checks check_step
  run_checks-Keeps [] w = refl
  run_checks-Keeps (c ∷ checks) w =
      split (rows_of (query_of c) w) (rows_keep (query_of c) w) (run_checks-Keeps checks)
    where
      judged :
          (o : Option Text) (v : W)
          → ((u : W) → f (run_checks rows_of checks u).1 ≡ f u)
          → f (after_verdict o v (run_checks rows_of checks)).1 ≡ f v
      judged none v ih = ih v
      judged (some message) v ih = refl

      split :
          (out : Result ℕ × W)
          → f out.1 ≡ f w
          → ((u : W) → f (run_checks rows_of checks u).1 ≡ f u)
          → f (check_step rows_of c out (run_checks rows_of checks)).1 ≡ f w
      split (err x, v) e ih = e
      split (ok n, v) e ih = judged (verdict_on c n) v ih ∙ e

module _ (server : Server) (config : Config) (auto_rollback : Bool)
    (race : Text → Exec server.World CheckResult → Exec server.World CheckResult)
    (rows_of : Text → Exec server.World ℕ) (recorded : server.World → Text → Bool)
    (table : IsTable server recorded) (apart : IsApart server recorded)
    (race_keeps : (id message : Text) (check : Exec server.World CheckResult)
      → Keeps (λ w. recorded w id) check
      → Keeps (λ w. recorded w id) (race message check))
    (rows_keep : (id sql : Text) → Keeps (λ w. recorded w id) (rows_of sql)) where
  open server use {World, delete_row, read_file}

  check-KeepsIf :
      (id : Text) (section : Option Text)
      → KeepsIf (λ w. recorded w id) (check_if server config auto_rollback race rows_of section)
  unfolding check_if execute_sanity_check
  check-KeepsIf id none = tt
  check-KeepsIf id (some section) =
      run_checks-Keeps (λ w. recorded w id) rows_of (rows_keep id) (checks_of section)

  undo-Sets :
      (file content sql id : Text)
      → Sets
          (λ w. recorded w id)
          (removed server sql file id)
          (undo server config auto_rollback race rows_of file content sql)
  unfolding undo
  undo-Sets file content [] id = λ w. refl
  undo-Sets file content (c ∷ sql) id =
      >>=-Sets (λ w. recorded w id) (removed server (c ∷ sql) file id)
        (execute_section server config content (c ∷ sql)) _
        (section-Keeps server config recorded table apart id content (c ∷ sql))
        λ _ w.
          After-intro (λ w. recorded w id) (removed server (c ∷ sql) file id) (recorded w id)
            (delete_row (file_id file) w) (λ w' e. table.delete (file_id file) w w' id e)
            (λ x w' e. table.delete_err (file_id file) x w w' id e)

  run_checked-Tells :
      (id file content : Text) (w : World)
      → Tells server recorded
          (extract_section (codes "down") content)
          id
          file
          (recorded w id)
          (run_checked server config auto_rollback race rows_of file content w)
  unfolding run_checked checked_migration pre_check_of post_check_of
  run_checked-Tells id file content w =
      let down = extract_section (codes "down") content in
      split
        (run_with_sanity_check race (record { enabled = true; auto_rollback = auto_rollback })
          (checked_migration server config auto_rollback race rows_of file content) w)
        (run_with_sanity_check-Lands (λ v. recorded v id) (added server file id)
          (removed server down file id) race (race_keeps id) auto_rollback
          (checked_migration server config auto_rollback race rows_of file content)
          (run-Sets server config recorded table apart id file content)
          (undo-Sets file content down id)
          (check-KeepsIf id (truthy (extract_sanity_section content (codes "postcheck"))))
          (check-KeepsIf id (truthy (extract_sanity_section content (codes "precheck")))) w)
    where
      split :
          (out : Result Outcome × World)
          → Lands
              (λ v. recorded v id)
              (added server file id)
              (removed server (extract_section (codes "down") content) file id)
              (recorded w id)
              out
          → Tells server recorded
              (extract_section (codes "down") content)
              id
              file
              (recorded w id)
              (resume (λ o. pure (some o)) out)
      split (ok o, v) e = e
      split (err x, v) e = e

  run_unchecked-Tells :
      (down id file content : Text) (w : World)
      → Tells server recorded down id file
          (recorded w id)
          (run_unchecked server config auto_rollback race rows_of file content w)
  unfolding run_unchecked
  run_unchecked-Tells down id file content w =
      split (run_and_record server config file content w)
        (run-Sets server config recorded table apart id file content w)
    where
      split :
          (out : Result (Unit {0}) × World)
          → After (λ v. recorded v id) (added server file id) (recorded w id) out
          → Tells server recorded down id file (recorded w id) (resume (λ _. pure none) out)
      split (ok _, v) e = e
      split (err x, v) e = e

  run_content-Tells :
      (id file content : Text) (w : World)
      → Tells server recorded
          (extract_section (codes "down") content)
          id
          file
          (recorded w id)
          (run_content server config auto_rollback race rows_of file content w)
  unfolding run_content
  run_content-Tells id file content w = split (has_section (codes "up") content) (
      is_some (pre_check_of server config auto_rollback race rows_of content)
      || is_some (post_check_of server config auto_rollback race rows_of content))
    where
      split :
          (up checks : Bool)
          → Tells server recorded (extract_section (codes "down") content) id file (recorded w id) (
              (if up
                  then (if checks
                      then run_checked server config auto_rollback race rows_of file content
                      else run_unchecked server config auto_rollback race rows_of file content)
                  else throw (new_error (codes "no Up section")))
                w)
      split false checks = refl
      split true true = run_checked-Tells id file content w
      split true false =
          run_unchecked-Tells (extract_section (codes "down") content) id file content w

  pub run_file-Tells :
      (id file : Text) (w : World)
      → Tells server recorded
          (down_of server file)
          id
          file
          (recorded w id)
          (run_file server config auto_rollback race rows_of file w)
  unfolding run_file
  run_file-Tells id file w = split (read_file file)
    where
      split :
          (r : Result Text)
          → Tells server recorded
              (elim r [ ok content ↦ extract_section (codes "down") content | err e ↦ [] ])
              id
              file
              (recorded w id)
              (resume (run_content server config auto_rollback race rows_of file) (r, w))
      split (ok content) = run_content-Tells id file content w
      split (err e) = refl
