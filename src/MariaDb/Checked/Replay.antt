-- ===== src/MariaDb/Checked/Replay.antt =====
-- mariadb-adapter.js, upWithSanityCheck: what the results of a run say about the changelog table.
mod File
use db_migrate.MariaDb.{new_error, Exec, pure, throw, resume}
use db_migrate.MariaDb.Keeps.{Keeps, After, Sets, After-intro, >>=-Sets}
use db_migrate.SanityChecker.{CheckResult, run_with_sanity_check}
use db_migrate.SanityChecker.Effect.{effect, KeepsIf, Lands, run_with_sanity_check-Lands}
use db_migrate.MariaDb.Files.Sections.{has_section, extract_section}
use db_migrate.MariaDb.Server.{Server, Config, IsTable, IsApart}
use db_migrate.MariaDb.Up.{file_id, execute_section, run_and_record}
use db_migrate.MariaDb.Up.Recorded.{run-Sets, section-Keeps}
use db_migrate.MariaDb.Checks.{
  RowCheck, query_of, check_step, run_checks, checks_of, verdict_on, after_verdict,
  execute_sanity_check, extract_sanity_section,
}
use db_migrate.MariaDb.Checked.{
  Entry, CheckedResult, passed, undo, check_if, pre_check_of, post_check_of, checked_migration,
  run_checked, run_unchecked, run_content,
}
use db_migrate.MariaDb.Checked.Replay.File.{added, removed, replay}
use db_migrate.Base.{ℕ, ◌-◌, ◌≡◌, Bool, map, filter, Text}

module _ (server : Server) (config : Config) (auto_rollback : Bool)
    (race : Text → Exec server.World CheckResult → Exec server.World CheckResult)
    (rows_of : Text → Exec server.World ℕ) (recorded : server.World → Text → Bool)
    (table : IsTable server recorded) (apart : IsApart server recorded)
    (race_keeps : (id message : Text) (check : Exec server.World CheckResult)
      → Keeps (λ w. recorded w id) check
      → Keeps (λ w. recorded w id) (race message check))
    (rows_keep : (id sql : Text) → Keeps (λ w. recorded w id) (rows_of sql)) where
  open server use {World}

  -- how a run ended: its entries, replayed, give the changelog
  pub record Replayed (w : World) (out : CheckedResult × World) : Type 0 where
    pub replays :
        (id : Text) → recorded out.1 id ≡ replay server id out.0.sanity_results (recorded w id)
    pub applied :
        out.0.applied
        ≡ map
            (λ (e : Entry). e.file)
            (filter (λ (e : Entry). passed e.outcome) out.0.sanity_results)
