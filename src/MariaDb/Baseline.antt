-- ===== src/MariaDb/Baseline.antt =====
-- mariadb-adapter.js, baseline: marks files as applied without running them.
pub mod Marked
use db_migrate.MariaDb.{Result, ok, err, Error, Exec, ◌>>=◌}
use db_migrate.MariaDb.Server.{Server, Config}
use db_migrate.MariaDb.Status.{ensure_changelog_table}
use db_migrate.MariaDb.Up.{RunError, of_file, of_run, file_id, lift}
use db_migrate.Base.{◌-◌, Bool, List, [], ◌∷◌, ◌==◌, if◌then◌else◌, Text, codes, text_eq}

pub record BaselineResult : Type 0 where
  pub marked : List Text
  pub errors : List RunError

-- `error.code === 'ER_DUP_ENTRY'`
unfoldable pub is_duplicate : Error → Bool
unfolding text_eq
is_duplicate e = text_eq e.code (codes "ER_DUP_ENTRY")

module _ (server : Server) (config : Config) where
  open server use {World, insert_row, read_file, sha256}

  -- the inner `try`
  unfoldable pub mark_file : Text → Exec World (Unit {0})
  mark_file file = do content ← lift (read_file file); insert_row (file_id file) (sha256 content)

  -- one round of the loop, put before what the later rounds give
  unfoldable pub mark_step :
      Text → Result (Unit {0}) × World → (World → BaselineResult × World) → BaselineResult × World
  mark_step file (ok a, w) rest =
      let out = rest w in (record out.0 { marked = file ∷ out.0.marked }, out.1)
  mark_step file (err e, w) rest =
      let out = rest w in
      (
        if is_duplicate e then out.0 else record out.0 { errors = of_file file e ∷ out.0.errors },
        out.1,
      )

  unfoldable pub mark_files : List Text → World → BaselineResult × World
  mark_files [] w = (record { marked = []; errors = [] }, w)
  mark_files (file ∷ files) w = mark_step file (mark_file file w) (mark_files files)

  unfoldable pub mark_all : List Text → Result (Unit {0}) × World → BaselineResult × World
  mark_all files (ok a, w) = mark_files files w
  mark_all files (err e, w) = (record { marked = []; errors = of_run e ∷ [] }, w)

  -- `baseline(files)`
  unfoldable pub baseline : List Text → World → BaselineResult × World
  baseline files w = mark_all files (ensure_changelog_table server config w)
