-- ===== src/MongoDb/Baseline.antt =====
-- mongodb-adapter.js: baseline and resetChangelog.
pub mod Marked
use db_migrate.MariaDb.{Result, ok, err, Exec, pure, ◌>>=◌, ◌>>◌, resume}
use db_migrate.MariaDb.Up.{RunError, of_file, lift}
use db_migrate.MongoDb.{Doc, Store, MongoConfig}
use db_migrate.Base.{
  ℕ, ◌-◌, Bool, true, false, not, ◌&&◌, Option, none, some, List, [], ◌∷◌, ltb, if◌then◌else◌,
  or_default, Text, truthy,
}

pub record BaselineResult : Type 0 where
  pub marked : List Text
  pub errors : List RunError

module _ (store : Store) (config : MongoConfig) where
  open store use {World, find_doc, insert_doc, count_docs, delete_docs, read_file, sha256}

  -- a file with no document; the answer is whether it was marked
  unfoldable pub mark_new : Text → Exec World Bool
  mark_new file = do content ← lift (read_file file); insert_doc file (sha256 content); pure true

  -- a file that has a document is passed over
  unfoldable pub mark_unless : Text → Option Doc → Exec World Bool
  mark_unless file none = mark_new file
  mark_unless file (some doc) = pure false

  -- the inner `try` of baseline's loop
  unfoldable pub mark_file : Text → Exec World Bool
  mark_file file = do existing ← find_doc file; mark_unless file existing

  unfoldable pub mark_step :
      Text → Result Bool × World → (World → BaselineResult × World) → BaselineResult × World
  mark_step file (ok new, w) rest =
      let out = rest w in
      (record out.0 { marked = if new then file ∷ out.0.marked else out.0.marked }, out.1)
  mark_step file (err e, w) rest =
      let out = rest w in (record out.0 { errors = of_file file e ∷ out.0.errors }, out.1)

  -- `baseline(files)`: an error is noted, and the loop goes on
  unfoldable pub baseline : List Text → World → BaselineResult × World
  baseline [] w = (record { marked = []; errors = [] }, w)
  baseline (file ∷ files) w = mark_step file (mark_file file w) (baseline files)

  -- `resetChangelog({ dryRun, collectionName })`
  unfoldable pub reset_changelog : Bool → Option Text → Exec World ℕ
  reset_changelog dry_run collection_name =
      let coll = or_default (truthy collection_name) config.changelog_collection in
      do
        count ← count_docs coll
        if not dry_run && ltb 0 count then delete_docs coll else pure tt
        pure count
