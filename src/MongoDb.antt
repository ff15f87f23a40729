-- ===== src/MongoDb.antt =====
-- src/adapters/mongodb-adapter.js: what its parts share. The driver, the disk, the hash and the
-- dynamic import of a migration are parameters; the asynchronous functions are those of the other
-- adapter's model, where `errno` and `code` of an error stand for the driver's code and codeName.
pub mod Annotations
pub mod Status
pub mod Migrate
pub mod Plan
pub mod Baseline
pub mod Checked
mod Tests
use db_migrate.SanityChecker.{CheckResult}
use db_migrate.MariaDb.{Result, Error, Exec}
use db_migrate.Base.{
  ℕ, ◌-◌, Bool, Option, none, some, List, [], ◌∷◌, map, if◌then◌else◌, Text, text_eq,
}

-- A document of the changelog collection.
pub record Doc : Type 0 where
  pub file_name : Text
  pub checksum : Option Text
  pub applied_at : ℕ

-- What a migration's module exports. Its functions are given the `timeoutMS` of the handles they
-- get, none for the unbounded ones.
pub record Module (W : Type 0) : Type 0 where
  pub up : Option (Option ℕ → Exec W (Unit {0}))
  pub down : Option (Option ℕ → Exec W (Unit {0}))
  pub pre_check : Option (Exec W CheckResult)
  pub post_check : Option (Exec W CheckResult)

-- The calls of the driver, which may fail, the files, and the test `instanceof
-- MongoOperationTimeoutError`.
pub record Store : Type 1 where
  pub World : Type 0
  pub find_docs : Exec World (List Doc)
  pub find_doc : Text → Exec World (Option Doc)
  pub insert_doc : Text → Text → Exec World (Unit {0})
  pub delete_doc : Text → Exec World (Unit {0})
  pub set_checksum : Text → Text → Exec World (Unit {0})
  pub count_docs : Text → Exec World ℕ
  pub delete_docs : Text → Exec World (Unit {0})
  pub load_module : Text → Exec World (Module World)
  pub is_operation_timeout : Error → Bool
  pub read_dir : Result (List Text)
  pub read_file : Text → Result Text
  pub sha256 : Text → Text

-- The parts of the config that are read. `operation_timeout_ms` is none where it is absent, and
-- holds none where it is no whole number.
pub record MongoConfig : Type 0 where
  pub repeatable : Bool
  pub read_only : Bool
  pub operation_timeout_ms : Option (Option ℕ)
  pub changelog_collection : Text
  pub auto_rollback : Bool

-- `new Map(docs.map(d => [d.fileName, d])).get(file)`: the last document of that file
unfoldable pub doc_of : Text → List Doc → Option Doc
unfolding text_eq
doc_of file [] = none
doc_of file (d ∷ docs) = elim (doc_of file docs) [
  | none ↦ if text_eq d.file_name file then some d else none
  | some later ↦ some later
]
