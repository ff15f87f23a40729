-- ===== src/MongoDb/Checked/Replay.antt =====
-- mongodb-adapter.js, upWithSanityCheck: what the results of a run say about the changelog.
use db_migrate.MariaDb.{Result, ok, err, Exec}
use db_migrate.MariaDb.Keeps.{Keeps}
use db_migrate.SanityChecker.{CheckResult, Outcome}
use db_migrate.SanityChecker.Effect.{effect, KeepsIf}
use db_migrate.MongoDb.{Module, Store, MongoConfig}
use db_migrate.MongoDb.Migrate.Recorded.{IsCollection, IsApart}
use db_migrate.MongoDb.Checked.{Entry, CheckedResult, passed}
use db_migrate.Base.{
  ℕ, suc, ◌-◌, ◌≡◌, Option, none, some, List, [], ◌∷◌, map, if◌then◌else◌, filter, Text, text_eq,
}

abbrev pub added : Text → Text → ℕ → ℕ
added file id n = if text_eq file id then suc n else n

abbrev pub removed : Text → Text → ℕ → ℕ
removed file id n = if text_eq file id then n - 1 else n

-- How many documents a file has after what an entry tells, if it had `n` before: an outcome that ran
-- up() adds one for its own file, which one that was rolled back takes away again.
abbrev pub replay_entry : Text → Entry → ℕ → ℕ
replay_entry id entry n = elim entry.outcome [
  | none ↦ added entry.file id n
  | some o ↦ effect (added entry.file id) (removed entry.file id) o n
]

abbrev pub replay : Text → List Entry → ℕ → ℕ
replay id [] n = n
replay id (entry ∷ entries) n = replay id entries (replay_entry id entry n)

-- the files of the entries that passed
abbrev pub passing : List Entry → List Text
passing entries = map (λ (e : Entry). e.file) (filter (λ (e : Entry). passed e.outcome) entries)

module _ (store : Store) (config : MongoConfig)
    (race : Text → Exec store.World CheckResult → Exec store.World CheckResult)
    (documents : store.World → Text → ℕ) (collection : IsCollection store documents)
    (apart : IsApart store documents)
    (race_keeps : (id message : Text) (check : Exec store.World CheckResult)
      → Keeps (λ w. documents w id) check
      → Keeps (λ w. documents w id) (race message check))
    (checks : (id file : Text) (w w' : store.World) (m : Module store.World)
      → store.load_module file w ≡ (ok m, w')
      → KeepsIf (λ w. documents w id) m.pre_check
        × KeepsIf (λ w. documents w id) m.post_check) where
  open store use {World, load_module, read_file}

  -- what the run of one file does
  abbrev Tells : Text → Text → ℕ → Result (Option Outcome) × World → Type 0
  Tells id file b (ok o, v) =
      documents v id ≡ replay_entry id (record { file = file; outcome = o }) b
  Tells id file b (err e, v) = documents v id ≡ b

  -- how a run ended: its entries, replayed, give the changelog, and what it lists as applied are
  -- the files of the entries that passed
  pub record Replays (w : World) (out : CheckedResult × World) : Type 0 where
    pub replays : (id : Text) → documents out.1 id ≡ replay id out.0.sanity_results (documents w id)
    pub applied : out.0.applied ≡ passing out.0.sanity_results
