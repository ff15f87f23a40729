-- ===== src/MariaDb/Server.antt =====
-- mariadb-adapter.js: the statements that the adapter sends about its changelog table, and the
-- files that it reads, as one interface; and what is relied on of them.
use db_migrate.MariaDb.{Result, ok, err, Error, Exec, Sql}
use db_migrate.MariaDb.LockGuard.{LockGuardConfig}
use db_migrate.Base.{
  ℕ, ◌≡◌, Bool, false, ◌||◌, Option, none, some, List, [], ◌∷◌, if◌then◌else◌, is_some, Text,
  text_eq,
}

-- A row of the changelog table. The time it was applied is left as the number the server gives.
pub record Row : Type 0 where
  pub id : Text
  pub checksum : Option Text
  pub applied_at : ℕ

-- The connection, whose calls may fail, and the disk and the hash, which a run does not change.
pub record Server : Type 1 where
  pub World : Type 0
  pub query : Sql → Exec World (Unit {0})
  pub session_statement_time : Exec World ℕ
  pub schema_exists : Text → Exec World Bool
  pub create_database : Text → Exec World (Unit {0})
  pub create_changelog : Exec World (Unit {0})
  pub has_checksum_column : Exec World Bool
  pub add_checksum_column : Exec World (Unit {0})
  pub changelog_columns : Exec World (Option (List Text))
  pub select_rows : Exec World (List Row)
  pub select_rows_without_checksum : Exec World (List Row)
  pub insert_row : Text → Text → Exec World (Unit {0})
  pub insert_ignore_row : Text → Exec World (Unit {0})
  pub delete_row : Text → Exec World (Unit {0})
  pub update_checksum : Text → Text → Exec World (Unit {0})
  pub read_dir : Result (List Text)
  pub read_file : Text → Result Text
  pub sha256 : Text → Text

-- The parts of the config that the engine reads. `statement_timeout_sec` is none where it is absent,
-- and holds none where it is no whole number.
pub record Config : Type 0 where
  pub database : Option Text
  pub create_database_if_missing : Bool
  pub repeatable : Bool
  pub read_only : Bool
  pub lock_guard : LockGuardConfig
  pub statement_timeout_sec : Option (Option ℕ)

-- `new Map(rows.map(r => [r.id, r])).get(id)`: the last row of that id
unfoldable pub by_id : Text → List Row → Option Row
unfolding text_eq
by_id id [] = none
by_id id (r ∷ rows) = elim (by_id id rows) [
  | none ↦ if text_eq r.id id then some r else none
  | some s ↦ some s
]

module _ (server : Server) where
  open server use {
    World, query, create_database, create_changelog, add_checksum_column, select_rows, insert_row,
    insert_ignore_row, delete_row, update_checksum, schema_exists, has_checksum_column,
  }

  -- The changelog as a table: `recorded w id` says whether the id has a row. An INSERT that succeeds
  -- adds one, a DELETE that succeeds takes it away, an UPDATE and a call that fails leave the ids.
  pub record IsTable (recorded : World → Text → Bool) : Type 0 where
    pub insert :
        (id sum : Text) (w w' : World) (j : Text)
        → insert_row id sum w ≡ (ok tt, w')
        → recorded w' j ≡ (text_eq id j || recorded w j)
    pub insert_err :
        (id sum : Text) (e : Error) (w w' : World) (j : Text)
        → insert_row id sum w ≡ (err e, w')
        → recorded w' j ≡ recorded w j
    pub delete :
        (id : Text) (w w' : World) (j : Text)
        → delete_row id w ≡ (ok tt, w')
        → recorded w' j ≡ (if text_eq id j then false else recorded w j)
    pub delete_err :
        (id : Text) (e : Error) (w w' : World) (j : Text)
        → delete_row id w ≡ (err e, w')
        → recorded w' j ≡ recorded w j
    pub restore :
        (id : Text) (w w' : World) (j : Text)
        → insert_ignore_row id w ≡ (ok tt, w')
        → recorded w' j ≡ (text_eq id j || recorded w j)
    pub update :
        (id sum : Text) (w : World) (j : Text)
        → recorded (update_checksum id sum w).1 j ≡ recorded w j

  -- A SELECT that succeeds shows the ids that have a row, and leaves them.
  pub record IsSelect (recorded : World → Text → Bool) : Type 0 where
    pub shows :
        (w w' : World) (rows : List Row) (id : Text)
        → select_rows w ≡ (ok rows, w')
        → is_some (by_id id rows) ≡ recorded w id
    pub leaves : (w : World) (id : Text) → recorded (select_rows w).1 id ≡ recorded w id

  -- The migrations' own SQL, and the session's settings, do not write to the changelog table.
  pub record IsApart (recorded : World → Text → Bool) : Type 0 where
    pub query_leaves : (q : Sql) (w : World) (id : Text) → recorded (query q w).1 id ≡ recorded w id
    pub time_leaves :
        (w : World) (id : Text) → recorded (server.session_statement_time w).1 id ≡ recorded w id

  -- The statements that set up the changelog table create what is missing and leave its rows.
  pub record IsSetup (recorded : World → Text → Bool) : Type 0 where
    pub schema :
        (db : Text) (w : World) (id : Text) → recorded (schema_exists db w).1 id ≡ recorded w id
    pub database :
        (db : Text) (w : World) (id : Text) → recorded (create_database db w).1 id ≡ recorded w id
    pub changelog : (w : World) (id : Text) → recorded (create_changelog w).1 id ≡ recorded w id
    pub column : (w : World) (id : Text) → recorded (has_checksum_column w).1 id ≡ recorded w id
    pub new_column : (w : World) (id : Text) → recorded (add_checksum_column w).1 id ≡ recorded w id
