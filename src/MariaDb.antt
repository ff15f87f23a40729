-- ===== src/MariaDb.antt =====
-- src/adapters/mariadb-adapter.js: what its parts share. The database server is no part of the
-- repository: the connection's calls are parameters, functions of the server's state, and an
-- `await` of one is an action `Exec`.
pub mod LockGuard
pub mod Files
pub mod Server
pub mod Actions
pub mod Keeps
pub mod Up
pub mod Status
pub mod Run
pub mod Down
pub mod Checks
pub mod Checked
pub mod Baseline
mod Tests
use db_migrate.Base.{ℕ, ◌+◌, ◌-◌, ◌<◌, Bool, List, [], ◌∷◌, ◌++◌, Text}

-- What execution adds to `error.message`.
pub data Note : Type 0 where
  at_statement : ℕ → ℕ → Note  -- (statement i of n; what was already applied …)
  stopped_by : Text → ℕ → Note  -- stopped by <timeoutSource> (<sec> s) …
  ran_longer : Bool → ℕ → Note  -- ran longer than the annotation (or the config) says, and was stopped

-- An Error object: `errno` and `code` are those of mysql2, 0 and the empty text on other errors.
pub record Error : Type 0 where
  pub errno : ℕ
  pub code : Text
  pub message : Text
  pub notes : List Note

-- `new Error(message)`
abbrev pub new_error : Text → Error
new_error message = record { errno = 0; code = []; message = message; notes = [] }

-- `error.message += …`
abbrev pub add_note : Note → Error → Error
add_note n e = record e { notes = e.notes ++ n ∷ [] }

pub data Result {ℓ} (A : Type ℓ) : Type ℓ where
  ok : A → Result A
  err : Error → Result A

-- An async function over a server of state `W`.
abbrev pub Exec : Type 0 → Type 0 → Type 0
Exec W A = W → Result A × W

abbrev pub pure : {W A : Type 0} → A → Exec W A
pure a w = (ok a, w)

abbrev pub throw : {W A : Type 0} → Error → Exec W A
throw e w = (err e, w)

-- the rest of an action, once its first part has ended
abbrev pub resume : {W A B : Type 0} → (A → Exec W B) → Result A × W → Result B × W
resume f (ok a, w) = f a w
resume f (err e, w) = (err e, w)

infixl 5 ◌>>=◌ ◌>>◌
abbrev pub ◌>>=◌ : {W A B : Type 0} → Exec W A → (A → Exec W B) → Exec W B
◌>>=◌ m f w = resume f (m w)

abbrev pub ◌>>◌ : {W B : Type 0} → Exec W (Unit {0}) → Exec W B → Exec W B
m >> k = m >>= λ _. k

-- `try { m } catch (error) { handler }`
abbrev pub rescue : {W A : Type 0} → (Error → Exec W A) → Result A × W → Result A × W
rescue handler (ok a, w) = (ok a, w)
rescue handler (err e, w) = handler e w

abbrev pub catch : {W A : Type 0} → Exec W A → (Error → Exec W A) → Exec W A
catch m handler w = rescue handler (m w)

-- A text that the adapter sends by `connection.query`.
pub data Sql : Type 0 where
  script : Text → Sql  -- a migration's statement or batch
  use_database : Text → Sql  -- USE `db`
  script_in : Text → Text → Sql  -- USE `db`;\n<batch>
  set_lock_wait_timeout : ℕ → Sql
  set_innodb_lock_wait_timeout : ℕ → Sql
  set_max_statement_time : ℕ → Sql
