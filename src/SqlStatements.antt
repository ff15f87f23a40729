-- ===== src/SqlStatements.antt =====
-- src/core/sql-statements.js, splitSqlStatements: the statements of a script. The state of its loop
-- is here; Words and Step have the branches of the loop, and Split the loop itself.
pub mod Words
pub mod Step
pub mod Split
mod Tests
use db_migrate.Base.{
  ℕ, ◌+◌, ◌-◌, Bool, false, not, Option, none, some, List, [], ◌∷◌, ◌++◌, take, drop, Text, trim,
}

-- the variables that live across the iterations
pub record Scan : Type 0 where
  pub statements : List Text
  pub code_start : Option ℕ  -- -1 is `none`; `hasCode` says that it is not
  pub words : List Text
  pub compound : Bool
  pub depth : ℕ
  pub at_body : Bool  -- atBodyStatement
  pub after_end : Bool
  pub in_handler : Bool
  pub last_word : Text

unfoldable pub start : Scan
start = record {
  statements = [];
  code_start = none;
  words = [];
  compound = false;
  depth = 0;
  at_body = false;
  after_end = false;
  in_handler = false;
  last_word = [];
}

-- `markCode(at)`
unfoldable pub mark_code : ℕ → Scan → Scan
mark_code at s = record s { code_start = elim s.code_start [ none ↦ some at | some k ↦ some k ] }

-- `reset()`
unfoldable pub reset : Scan → Scan
unfolding start
reset s = record start { statements = s.statements }

-- `sql.slice(from, to)`
abbrev pub slice : Text → ℕ → ℕ → Text
slice sql from to = take (to - from) (drop from sql)

-- `if (text) statements.push(text)`
abbrev pub add_statement : Text → Scan → Scan
add_statement [] s = s
add_statement (c ∷ text) s = record s { statements = s.statements ++ (c ∷ text) ∷ [] }

abbrev pub push_from : Option ℕ → Text → ℕ → Scan → Scan
push_from none sql end s = s
push_from (some k) sql end s = add_statement (trim (slice sql k end)) s

-- `push(end)`
unfoldable pub push : Text → ℕ → Scan → Scan
push sql end s = push_from s.code_start sql end s

-- What an iteration does: go on at an index, or return null.
pub data Outcome : Type 0 where
  go : ℕ → Scan → Outcome
  give_up : Outcome
