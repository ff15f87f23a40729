-- ===== src/SqlStatements/Split.antt =====
-- sql-statements.js: the loop of splitSqlStatements, and what it returns.
pub mod Slices
pub mod Total
use db_migrate.SqlStatements.{Scan, start, push, go, give_up}
use db_migrate.SqlStatements.Step.{step}
use db_migrate.Base.{
  ℕ, zero, suc, not, ◌&&◌, Option, none, some, List, ◌==◌, if◌then◌else◌, length, get_elem?, Text,
}

-- How the loop ends: with its final state, by `return null`, or, in the model alone, without fuel.
pub data End : Type 0 where
  done : Scan → End
  null : End
  no_fuel : End

-- `while (i < sql.length)`
pub loop : ℕ → Text → ℕ → Scan → End
loop zero sql i s = elim (get_elem? sql i) [ none ↦ done s | some ch ↦ no_fuel ]
loop (suc fuel) sql i s = elim (get_elem? sql i) [
  | none ↦ done s
  | some ch ↦ elim (step sql i ch s) [ give_up ↦ null | go j s' ↦ loop fuel sql j s' ]
]

-- what follows the loop
pub finish : Text → End → Option (List Text)
finish sql null = none
finish sql no_fuel = none
finish sql (done s) =
    if s.compound && not (s.depth == 0) then none else some (push sql (length sql) s).statements

-- null is `none`
unfoldable pub split_sql_statements : Text → Option (List Text)
unfolding loop finish start push
split_sql_statements sql = finish sql (loop (length sql) sql 0 start)
