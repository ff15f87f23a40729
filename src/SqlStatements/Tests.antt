-- ===== src/SqlStatements/Tests.antt =====
-- Runs of the splitter.
use db_migrate.SqlStatements.Step.{run_step}
use db_migrate.SqlStatements.Split.Slices.{split-Spells}
use db_migrate.SqlStatements.Split.Slices.Parts.{Spells}
use db_migrate.SqlStatements.Split.Total.{split-terminates}
use db_migrate.SqlStatements.{start}
use db_migrate.SqlStatements.Split.{loop, no_fuel, split_sql_statements}
use db_migrate.Base.{◌≡◌, refl, ◌≢◌, none, some, [], ◌∷◌, length, codes}

two :
    split_sql_statements (codes " SELECT ';' -- a; b\n ; # x;\n UPDATE t; ;")
    ≡ some (codes "SELECT ';' -- a; b" ∷ codes "UPDATE t" ∷ [])
unfolding split_sql_statements run_step
two = refl

procedure :
    split_sql_statements (codes "CREATE PROCEDURE p() BEGIN IF a THEN SET b = 1; END IF; END; DO 1")
    ≡ some (codes "CREATE PROCEDURE p() BEGIN IF a THEN SET b = 1; END IF; END" ∷ codes "DO 1" ∷ [])
unfolding split_sql_statements run_step
procedure = refl

unterminated : split_sql_statements (codes "SELECT 'a") ≡ none
unfolding split_sql_statements run_step
unterminated = refl

unbalanced : split_sql_statements (codes "BEGIN NOT ATOMIC SELECT 1;") ≡ none
unfolding split_sql_statements run_step
unbalanced = refl

split-Spells_example : Spells (codes "A" ∷ codes "B" ∷ []) (codes "A; B")
unfolding split_sql_statements run_step
split-Spells_example = split-Spells (codes "A; B") (codes "A" ∷ codes "B" ∷ []) refl

split-terminates_example : loop (length (codes "'a")) (codes "'a") 0 start ≢ no_fuel
split-terminates_example = split-terminates (codes "'a")
