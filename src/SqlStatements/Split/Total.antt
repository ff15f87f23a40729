-- ===== src/SqlStatements/Split/Total.antt =====
-- sql-statements.js: the loop of splitSqlStatements ends within as many iterations as the script
-- has characters.
use db_migrate.SqlStatements.{Scan, go, start}
use db_migrate.SqlStatements.Step.{step}
use db_migrate.SqlStatements.Step.Moves.{Moves, step-Moves, step_semicolon-go, Outcome-cases}
use db_migrate.SqlStatements.Split.{done, null, no_fuel, loop}
use db_migrate.Base.{
  ℕ, zero, suc, ◌+◌, ◌≤◌, ◌<◌, ◌≡◌, refl, sym, ◌∙◌, ◌≢◌, inl, inr, none, some, [], ◌∷◌, arith,
  Option-cases, length, get_elem?, Text, subst,
}

pub go-lt :
    (sql : Text) (i ch j : ℕ) (s s' : Scan)
    → get_elem? sql i ≡ some ch
    → step sql i ch s ≡ go j s'
    → i < j
go-lt sql i ch j s s' h e = elim (step-Moves sql i ch s h) [
  | inl m ↦ (subst (Moves i s) e m).0
  | inr semi ↦ elim (step_semicolon-go sql i s) [
    | inl g ↦ lt_of_go (sym e ∙ semi ∙ g)
    | inr g ↦ lt_of_go (sym e ∙ semi ∙ g)
  ]
]
  where
    lt_of_go : {t : Scan} → go j s' ≡ go (i + 1) t → i < j
    lt_of_go p = ground arith

get_elem?-beyond : (sql : Text) (i : ℕ) → length sql ≤ i → get_elem? sql i ≡ none
get_elem?-beyond [] i h = refl
get_elem?-beyond (c ∷ sql) zero h = absurd (omega arith)
get_elem?-beyond (c ∷ sql) (suc i) h = get_elem?-beyond sql i (omega arith)

-- The three ways in which an iteration can go.
pub data Turn (fuel : ℕ) (sql : Text) (i : ℕ) (s : Scan) : Type 0 where
  ends : loop (suc fuel) sql i s ≡ done s → get_elem? sql i ≡ none → Turn fuel sql i s
  fails : loop (suc fuel) sql i s ≡ null → Turn fuel sql i s
  continues :
      (ch j : ℕ) (s' : Scan)
      → get_elem? sql i ≡ some ch
      → step sql i ch s ≡ go j s'
      → loop (suc fuel) sql i s ≡ loop fuel sql j s'
      → Turn fuel sql i s

pub turn : (fuel : ℕ) (sql : Text) (i : ℕ) (s : Scan) → Turn fuel sql i s
turn fuel sql i s = elim (Option-cases (get_elem? sql i)) [
  | inl e ↦ ends (unfold loop in ground arith) e
  | inr (ch, e) ↦ elim (Outcome-cases (step sql i ch s)) [
    | inl g ↦ fails (unfold loop in ground arith)
    | inr (j, s', g) ↦ continues ch j s' e g (unfold loop in ground arith)
  ]
]

loop-ne-no_fuel :
    (fuel : ℕ) (sql : Text) (i : ℕ) (s : Scan) → length sql ≤ i + fuel → loop fuel sql i s ≢ no_fuel
loop-ne-no_fuel zero sql i s h = unfold loop in ground (arith, get_elem?-beyond sql i (omega arith))
loop-ne-no_fuel (suc fuel) sql i s h = elim (turn fuel sql i s) [
  | ends e _ ↦ rw e (cc)
  | fails e ↦ rw e (cc)
  | continues ch j s' at_i g e ↦
      rw e (loop-ne-no_fuel fuel sql j s' (omega (arith, go-lt sql i ch j s s' at_i g)))
]

-- The loop never runs out of the iterations that the model grants it, one for each character of
-- the script: it ends by its own test or by `return null`.
pub split-terminates : (sql : Text) → loop (length sql) sql 0 start ≢ no_fuel
split-terminates sql = loop-ne-no_fuel (length sql) sql 0 start (omega arith)
