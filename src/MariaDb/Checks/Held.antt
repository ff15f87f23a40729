-- ===== src/MariaDb/Checks/Held.antt =====
-- mariadb-adapter.js, executeSanityCheck: when the checks of a section succeed.
use db_migrate.SanityChecker.{CheckResult}
use db_migrate.MariaDb.{Result, ok, err, Exec}
use db_migrate.MariaDb.Checks.{
  RowCheck, expect_rows, expect_no_rows, verdict_on, after_verdict, query_of, passed_check,
  check_step, run_checks, checks_of, execute_sanity_check,
}
use db_migrate.Base.{
  ℕ, zero, suc, ◌<◌, ◌≡◌, refl, ap, ◌↔◌, true, false, Option, none, some, List, [], ◌∷◌, arith,
  Text,
}

-- a number of rows that a check wants
abbrev pub Wanted : RowCheck → ℕ → Type 0
Wanted (expect_rows sql) n = 0 < n
Wanted (expect_no_rows sql) n = n ≡ 0

not_true : false ≡ true → ⊥
not_true e = absurd (cc)

module _ {W : Type 0} (rows_of : Text → Exec W ℕ) where
  -- each query ran, in order, and gave a wanted number of rows
  abbrev pub AllHeld : List RowCheck → W → W → Type 0
  AllHeld [] w w' = w ≡ w'
  AllHeld (c ∷ checks) w w' =
      (n : ℕ) × (v : W) × (rows_of (query_of c) w ≡ (ok n, v)) × Wanted c n × AllHeld checks v w'

  held-verdict : (c : RowCheck) (n : ℕ) → verdict_on c n ≡ none → Wanted c n
  unfolding verdict_on
  held-verdict (expect_rows sql) zero e = absurd (cc)
  held-verdict (expect_rows sql) (suc n) e = omega arith
  held-verdict (expect_no_rows sql) zero e = refl
  held-verdict (expect_no_rows sql) (suc n) e = absurd (cc)

  run_checks-AllHeld :
      (checks : List RowCheck) (w : W)
      → (run_checks rows_of checks w).0.success ≡ true
      → AllHeld checks w (run_checks rows_of checks w).1
  unfolding run_checks
  run_checks-AllHeld [] w e = refl
  run_checks-AllHeld (c ∷ checks) w e =
      split (rows_of (query_of c) w) refl e (run_checks-AllHeld checks)
    where
      judged :
          (n : ℕ) (v : W) (o : Option Text)
          → rows_of (query_of c) w ≡ (ok n, v)
          → verdict_on c n ≡ o
          → (after_verdict o v (run_checks rows_of checks)).0.success ≡ true
          → ((u : W)
              → (run_checks rows_of checks u).0.success ≡ true
              → AllHeld checks u (run_checks rows_of checks u).1)
          → AllHeld (c ∷ checks) w (after_verdict o v (run_checks rows_of checks)).1
      judged n v none ran held e ih = (n, v, ran, held-verdict c n held, ih v e)
      judged n v (some message) ran held e ih = absurd (cc)

      split :
          (out : Result ℕ × W)
          → rows_of (query_of c) w ≡ out
          → (check_step rows_of c out (run_checks rows_of checks)).0.success ≡ true
          → ((u : W)
              → (run_checks rows_of checks u).0.success ≡ true
              → AllHeld checks u (run_checks rows_of checks u).1)
          → AllHeld (c ∷ checks) w (check_step rows_of c out (run_checks rows_of checks)).1
      split (err x, v) ran e ih = unfold check_step in absurd (not_true e)
      split (ok n, v) ran e ih = unfold check_step in judged n v (verdict_on c n) ran refl e ih

  verdict-held : (c : RowCheck) (n : ℕ) → Wanted c n → verdict_on c n ≡ none
  unfolding verdict_on
  verdict-held (expect_rows sql) zero h = absurd (omega arith)
  verdict-held (expect_rows sql) (suc n) h = refl
  verdict-held (expect_no_rows sql) zero h = refl
  verdict-held (expect_no_rows sql) (suc n) h = absurd (omega arith)

  AllHeld-run_checks :
      (checks : List RowCheck) (w w' : W)
      → AllHeld checks w w'
      → run_checks rows_of checks w ≡ (passed_check, w')
  unfolding run_checks check_step
  AllHeld-run_checks [] w w' h = ap (λ v. (passed_check, v)) h
  AllHeld-run_checks (c ∷ checks) w w' (n, v, ran, wanted, rest) =
      rw (ran, verdict-held c n wanted) (AllHeld-run_checks checks v w' rest)

  -- The checks of a section succeed exactly if each of its queries, run in order, ends without an
  -- error and gives a number of rows that its directive wants: some, or none. They never throw.
  pub execute-AllHeld :
      (section : Text) (w : W)
      → (r : CheckResult) × (w' : W) × (execute_sanity_check rows_of section w ≡ (ok r, w'))
        × ((r.success ≡ true) ↔ AllHeld (checks_of section) w w')
  unfolding execute_sanity_check
  execute-AllHeld section w =
      let out = run_checks rows_of (checks_of section) w in
      (
        out.0,
        out.1,
        refl,
        (
          run_checks-AllHeld (checks_of section) w,
          λ h.
              ap (λ (o : CheckResult × W). o.0.success)
                (AllHeld-run_checks (checks_of section) w out.1 h),
        ),
      )
