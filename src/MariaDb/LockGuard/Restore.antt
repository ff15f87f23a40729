-- ===== src/MariaDb/LockGuard/Restore.antt =====
-- mariadb-adapter.js, executeWithLockGuard: the session's time limit is put back on every path.
use db_migrate.Base.{
  ℕ, suc, ◌≡◌, refl, ap, ◌∙◌, ◌≢◌, ◌↔◌, ◌⊎◌, true, false, Option, some, [], ◌∷◌, ◌++◌, arith,
  if◌then◌else◌, Text,
}
use db_migrate.MariaDb.{
  add_note, stopped_by, Error, Result, ok, err, Exec, throw, rescue, Sql, set_max_statement_time,
}
use db_migrate.MariaDb.LockGuard.{
  is_interrupted, LockGuardConfig, execute_guarded, restore, limited, read_statement_time,
  execute_with_lock_guard,
}

-- what the `catch` does to an outcome
annotate : {W : Type 0} → ℕ → Text → Result (Unit {0}) × W → Result (Unit {0}) × W
annotate sec source =
    rescue λ e. throw (if is_interrupted e then add_note (stopped_by source sec) e else e)

limited-eq :
    {W : Type 0} (query : Sql → Exec W (Unit {0})) (time : Exec W ℕ) (cfg : LockGuardConfig)
    (sql : Text) (database : Option Text) (n : ℕ) (source : Text) (w w' w'' : W) (previous : ℕ)
    → time w ≡ (ok previous, w')
    → query (set_max_statement_time n) w' ≡ (ok tt, w'')
    → limited query time cfg sql database n source w
      ≡ restore query previous (annotate n source (execute_guarded query cfg sql database w''))
unfolding limited read_statement_time annotate
limited-eq query time cfg sql database n source w w' w'' previous e e' = simp (e, e')

-- What comes of the result of the guarded execution: success stays success, an error that is no
-- interruption stays as it is, and one with the number of an exceeded limit or of a KILL QUERY only
-- gets a note with the limit and where it was set.
pub record Passed (sec : ℕ) (source : Text) (inner outer : Result (Unit {0})) : Type 0 where
  pub returns : (outer ≡ ok tt) ↔ (inner ≡ ok tt)
  pub throws : (e : Error) → inner ≡ err e → e.errno ≢ 1969 → e.errno ≢ 1317 → outer ≡ err e
  pub interrupted :
      (e : Error)
      → inner ≡ err e
      → (e.errno ≡ 1969) ⊎ (e.errno ≡ 1317)
      → outer ≡ err (record e { notes = e.notes ++ stopped_by source sec ∷ [] })

not_interrupted : (e : Error) → e.errno ≢ 1969 → e.errno ≢ 1317 → is_interrupted e ≡ false
unfolding is_interrupted
not_interrupted e other other' = ground arith

was_interrupted : (e : Error) → (e.errno ≡ 1969) ⊎ (e.errno ≡ 1317) → is_interrupted e ≡ true
unfolding is_interrupted
was_interrupted e is = ground arith

annotate-Passed :
    {W : Type 0} (sec : ℕ) (source : Text) (out : Result (Unit {0}) × W)
    → ((annotate sec source out).1 ≡ out.1) × Passed sec source out.0 (annotate sec source out).0
unfolding annotate
annotate-Passed sec source (ok tt, w) = (
  refl,
  record {
    returns = (λ h. refl, λ h. refl);
    throws = λ e h. absurd (cc);
    interrupted = λ e h. absurd (cc);
  },
)
annotate-Passed sec source (err x, w) = (
  refl,
  record {
    returns = (λ h. absurd (cc), λ h. absurd (cc));
    throws = λ e h other other'.
        let same : x ≡ e = cc in rw (ap is_interrupted same ∙ not_interrupted e other other') h;
    interrupted = λ e h is.
        let same : x ≡ e = cc in
        rw (ap is_interrupted same ∙ was_interrupted e is)
          (ap (λ y. err (add_note (stopped_by source sec) y)) same);
  },
)

-- With a time limit of at least a second, a session value that could be read and a limit that could
-- be set, the last call of the execution sets the session value back, whether the migration
-- succeeded or not; and what is thrown or returned is what the guarded execution ended with, an
-- interruption's error with a note.
pub execute-restores :
    {W : Type 0} (query : Sql → Exec W (Unit {0})) (session_statement_time : Exec W ℕ)
    (cfg : LockGuardConfig) (sql : Text) (database : Option Text) (n : ℕ) (source : Text)
    (w w' w'' : W) (previous : ℕ)
    → session_statement_time w ≡ (ok previous, w')
    → query (set_max_statement_time (suc n)) w' ≡ (ok tt, w'')
    → (r : Result (Unit {0})) × (last : W) × (execute_with_lock_guard query session_statement_time
          cfg sql database
          (record { sec = some (suc n); source = source })
          w
        ≡ (r, (query (set_max_statement_time previous) last).1))
      × (last ≡ (execute_guarded query cfg sql database w'').1)
      × Passed (suc n) source (execute_guarded query cfg sql database w'').0 r
unfolding execute_with_lock_guard restore
execute-restores query time cfg sql database n source w w' w'' previous e e' =
    let out = annotate (suc n) source (execute_guarded query cfg sql database w'') in
    let facts = annotate-Passed (suc n) source (execute_guarded query cfg sql database w'') in
    (
      out.0,
      out.1,
      limited-eq query time cfg sql database (suc n) source w w' w'' previous e e',
      facts.0,
      facts.1,
    )
