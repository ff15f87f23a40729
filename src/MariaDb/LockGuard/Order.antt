-- ===== src/MariaDb/LockGuard/Order.antt =====
-- mariadb-adapter.js, _executeGuarded: the statements of a migration reach the server in order.
use db_migrate.Base.{
  ℕ, suc, ◌+◌, ◌-◌, ◌≤◌, ◌<◌, ◌≡◌, refl, sym, ap, ◌∙◌, some, List, [], ◌∷◌, ◌++◌, append-nil,
  append_assoc, arith, length, Text, subst,
}
use db_migrate.MariaDb.Actions.{ended, returned, threw}
use db_migrate.MariaDb.{
  at_statement, Error, Result, ok, err, Exec, throw, resume, rescue, Sql, script,
}
use db_migrate.MariaDb.LockGuard.{locate, attempt, run_statements, run_split}
use db_migrate.MariaDb.LockGuard.Log.{Logged, logging, times, attempt-Tried, logged-throws}

-- Every statement was sent at least once, and not more often than `maxRetries` allows, all its
-- attempts before the next statement's first.
abbrev pub Sent : ℕ → List Text → List Sql → Type 0
Sent m [] log = log ≡ []
Sent m (st ∷ sts) log =
    (more : ℕ) × (rest : List Sql) × (log ≡ times (suc more) (script st) ++ rest)
    × (more ≤ m - 1)
    × Sent m sts rest

-- The error of the statement with this number of so many, as it is thrown on: of several statements
-- it gets a note with its number, of a single one it stays as it is.
abbrev pub Located : ℕ → ℕ → Error → Error → Type 0
Located number total x e =
    (total ≤ 1 → e ≡ x)
    × (1 < total → e ≡ record x { notes = x.notes ++ at_statement number total ∷ [] })

-- How a run failed: the server threw at the last statement that was reached.
pub record Failed {W : Type 0} (query : Sql → Exec W (Unit {0})) (total index : ℕ)
    (reached : List Text) (e : Error) (w : W) : Type 0 where
  pub before : List Text
  pub last : Text
  pub ends : reached ≡ before ++ last ∷ []
  pub x : Error
  pub at : W
  pub thrown : query (script last) at ≡ (err x, w)
  pub located : Located (index + length reached) total x e

-- The statements `later` were never sent, those of `reached` were.
pub record Ran {W : Type 0} (query : Sql → Exec W (Unit {0})) (m total index : ℕ)
    (statements : List Text) (log : List Sql) (out : Result (Unit {0}) × Logged W) : Type 0 where
  pub reached : List Text
  pub later : List Text
  pub cut : statements ≡ reached ++ later
  pub blocks : List Sql
  pub sent : out.1.0 ≡ log ++ blocks
  pub runs : Sent m reached blocks
  pub on_ok : (a : Unit {0}) → out.0 ≡ ok a → later ≡ []
  pub on_err : (e : Error) → out.0 ≡ err e → Failed query total index reached e out.1.1

locate-Located : (number total : ℕ) (x : Error) → Located number total x (locate number total x)
unfolding locate
locate-Located number total x = (λ h. ground arith, λ h. ground arith)

module _ {W : Type 0} (query : Sql → Exec W (Unit {0})) (m total : ℕ) where
  abbrev run : ℕ → List Text → Exec (Logged W) (Unit {0})
  run = run_statements (logging query) m total

  run-ok :
      (index : ℕ) (st : Text) (sts : List Text) (l : Logged W) (a : Unit {0}) (l' : Logged W)
      → attempt (logging query) (m - 1) st l ≡ (ok a, l')
      → run index (st ∷ sts) l ≡ run (index + 1) sts l'
  unfolding run_statements
  run-ok index st sts l a l' e =
      ap
        (λ (o : Result (Unit {0}) × Logged W).
          resume (λ _. run (index + 1) sts) (rescue (λ x. throw (locate (index + 1) total x)) o))
        e

  run-err :
      (index : ℕ) (st : Text) (sts : List Text) (l : Logged W) (x : Error) (l' : Logged W)
      → attempt (logging query) (m - 1) st l ≡ (err x, l')
      → run index (st ∷ sts) l ≡ (err (locate (index + 1) total x), l')
  unfolding run_statements
  run-err index st sts l x l' e =
      ap
        (λ (o : Result (Unit {0}) × Logged W).
          resume (λ _. run (index + 1) sts) (rescue (λ x. throw (locate (index + 1) total x)) o))
        e

  Ran-cons :
      (index : ℕ) (st : Text) (sts : List Text) (log : List Sql) (more : ℕ)
      (out : Result (Unit {0}) × Logged W)
      → more ≤ m - 1
      → Ran query m total (index + 1) sts (log ++ times (suc more) (script st)) out
      → Ran query m total index (st ∷ sts) log out
  Ran-cons index st sts log more out le r = record {
    reached = st ∷ r.reached;
    later = r.later;
    cut = ap (λ l. st ∷ l) r.cut;
    blocks = times (suc more) (script st) ++ r.blocks;
    sent = r.sent ∙ append_assoc log (times (suc more) (script st)) r.blocks;
    runs = (more, r.blocks, refl, le, r.runs);
    on_ok = r.on_ok;
    on_err = λ e h.
        let f = r.on_err e h in
        record {
          before = st ∷ f.before;
          last = f.last;
          ends = ap (λ l. st ∷ l) f.ends;
          x = f.x;
          at = f.at;
          thrown = f.thrown;
          located =
              subst (λ n. Located n total f.x e)
                (let same : index + 1 + length r.reached ≡ index + length (st ∷ r.reached) =
                    omega arith in
                  same)
                f.located;
        };
  }

  Ran-stop :
      (index : ℕ) (st : Text) (sts : List Text) (log : List Sql) (more : ℕ) (x : Error) (v w : W)
      → more ≤ m - 1
      → query (script st) v ≡ (err x, w)
      → Ran query m total index
          (st ∷ sts)
          log
          (err (locate (index + 1) total x), (log ++ times (suc more) (script st), w))
  Ran-stop index st sts log more x v w le thrown = record {
    reached = st ∷ [];
    later = sts;
    cut = refl;
    blocks = times (suc more) (script st);
    sent = refl;
    runs = (more, [], sym (append-nil _), le, refl);
    on_ok = λ a h. absurd (cc);
    on_err = λ e h. record {
      before = [];
      last = st;
      ends = refl;
      x = x;
      at = v;
      thrown = thrown;
      located =
          let same : locate (index + 1) total x ≡ e = cc in
          subst (Located (index + 1) total x) same (locate-Located (index + 1) total x);
    };
  }

  run-Ran :
      (index : ℕ) (sts : List Text) (log : List Sql) (w : W)
      → Ran query m total index sts log (run index sts (log, w))
  run-Ran index [] log w =
      unfold run_statements in
      record {
        reached = [];
        later = [];
        cut = refl;
        blocks = [];
        sent = sym (append-nil log);
        runs = refl;
        on_ok = λ a h. refl;
        on_err = λ e h. absurd (cc);
      }
  run-Ran index (st ∷ sts) log w =
      let t = attempt-Tried query (m - 1) st log w in
      elim (ended (attempt (logging query) (m - 1) st (log, w))) [
        | returned a (log', w') e ↦ rw (run-ok index st sts (log, w) a (log', w') e) (
            Ran-cons index st sts log t.more _ t.within (
              subst (λ l. Ran query m total (index + 1) sts l (run (index + 1) sts (log', w')))
                (ap (λ (o : Result (Unit {0}) × Logged W). o.1.0) (sym e) ∙ t.sent)
                (run-Ran (index + 1) sts log' w')))
        | threw x (log', w') e ↦
            let (v, thrown) = logged-throws query (m - 1) st (log, w) (log', w') x e in
            rw (run-err index st sts (log, w) x (log', w') e) (
              subst
                (λ l.
                  Ran query m total index (st ∷ sts) log
                    (err (locate (index + 1) total x), (l, w')))
                (sym (ap (λ (o : Result (Unit {0}) × Logged W). o.1.0) (sym e) ∙ t.sent))
                (Ran-stop index st sts log t.more x v w' t.within thrown))
      ]

-- Of the statements of a migration, a run sends an initial part, each one at least once and at most
-- max(1, maxRetries) times and all of its attempts before the next statement's first. A run that
-- succeeds sends all of them. One that fails ended with a call of the server that failed at the last
-- statement it reached, and throws that error: as it is if there is one statement, and with a note
-- of the statement's number if there are several.
pub statements-Ran :
    {W : Type 0} (query : Sql → Exec W (Unit {0})) (m : ℕ) (sql : Text) (statements : List Text)
    (w : W)
    → Ran query m
        (length statements)
        0
        statements
        []
        (run_split (logging query) m sql (some statements) ([], w))
unfolding run_split
statements-Ran query m sql statements w = run-Ran query m (length statements) 0 statements [] w
