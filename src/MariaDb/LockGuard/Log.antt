-- ===== src/MariaDb/LockGuard/Log.antt =====
-- mariadb-adapter.js, _executeGuarded: which texts reach the server, and in what order.
use db_migrate.Base.{
  ℕ, zero, suc, ◌≤◌, ◌≡◌, refl, sym, ap, ◌∙◌, ◌⊎◌, inl, inr, Bool, false, List, [], ◌∷◌, ◌++◌,
  append_assoc, arith, if◌then◌else◌, Bool-cases, Text,
}
use db_migrate.MariaDb.Actions.{ended, returned, threw}
use db_migrate.MariaDb.{Error, Result, ok, err, Exec, throw, rescue, Sql, script}
use db_migrate.MariaDb.LockGuard.{is_lock_wait_timeout, attempt}

abbrev pub Logged : Type 0 → Type 0
Logged W = List Sql × W

-- the connection with a log of what is sent
unfoldable pub logging : {W : Type 0} → (Sql → Exec W (Unit {0})) → Sql → Exec (Logged W) (Unit {0})
logging query q (log, w) = let out = query q w in (out.0, (log ++ q ∷ [], out.1))

abbrev pub times : ℕ → Sql → List Sql
times zero q = []
times (suc n) q = q ∷ times n q

module _ {W : Type 0} (query : Sql → Exec W (Unit {0})) where
  -- One statement was sent once and then at most `left` times more, and an error that ended it was
  -- no lock wait timeout, or came when no attempt was left.
  pub record Tried (left : ℕ) (statement : Text) (log : List Sql)
      (out : Result (Unit {0}) × Logged W) : Type 0 where
    pub more : ℕ
    pub within : more ≤ left
    pub sent : out.1.0 ≡ log ++ times (suc more) (script statement)
    pub why : (e : Error) → out.0 ≡ err e → (is_lock_wait_timeout e ≡ false) ⊎ (more ≡ left)

  module _ (statement : Text) (log : List Sql) (w : W) where
    attempt_ok :
        (left : ℕ) (a : Unit {0}) (w' : W)
        → query (script statement) w ≡ (ok a, w')
        → attempt (logging query) left statement (log, w)
          ≡ (ok a, ((log ++ script statement ∷ []), w'))
    unfolding attempt logging
    attempt_ok zero a w' e =
        ap (λ (o : Result (Unit {0}) × W). (o.0, ((log ++ script statement ∷ []), o.1))) e
    attempt_ok (suc left) a w' e =
        ap
          (λ (o : Result (Unit {0}) × W).
            rescue
              (λ x.
                if is_lock_wait_timeout x then attempt (logging query) left statement else throw x)
              (o.0, ((log ++ script statement ∷ []), o.1)))
          e

    attempt_err :
        (left : ℕ) (x : Error) (w' : W)
        → query (script statement) w ≡ (err x, w')
        → attempt (logging query) (suc left) statement (log, w)
          ≡ (if is_lock_wait_timeout x then attempt (logging query) left statement else throw x)
              ((log ++ script statement ∷ []), w')
    unfolding attempt logging
    attempt_err left x w' e =
        ap
          (λ (o : Result (Unit {0}) × W).
            rescue
              (λ x.
                if is_lock_wait_timeout x then attempt (logging query) left statement else throw x)
              (o.0, ((log ++ script statement ∷ []), o.1)))
          e

    attempt_last :
        (x : Error) (w' : W)
        → query (script statement) w ≡ (err x, w')
        → attempt (logging query) 0 statement (log, w)
          ≡ (err x, ((log ++ script statement ∷ []), w'))
    unfolding attempt logging
    attempt_last x w' e =
        ap (λ (o : Result (Unit {0}) × W). (o.0, ((log ++ script statement ∷ []), o.1))) e

  Tried-once :
      (left : ℕ) (statement : Text) (log : List Sql) (w' : W) (r : Result (Unit {0}))
      → ((e : Error) → r ≡ err e → (is_lock_wait_timeout e ≡ false) ⊎ (0 ≡ left))
      → Tried left statement log (r, (log ++ script statement ∷ [], w'))
  Tried-once left statement log w' r why = record {
    more = 0;
    within = omega arith;
    sent = refl;
    why = why;
  }

  Tried-again :
      (left : ℕ) (statement : Text) (log : List Sql) (out : Result (Unit {0}) × Logged W)
      → Tried left statement (log ++ script statement ∷ []) out
      → Tried (suc left) statement log out
  Tried-again left statement log out t = record {
    more = suc t.more;
    within = omega arith;
    sent =
        t.sent ∙ append_assoc log (script statement ∷ []) (times (suc t.more) (script statement));
    why = λ e h. elim (t.why e h) [ inl a ↦ inl a | inr b ↦ inr (ap suc b) ];
  }

  not_locked :
      (x y : Error)
      → is_lock_wait_timeout x ≡ false
      → ◌≡◌ {A = Result (Unit {0})} (err x) (err y)
      → is_lock_wait_timeout y ≡ false
  not_locked x y h e = let p : y ≡ x = cc in rw p h

  pub attempt-Tried :
      (left : ℕ) (statement : Text) (log : List Sql) (w : W)
      → Tried left statement log (attempt (logging query) left statement (log, w))
  attempt-Tried zero statement log w = elim (ended (query (script statement) w)) [
    | returned a w' e ↦
        rw (attempt_ok statement log w 0 a w' e)
          (Tried-once 0 statement log w' (ok a) (λ x h. inr refl))
    | threw x w' e ↦
        rw (attempt_last statement log w x w' e)
          (Tried-once 0 statement log w' (err x) (λ x h. inr refl))
  ]
  attempt-Tried (suc left) statement log w =
      let ih = attempt-Tried left statement (log ++ script statement ∷ []) in
      elim (ended (query (script statement) w)) [
        | returned a w' e ↦
            rw (attempt_ok statement log w (suc left) a w' e)
              (Tried-once (suc left) statement log w' (ok a) (λ x h. absurd (cc)))
        | threw x w' e ↦ elim (Bool-cases (is_lock_wait_timeout x)) [
          | inl locked ↦
              rw (attempt_err statement log w left x w' e, locked)
                (Tried-again left statement log _ (ih w'))
          | inr other ↦
              rw (attempt_err statement log w left x w' e, other)
                (Tried-once (suc left) statement log w' (err x)
                  (λ y h. inl (not_locked x y other h)))
        ]
      ]

-- An attempt that fails ends with a call of the server that fails with the same error.
attempt-throws :
    {S : Type 0} (query : Sql → Exec S (Unit {0})) (left : ℕ) (statement : Text) (s s' : S)
    (x : Error)
    → attempt query left statement s ≡ (err x, s')
    → (v : S) × (query (script statement) v ≡ (err x, s'))
unfolding attempt
attempt-throws query zero statement s s' x e = (s, e)
attempt-throws {S} query (suc left) statement s s' x e =
    go (query (script statement) s) refl e (λ u. attempt-throws query left statement u s' x)
  where
    go :
        (out : Result (Unit {0}) × S)
        → query (script statement) s ≡ out
        → rescue (λ y. if is_lock_wait_timeout y then attempt query left statement else throw y) out
          ≡ (err x, s')
        → ((u : S)
            → attempt query left statement u ≡ (err x, s')
            → (v : S) × (query (script statement) v ≡ (err x, s')))
        → (v : S) × (query (script statement) v ≡ (err x, s'))
    go (ok a, u) same h again = absurd (cc)
    go (err y, u) same h again =
        let by : Bool → Result (Unit {0}) × S =
          λ b. (if b then attempt query left statement else throw y) u in
        elim (Bool-cases (is_lock_wait_timeout y)) [
          | inl locked ↦ again u (sym (ap by locked) ∙ h)
          | inr other ↦ (s, same ∙ sym (ap by other) ∙ h)
        ]

pub logged-throws :
    {W : Type 0} (query : Sql → Exec W (Unit {0})) (left : ℕ) (statement : Text) (l l' : Logged W)
    (x : Error)
    → attempt (logging query) left statement l ≡ (err x, l')
    → (v : W) × (query (script statement) v ≡ (err x, l'.1))
unfolding logging
logged-throws {W} query left statement l l' x e =
    let (v, h) = attempt-throws (logging query) left statement l l' x e in
    (v.1, ap (λ (o : Result (Unit {0}) × Logged W). (o.0, o.1.1)) h)
