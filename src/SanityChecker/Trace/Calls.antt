-- ===== src/SanityChecker/Trace/Calls.antt =====
-- sanity-checker.js: the calls of a migration's functions from its `up` on.
use db_migrate.MariaDb.{Result, ok, err, Exec, pure, resume, rescue}
use db_migrate.SanityChecker.{
  CheckResult, Migration, Outcome, succeeded, post_check_failed, rollback_failed, run_check,
  roll_back, judge, after_up,
}
use db_migrate.Base.{
  ◌≡◌, refl, sym, ap, ◌∙◌, Bool, true, false, not, ◌&&◌, Option, none, some, List, [], ◌∷◌, ◌++◌,
  append-nil, append_assoc, if◌then◌else◌, Text, codes,
}

pub data Event : Type 0 where
  pre_check up post_check down : Event

-- an action that notes its call
unfoldable pub noting : {W A : Type 0} → Event → Exec W A → Exec (List Event × W) A
noting event m (log, w) = let out = m w in (out.0, (log ++ event ∷ [], out.1))

abbrev pub noting_if : {W A : Type 0} → Event → Option (Exec W A) → Option (Exec (List Event × W) A)
noting_if event none = none
noting_if event (some m) = some (noting event m)

-- the migration with a log of its calls
abbrev pub traced : {W : Type 0} → Migration W → Migration (List Event × W)
traced m = record {
  up = noting up m.up;
  down = noting_if down m.down;
  pre_check = noting_if pre_check m.pre_check;
  post_check = noting_if post_check m.post_check;
}

abbrev pub once_if : {A : Type 0} → Event → Option A → List Event
once_if event none = []
once_if event (some a) = event ∷ []

-- Did the post-check run and fail?
abbrev pub post_failed : Outcome → Bool
post_failed o = elim o.post_check_result [ none ↦ false | some r ↦ not r.success ]

-- the calls that an outcome stands for
abbrev pub calls_after : {W : Type 0} → Bool → Migration W → Outcome → List Event
calls_after auto_rollback m o =
    once_if post_check m.post_check
    ++ (if post_failed o && auto_rollback then once_if down m.down else [])

abbrev pub calls : {W : Type 0} → Bool → Migration W → Outcome → List Event
calls auto_rollback m o =
    once_if pre_check m.pre_check
    ++ (if o.migration_executed then up ∷ calls_after auto_rollback m o else [])

-- the result of a check, which counts as failed if it threw
abbrev pub judgement : Result CheckResult → CheckResult
judgement result = elim result [
  | ok r ↦ r
  | err e ↦ record { success = false; error = some e.message }
]

module _ {W : Type 0} where
  -- An action returns an outcome of a migration that was executed, after these calls, with
  -- these results of its checks.
  pub record Ends (log : List Event) (pre post : Option CheckResult) (wanted : Outcome → List Event)
      (out : Result Outcome × (List Event × W)) : Type 0 where
    pub outcome : Outcome
    pub returns : out.0 ≡ ok outcome
    pub logged : out.1.0 ≡ log ++ wanted outcome
    pub executed : outcome.migration_executed ≡ true
    pub verdict : outcome.success ≡ not (post_failed outcome)
    pub pre_result : outcome.pre_check_result ≡ pre
    pub post_result : outcome.post_check_result ≡ post

  pub Ends-later :
      {log : List Event} {event : Event} {pre post : Option CheckResult}
      {wanted : Outcome → List Event} {out : Result Outcome × (List Event × W)}
      → Ends (log ++ event ∷ []) pre post wanted out
      → Ends log pre post (λ o. event ∷ wanted o) out
  Ends-later {log} {event} {wanted = wanted} h = record {
    outcome = h.outcome;
    returns = h.returns;
    logged = h.logged ∙ append_assoc log (event ∷ []) (wanted h.outcome);
    executed = h.executed;
    verdict = h.verdict;
    pre_result = h.pre_result;
    post_result = h.post_result;
  }

module _ {W : Type 0}
    (race : Text → Exec (List Event × W) CheckResult → Exec (List Event × W) CheckResult)
    (calls_once : (message : Text) (check : Exec (List Event × W) CheckResult) (s : List Event × W)
      → (race message check s).1.0 ≡ (check s).1.0) where
  abbrev State : Type 0
  State = List Event × W

  pub run_check-Ends :
      (message : Text) (event : Event) (check : Exec W CheckResult) (log : List Event) (w : W)
      → run_check race message (noting event check) (log, w) ≡ (
        ok (judgement (race message (noting event check) (log, w)).0),
        (log ++ event ∷ [], (race message (noting event check) (log, w)).1.1),
      )
  unfolding run_check noting
  run_check-Ends message event check log w =
      go (race message (noting event check) (log, w))
        (calls_once message (noting event check) (log, w))
    where
      go :
          (out : Result CheckResult × State)
          → out.1.0 ≡ log ++ event ∷ []
          → rescue (λ e. pure (record { success = false; error = some e.message })) out
            ≡ (ok (judgement out.0), (log ++ event ∷ [], out.1.1))
      go (ok r, (l, v)) h = ap (λ x. (ok r, (x, v))) h
      go (err e, (l, v)) h =
          ap (λ x. (ok (record { success = false; error = some e.message }), (x, v))) h

  -- the calls of the rollback, after a check of this result
  abbrev rollback_calls : Bool → Option (Exec W (Unit {0})) → Outcome → List Event
  rollback_calls auto_rollback d o = if post_failed o && auto_rollback then once_if down d else []

  roll_back-Ends :
      (auto_rollback : Bool) (d : Option (Exec W (Unit {0}))) (pre : Option CheckResult)
      (r : CheckResult) (log : List Event) (w : W)
      → r.success ≡ false
      → Ends log pre
          (some r)
          (rollback_calls auto_rollback d)
          (roll_back race (if auto_rollback then noting_if down d else none) pre r (log, w))
  unfolding roll_back noting
  roll_back-Ends false d pre r log w h = record {
    outcome = post_check_failed pre r;
    returns = refl;
    logged = rw h (sym (append-nil log));
    executed = refl;
    verdict = rw h refl;
    pre_result = refl;
    post_result = refl;
  }
  roll_back-Ends true none pre r log w h = record {
    outcome = post_check_failed pre r;
    returns = refl;
    logged = rw h (sym (append-nil log));
    executed = refl;
    verdict = rw h refl;
    pre_result = refl;
    post_result = refl;
  }
  roll_back-Ends true (some d) pre r log w h = go (d w)
    where
      go :
          (out : Result (Unit {0}) × W)
          → Ends log pre (some r) (rollback_calls true (some d)) (
              rescue
                (λ e. pure (rollback_failed pre r e))
                (resume
                  (λ _. pure (record (post_check_failed pre r) { rolled_back = true }))
                  (out.0, (log ++ down ∷ [], out.1))))
      go (ok tt, v) = record {
        outcome = record (post_check_failed pre r) { rolled_back = true };
        returns = refl;
        logged = rw h refl;
        executed = refl;
        verdict = rw h refl;
        pre_result = refl;
        post_result = refl;
      }
      go (err e, v) = record {
        outcome = rollback_failed pre r e;
        returns = refl;
        logged = rw h refl;
        executed = refl;
        verdict = rw h refl;
        pre_result = refl;
        post_result = refl;
      }

  judge-Ends :
      (auto_rollback : Bool) (d : Option (Exec W (Unit {0}))) (pre : Option CheckResult)
      (r : CheckResult) (log : List Event) (w : W)
      → Ends log pre
          (some r)
          (rollback_calls auto_rollback d)
          (judge race auto_rollback (noting_if down d) pre r (log, w))
  unfolding judge
  judge-Ends auto_rollback d pre r log w = go r.success refl
    where
      go :
          (b : Bool)
          → r.success ≡ b
          → Ends log pre (some r) (rollback_calls auto_rollback d) (
              (if b
                  then pure (succeeded pre (some r))
                  else roll_back race (if auto_rollback then noting_if down d else none) pre r)
                (log, w))
      go true passed = record {
        outcome = succeeded pre (some r);
        returns = refl;
        logged = rw passed (sym (append-nil log));
        executed = refl;
        verdict = rw passed refl;
        pre_result = refl;
        post_result = refl;
      }
      go false failed = roll_back-Ends auto_rollback d pre r log w failed

  -- the result of the post-check, called in this state
  abbrev pub posted : Migration W → List Event → W → Option CheckResult
  posted m log w = elim m.post_check [
    | none ↦ none
    | some check ↦
        some
          (judgement (race (codes "Sanity check timed out") (noting post_check check) (log, w)).0)
  ]

  pub after_up-Ends :
      (auto_rollback : Bool) (m : Migration W) (pre : Option CheckResult) (log : List Event) (w : W)
      → Ends log pre
          (posted m log w)
          (calls_after auto_rollback m)
          (after_up race auto_rollback (traced m) pre (log, w))
  unfolding after_up
  after_up-Ends auto_rollback m pre log w = go m.post_check
    where
      go :
          (check : Option (Exec W CheckResult))
          → Ends log pre
              (posted (record m { post_check = check }) log w)
              (λ o. once_if post_check check ++ rollback_calls auto_rollback m.down o)
              (after_up race auto_rollback
                (record {
                  up = noting up m.up;
                  down = noting_if down m.down;
                  pre_check = noting_if pre_check m.pre_check;
                  post_check = noting_if post_check check;
                })
                pre
                (log, w))
      go none = record {
        outcome = succeeded pre none;
        returns = refl;
        logged = sym (append-nil log);
        executed = refl;
        verdict = refl;
        pre_result = refl;
        post_result = refl;
      }
      go (some check) =
          let out = race (codes "Sanity check timed out") (noting post_check check) (log, w) in
          rw (run_check-Ends (codes "Sanity check timed out") post_check check log w) (
            Ends-later (
              judge-Ends auto_rollback m.down pre (judgement out.0) (log ++ post_check ∷ [])
                out.1.1))
