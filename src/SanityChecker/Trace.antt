-- ===== src/SanityChecker/Trace.antt =====
-- sanity-checker.js: which of a migration's functions are called, and in what order.
pub mod Calls
use db_migrate.MariaDb.{Result, ok, err, Error, Exec, pure, resume}
use db_migrate.SanityChecker.{
  CheckResult, Migration, Outcome, pre_check_failed, after_up, execute, go_on, checked,
  run_with_sanity_check,
}
use db_migrate.SanityChecker.Trace.Calls.{
  Event, pre_check, up, noting, traced, once_if, post_failed, calls_after, calls, Ends,
  run_check-Ends, after_up-Ends, Ends-later, posted, judgement,
}
use db_migrate.Base.{
  ◌+◌, ◌-◌, ◌≡◌, refl, sym, ap, ◌∙◌, ◌⊎◌, inl, inr, Bool, true, false, not, ◌&&◌, Option, none,
  some, List, [], ◌∷◌, ◌++◌, if◌then◌else◌, Text, codes,
}

module _ {W : Type 0}
    (race : Text → Exec (List Event × W) CheckResult → Exec (List Event × W) CheckResult)
    (calls_once : (message : Text) (check : Exec (List Event × W) CheckResult) (s : List Event × W)
      → (race message check s).1.0 ≡ (check s).1.0) where
  abbrev State : Type 0
  State = List Event × W

  -- the result of the pre-check called first, and the state that it leaves
  abbrev pub pre_checked : Option (Exec W CheckResult) → W → Option CheckResult
  pre_checked none w = none
  pre_checked (some check) w =
      some (judgement (race (codes "Pre-check timed out") (noting pre_check check) ([], w)).0)

  abbrev pub before_up : Option (Exec W CheckResult) → W → W
  before_up none w = w
  before_up (some check) w =
      (race (codes "Pre-check timed out") (noting pre_check check) ([], w)).1.1

  -- Is `up` to be called, after a pre-check of this result?
  abbrev pub allowed : Option CheckResult → Bool
  allowed pre = elim pre [ none ↦ true | some r ↦ r.success ]

  -- An outcome, with its calls: `up` was executed if the pre-check allowed it, and the results of the
  -- checks are those of their calls, the post-check's in the state that `up` left.
  pub record Returned (auto_rollback : Bool) (m : Migration W) (w : W)
      (out : Result Outcome × State) : Type 0 where
    pub outcome : Outcome
    pub returns : out.0 ≡ ok outcome
    pub logged : out.1.0 ≡ calls auto_rollback m outcome
    pub verdict : outcome.success ≡ (outcome.migration_executed && not (post_failed outcome))
    pub executed : outcome.migration_executed ≡ allowed (pre_checked m.pre_check w)
    pub pre_result : outcome.pre_check_result ≡ pre_checked m.pre_check w
    pub post_result :
        outcome.migration_executed ≡ true
        → (v : W) × (m.up (before_up m.pre_check w) ≡ (ok tt, v))
          × (outcome.post_check_result
              ≡ posted race calls_once m (once_if pre_check m.pre_check ++ up ∷ []) v)

  -- The error of `up`, which the pre-check allowed, and the state that it left.
  pub record Thrown (m : Migration W) (w : W) (out : Result Outcome × State) : Type 0 where
    pub error : Error
    pub throws : out.0 ≡ err error
    pub logged : out.1.0 ≡ once_if pre_check m.pre_check ++ up ∷ []
    pub allows : allowed (pre_checked m.pre_check w) ≡ true
    pub by_up : m.up (before_up m.pre_check w) ≡ (err error, out.1.1)

  abbrev pub Traced : Bool → Migration W → W → Result Outcome × State → Type 0
  Traced auto_rollback m w out = Returned auto_rollback m w out ⊎ Thrown m w out

  -- the migration was executed in this state, or threw
  abbrev Executed :
      Bool → Migration W → Option CheckResult → List Event → W → Result Outcome × State → Type 0
  Executed auto_rollback m pre log w out =
      ((v : W) × (m.up w ≡ (ok tt, v))
        × Ends log pre (posted race calls_once m (log ++ up ∷ []) v)
            (λ o. up ∷ calls_after auto_rollback m o) out)
      ⊎ ((e : Error) × (out.0 ≡ err e) × (out.1.0 ≡ log ++ up ∷ []) × (m.up w ≡ (err e, out.1.1)))

  execute-Executed :
      (auto_rollback : Bool) (m : Migration W) (pre : Option CheckResult) (log : List Event) (w : W)
      → Executed auto_rollback m pre log w (execute race auto_rollback (traced m) pre (log, w))
  unfolding execute noting
  execute-Executed auto_rollback m pre log w = go (m.up w) refl
    where
      go :
          (out : Result (Unit {0}) × W)
          → m.up w ≡ out
          → Executed auto_rollback m pre log w (
              resume
                (λ _. after_up race auto_rollback (traced m) pre)
                (out.0, (log ++ up ∷ [], out.1)))
      go (ok tt, v) ran = inl (
        v,
        ran,
        Ends-later (after_up-Ends race calls_once auto_rollback m pre (log ++ up ∷ []) v),
      )
      go (err e, v) ran = inr (e, refl, refl, ran)

  Executed-Traced :
      (auto_rollback : Bool) (m : Migration W) (w : W) (out : Result Outcome × State)
      → allowed (pre_checked m.pre_check w) ≡ true
      → Executed auto_rollback m
          (pre_checked m.pre_check w)
          (once_if pre_check m.pre_check)
          (before_up m.pre_check w)
          out
      → Traced auto_rollback m w out
  Executed-Traced auto_rollback m w out allows (inl (v, ran, h)) = inl (record {
    outcome = h.outcome;
    returns = h.returns;
    logged =
        h.logged
        ∙ ap
            (λ b.
              once_if pre_check m.pre_check
              ++ (if b then up ∷ calls_after auto_rollback m h.outcome else []))
            (sym h.executed);
    verdict = h.verdict ∙ ap (λ b. b && not (post_failed h.outcome)) (sym h.executed);
    executed = h.executed ∙ sym allows;
    pre_result = h.pre_result;
    post_result = λ _. (v, ran, h.post_result);
  })
  Executed-Traced auto_rollback m w out allows (inr (e, throws, logged, ran)) =
      inr (record { error = e; throws = throws; logged = logged; allows = allows; by_up = ran })

  abbrev with_pre_check : Migration W → Option (Exec W CheckResult) → Migration W
  with_pre_check m check = record m { pre_check = check }

  go_on-Traced :
      (auto_rollback : Bool) (m : Migration W) (check : Exec W CheckResult) (w : W)
      → Traced auto_rollback (with_pre_check m (some check)) w (
          go_on race auto_rollback
            (traced (with_pre_check m (some check)))
            (judgement (race (codes "Pre-check timed out") (noting pre_check check) ([], w)).0)
            (pre_check ∷ [], before_up (some check) w))
  unfolding go_on
  go_on-Traced auto_rollback m check w = go r.success refl
    where
      r : CheckResult
      r = judgement (race (codes "Pre-check timed out") (noting pre_check check) ([], w)).0

      go :
          (b : Bool)
          → r.success ≡ b
          → Traced auto_rollback (with_pre_check m (some check)) w (
              (if b
                  then execute race auto_rollback (traced (with_pre_check m (some check))) (some r)
                  else pure (pre_check_failed r))
                (pre_check ∷ [], before_up (some check) w))
      go true passed = Executed-Traced auto_rollback (with_pre_check m (some check)) w _ passed (
          execute-Executed auto_rollback (with_pre_check m (some check)) (some r) (pre_check ∷ [])
            (before_up (some check) w))
      go false failed = inl (record {
        outcome = pre_check_failed r;
        returns = refl;
        logged = refl;
        verdict = refl;
        executed = sym failed;
        pre_result = refl;
        post_result = λ e. absurd (cc);
      })

  checked-Traced :
      (auto_rollback : Bool) (m : Migration W) (w : W)
      → Traced auto_rollback m w (checked race auto_rollback (traced m) ([], w))
  unfolding checked
  checked-Traced auto_rollback m w = go m.pre_check
    where
      go :
          (check : Option (Exec W CheckResult))
          → Traced auto_rollback
              (with_pre_check m check)
              w
              (checked race auto_rollback (traced (with_pre_check m check)) ([], w))
      go none =
          Executed-Traced auto_rollback (with_pre_check m none) w _ refl
            (execute-Executed auto_rollback (with_pre_check m none) none [] w)
      go (some check) =
          rw (run_check-Ends race calls_once (codes "Pre-check timed out") pre_check check [] w)
            (go_on-Traced auto_rollback m check w)

  -- With the checks enabled, the pre-check is called first if there is one. If it fails, or throws or
  -- runs out of its time, nothing else is called. If it succeeds, or there is none, `up` is called in
  -- the state that it left. Either that throws, and its error is thrown on; or the post-check, if
  -- there is one, is called in the state that `up` left, and then `down` exactly if the post-check
  -- failed, automatic rollback is on and there is a `down`. The outcome has the results of the checks,
  -- and success is reported exactly if `up` was executed and no post-check failed. Assumed is that
  -- the race with the timer calls a check once.
  pub run_with_sanity_check-Traced :
      (auto_rollback : Bool) (m : Migration W) (w : W)
      → Traced auto_rollback m w (
          run_with_sanity_check race
            (record { enabled = true; auto_rollback = auto_rollback })
            (traced m)
            ([], w))
  unfolding run_with_sanity_check
  run_with_sanity_check-Traced auto_rollback m w = checked-Traced auto_rollback m w
