-- ===== src/SanityChecker/Effect.antt =====
-- sanity-checker.js, runWithSanityCheck: what it does to one observation of the state, given what
-- the migration's functions do to it.
use db_migrate.MariaDb.{Result, ok, err, Exec, pure, ◌>>=◌, resume, rescue}
use db_migrate.MariaDb.Keeps.{Keeps, After, Sets}
use db_migrate.SanityChecker.{
  CheckResult, Migration, Outcome, run_check, roll_back, judge, after_up, execute, go_on, checked,
  run_with_sanity_check, post_check_failed, rollback_failed, succeeded, pre_check_failed,
  after_post, after_pre,
}
use db_migrate.Base.{
  ◌≡◌, refl, ap, ◌∙◌, Bool, true, false, Option, none, some, if◌then◌else◌, Text, codes,
}

-- what an outcome stands for: `g` is what the migration does, `h` what its rollback does
abbrev pub effect : {V : Type 0} (g h : V → V) → Outcome → V → V
effect g h o b = if o.rolled_back then h (g b) else if o.migration_executed then g b else b

-- a check, where there is one, leaves the observation
abbrev pub KeepsIf : {W V : Type 0} → (W → V) → Option (Exec W CheckResult) → Type 0
KeepsIf f none = Unit
KeepsIf f (some check) = Keeps f check

module _ {W V : Type 0} (f : W → V) (g h : V → V) where
  abbrev pub SetsIf : Option (Exec W (Unit {0})) → Type 0
  SetsIf none = Unit
  SetsIf (some down) = Sets f h down

  -- an outcome that tells what happened; a thrown error leaves the observation
  abbrev pub Lands : V → Result Outcome × W → Type 0
  Lands b (ok o, v) = f v ≡ effect g h o b
  Lands b (err e, v) = f v ≡ b

  module _ (race : Text → Exec W CheckResult → Exec W CheckResult)
      (race_keeps : (message : Text) (check : Exec W CheckResult)
        → Keeps f check
        → Keeps f (race message check)) where
    -- a check never throws
    checked-then :
        (P : Result Outcome × W → Type 0) (k : CheckResult → Exec W Outcome) (message : Text)
        (check : Exec W CheckResult) (c : V) (v : W)
        → Keeps f check
        → f v ≡ c
        → ((r : CheckResult) (u : W) → f u ≡ c → P (k r u))
        → P ((run_check race message check >>= k) v)
    unfolding run_check
    checked-then P k message check c v keeps at go_on_ =
        split (race message check v) (race_keeps message check keeps v ∙ at)
      where
        split :
            (out : Result CheckResult × W)
            → f out.1 ≡ c
            → P (
                resume k
                  (rescue (λ e. pure (record { success = false; error = some e.message })) out))
        split (ok r, u) e = go_on_ r u e
        split (err x, u) e = go_on_ (record { success = false; error = some x.message }) u e

    roll_back-Lands :
        (down : Option (Exec W (Unit {0}))) (pre : Option CheckResult) (r : CheckResult) (b : V)
        (v : W)
        → SetsIf down
        → f v ≡ g b
        → Lands b (roll_back race down pre r v)
    unfolding roll_back
    roll_back-Lands none pre r b v sets at = at
    roll_back-Lands (some down) pre r b v sets at = split (down v) (sets v)
      where
        split :
            (out : Result (Unit {0}) × W)
            → After f h (f v) out
            → Lands b (
                rescue
                  (λ e. pure (rollback_failed pre r e))
                  (resume
                    (λ _. pure (record (post_check_failed pre r) { rolled_back = true }))
                    out))
        split (ok tt, u) e = e ∙ ap h at
        split (err x, u) e = e ∙ at

    judge-Lands :
        (auto : Bool) (down : Option (Exec W (Unit {0}))) (pre : Option CheckResult)
        (r : CheckResult) (b : V) (v : W)
        → SetsIf down
        → f v ≡ g b
        → Lands b (judge race auto down pre r v)
    unfolding judge
    judge-Lands auto down pre r b v sets at = split r.success auto
      where
        split :
            (passed auto : Bool)
            → Lands b (
                (if passed
                    then pure (succeeded pre (some r))
                    else roll_back race (if auto then down else none) pre r)
                  v)
        split true a = at
        split false true = roll_back-Lands down pre r b v sets at
        split false false = roll_back-Lands none pre r b v tt at

    module _ (auto : Bool) (m : Migration W) (ups : Sets f g m.up) (downs : SetsIf m.down)
        (posts : KeepsIf f m.post_check) (pres : KeepsIf f m.pre_check) where
      after_up-Lands :
          (pre : Option CheckResult) (b : V) (v : W)
          → f v ≡ g b
          → Lands b (after_up race auto m pre v)
      unfolding after_up
      after_up-Lands pre b v at = split m.post_check posts
        where
          split :
              (post : Option (Exec W CheckResult))
              → KeepsIf f post
              → Lands b (after_post race auto m pre post v)
          split none keeps = at
          split (some check) keeps =
              checked-then (Lands b) (judge race auto m.down pre) (codes "Sanity check timed out")
                check (g b) v keeps at (λ r u e. judge-Lands auto m.down pre r b u downs e)

      execute-Lands :
          (pre : Option CheckResult) (b : V) (v : W) → f v ≡ b → Lands b (execute race auto m pre v)
      unfolding execute
      execute-Lands pre b v at = split (m.up v) (ups v)
        where
          split :
              (out : Result (Unit {0}) × W)
              → After f g (f v) out
              → Lands b (resume (λ _. after_up race auto m pre) out)
          split (ok tt, u) e = after_up-Lands pre b u (e ∙ ap g at)
          split (err x, u) e = e ∙ at

      go_on-Lands : (r : CheckResult) (b : V) (v : W) → f v ≡ b → Lands b (go_on race auto m r v)
      unfolding go_on
      go_on-Lands r b v at = split r.success
        where
          split :
              (passed : Bool)
              → Lands b
                  ((if passed then execute race auto m (some r) else pure (pre_check_failed r)) v)
          split true = execute-Lands (some r) b v at
          split false = at

      checked-Lands : (b : V) (v : W) → f v ≡ b → Lands b (checked race auto m v)
      unfolding checked
      checked-Lands b v at = split m.pre_check pres
        where
          split :
              (pre : Option (Exec W CheckResult))
              → KeepsIf f pre
              → Lands b (after_pre race auto m pre v)
          split none keeps = execute-Lands none b v at
          split (some check) keeps =
              checked-then (Lands b) (go_on race auto m) (codes "Pre-check timed out") check b v
                keeps at (λ r u e. go_on-Lands r b u e)

      -- A run with checks that returns an outcome changes the observation as the outcome tells: by
      -- the migration and its rollback if it was rolled back, by the migration alone if it was
      -- executed and not rolled back, and not at all otherwise, nor if the migration threw. Assumed
      -- is that the checks, and the race of one against its timer, leave the observation.
      pub run_with_sanity_check-Lands :
          (v : W)
          → Lands
              (f v)
              (run_with_sanity_check race (record { enabled = true; auto_rollback = auto }) m v)
      unfolding run_with_sanity_check
      run_with_sanity_check-Lands v = checked-Lands (f v) v refl
