-- ===== src/SanityChecker.antt =====
-- src/core/sanity-checker.js, runWithSanityCheck: a migration between its two checks, and its
-- automatic rollback. The race of a check against its timer is a parameter.
pub mod Trace
pub mod Effect
mod Tests
use db_migrate.MariaDb.{
  Result, ok, err, Error, Exec, pure, throw, ◌>>=◌, ◌>>◌, catch, resume, rescue,
}
use db_migrate.Base.{◌-◌, Bool, true, false, Option, none, some, if◌then◌else◌, Text, codes}

pub record CheckResult : Type 0 where
  pub success : Bool
  pub error : Option Text

-- `up`, `down`, `preCheck` and `postCheck`, called with the context
pub record Migration (W : Type 0) : Type 0 where
  pub up : Exec W (Unit {0})
  pub down : Option (Exec W (Unit {0}))
  pub pre_check : Option (Exec W CheckResult)
  pub post_check : Option (Exec W CheckResult)

pub record Options : Type 0 where
  pub enabled : Bool
  pub auto_rollback : Bool

pub data Phase : Type 0 where
  in_pre_check in_post_check in_rollback : Phase

-- the object that is returned; its times are left out
pub record Outcome : Type 0 where
  pub success : Bool
  pub skipped : Bool
  pub pre_check_result : Option CheckResult
  pub post_check_result : Option CheckResult
  pub migration_executed : Bool
  pub rolled_back : Bool
  pub phase : Option Phase
  pub error : Option Text
  pub critical : Bool

abbrev pub succeeded : Option CheckResult → Option CheckResult → Outcome
succeeded pre post = record {
  success = true;
  skipped = false;
  pre_check_result = pre;
  post_check_result = post;
  migration_executed = true;
  rolled_back = false;
  phase = none;
  error = none;
  critical = false;
}

abbrev pub skipped_outcome : Outcome
skipped_outcome = record (succeeded none none) { skipped = true; migration_executed = false }

abbrev pub failed_directly : Error → Outcome
failed_directly e = record (succeeded none none) {
  success = false;
  migration_executed = false;
  error = some e.message;
}

abbrev pub pre_check_failed : CheckResult → Outcome
pre_check_failed r = record (succeeded (some r) none) {
  success = false;
  migration_executed = false;
  phase = some in_pre_check;
  error = r.error;
}

abbrev pub post_check_failed : Option CheckResult → CheckResult → Outcome
post_check_failed pre r = record (succeeded pre (some r)) {
  success = false;
  phase = some in_post_check;
  error = r.error;
}

abbrev pub rollback_failed : Option CheckResult → CheckResult → Error → Outcome
rollback_failed pre r e = record (succeeded pre (some r)) {
  success = false;
  phase = some in_rollback;
  error = some e.message;
  critical = true;
}

module _ {W : Type 0} (race : Text → Exec W CheckResult → Exec W CheckResult) where
  -- `runWithTimeout(…).catch(…)`
  pub run_check : Text → Exec W CheckResult → Exec W CheckResult
  run_check message check =
      catch (race message check) λ e. pure (record { success = false; error = some e.message })

  -- phase 4
  pub roll_back : Option (Exec W (Unit {0})) → Option CheckResult → CheckResult → Exec W Outcome
  roll_back none pre r = pure (post_check_failed pre r)
  roll_back (some down) pre r =
      catch (down >> pure (record (post_check_failed pre r) { rolled_back = true }))
        λ e. pure (rollback_failed pre r e)

  -- after the post-check
  pub judge : Bool → Option (Exec W (Unit {0})) → Option CheckResult → CheckResult → Exec W Outcome
  judge auto_rollback down pre r =
      if r.success
      then pure (succeeded pre (some r))
      else roll_back (if auto_rollback then down else none) pre r

  -- phase 3
  abbrev pub after_post :
      Bool → Migration W → Option CheckResult → Option (Exec W CheckResult) → Exec W Outcome
  after_post auto_rollback m pre none = pure (succeeded pre none)
  after_post auto_rollback m pre (some check) = do
    r ← run_check (codes "Sanity check timed out") check
    judge auto_rollback m.down pre r

  pub after_up : Bool → Migration W → Option CheckResult → Exec W Outcome
  after_up auto_rollback m pre = after_post auto_rollback m pre m.post_check

  -- phase 2; an error of the migration is thrown on
  pub execute : Bool → Migration W → Option CheckResult → Exec W Outcome
  execute auto_rollback m pre = do m.up; after_up auto_rollback m pre

  pub go_on : Bool → Migration W → CheckResult → Exec W Outcome
  go_on auto_rollback m r =
      if r.success then execute auto_rollback m (some r) else pure (pre_check_failed r)

  -- phase 1
  abbrev pub after_pre : Bool → Migration W → Option (Exec W CheckResult) → Exec W Outcome
  after_pre auto_rollback m none = execute auto_rollback m none
  after_pre auto_rollback m (some check) = do
    r ← run_check (codes "Pre-check timed out") check
    go_on auto_rollback m r

  pub checked : Bool → Migration W → Exec W Outcome
  checked auto_rollback m = after_pre auto_rollback m m.pre_check

  unchecked : Migration W → Exec W Outcome
  unchecked m = catch (m.up >> pure skipped_outcome) λ e. pure (failed_directly e)

  pub run_with_sanity_check : Options → Migration W → Exec W Outcome
  run_with_sanity_check options m =
      if options.enabled then checked options.auto_rollback m else unchecked m
