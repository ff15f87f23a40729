-- ===== src/Fixtures.antt =====
-- src/core/fixture-expectations.js: checkFileExpectation and checkSanityExpectation, the verdict on a
-- fixture whose header says how it is meant to fail. A message is left as what it names.
pub mod Verdicts
mod Tests
use db_migrate.SanityChecker.{Outcome}
use db_migrate.Base.{
  ◌+◌, ◌-◌, Bool, true, false, not, ◌||◌, Option, none, some, List, [], ◌∷◌, ◌++◌, map,
  if◌then◌else◌, filter, Text, codes, includes, contains, truthy, sort_by, text_lt,
}

-- an entry of `errors`, with its code and its type
pub record FixtureError : Type 0 where
  pub code : Option Text
  pub type : Option Text

pub record FixtureResult : Type 0 where
  pub valid : Bool
  pub errors : List FixtureError

-- why a fixture is refused
pub data Complaint : Type 0 where
  should_be_valid : List Text → Complaint
  should_fail : List Text → Complaint
  differs : List Text → List Text → Complaint  -- missing, and unexpected
  sanity_failed : Option Text → Complaint
  should_roll_back : Complaint
  not_rolled_back : Bool → Option Text → Complaint
  still_recorded : Complaint

-- `{ ok: false, message }`, or none for `{ ok: true, message: null }`
abbrev pub Verdict : Type 0
Verdict = Option Complaint

-- `e.code || e.type`
unfoldable pub code_or_type : FixtureError → Option Text
code_or_type e = elim (truthy e.code) [ some c ↦ some c | none ↦ truthy e.type ]

-- `[...new Set(list)]`, without absent ones
unfoldable pub distinct : List Text → List (Option Text) → List Text
unfolding contains
distinct seen [] = seen
distinct seen (none ∷ list) = distinct seen list
distinct seen (some c ∷ list) = distinct (if contains seen c then seen else seen ++ c ∷ []) list

unfoldable pub not_behind : Text → Text → Bool
unfolding text_lt
not_behind a b = not (text_lt b a)

-- the codes of a result, sorted
unfoldable pub actual_codes : FixtureResult → List Text
unfolding distinct code_or_type not_behind
actual_codes r = sort_by not_behind (distinct [] (map code_or_type r.errors))

-- `xs.filter(c => !ys.includes(c))`
unfoldable pub missing_from : List Text → List Text → List Text
unfolding contains
missing_from xs ys = filter (λ c. not (contains ys c)) xs

unfoldable pub compared : List Text → List Text → Verdict
compared [] [] = none
compared (m ∷ missing) unexpected = some (differs (m ∷ missing) unexpected)
compared [] (u ∷ unexpected) = some (differs [] (u ∷ unexpected))

-- `checkFileExpectation(fileResult, expected)`
unfoldable pub check_file_expectation : FixtureResult → Option (List Text) → Verdict
unfolding actual_codes missing_from compared
check_file_expectation r none = if r.valid then none else some (should_be_valid (actual_codes r))
check_file_expectation r (some expected) =
    let actual = actual_codes r in
    if r.valid
    then some (should_fail expected)
    else compared (missing_from expected actual) (missing_from actual expected)

-- `checkSanityExpectation(sr, expected, { stillPending })`; `rollback` is the test of `expected`
unfoldable pub check_sanity_expectation : Outcome → Bool → Bool → Verdict
check_sanity_expectation sr false still_pending =
    if sr.success then none else some (sanity_failed sr.error)
check_sanity_expectation sr true still_pending =
    if sr.success
    then some should_roll_back
    else if not sr.rolled_back
    then some (not_rolled_back sr.critical sr.error)
    else if not still_pending
    then some still_recorded
    else none
