-- ===== src/MariaDb/Checks.antt =====
-- mariadb-adapter.js: extractSanitySection and executeSanityCheck, the SQL checks of a migration. The
-- query of a check, which tells how many rows came back, is a parameter.
pub mod Held
use db_migrate.SanityChecker.{CheckResult}
use db_migrate.MariaDb.{Result, ok, err, Exec}
use db_migrate.MariaDb.Files.Annotations.{not_empty, is_empty}
use db_migrate.MariaDb.Files.Sections.{
  after_word, after_mark, after_spaces, after_line_break, ◌>>=◌,
}
use db_migrate.Base.{
  ℕ, zero, suc, ◌+◌, ◌-◌, ◌*◌, ◌<◌, Bool, true, false, not, ◌||◌, Option, none, some, List, [], ◌∷◌,
  ◌++◌, map, ◌==◌, if◌then◌else◌, is_some, take, filter, Text, codes, starts_with, split_on,
  join_with, is_space, trim_start, trim,
}

-- `--\s*\+sanity\s+<name>\s*\n`; the name is given in lower case
after_open : Text → Text → Option Text
unfolding after_mark after_spaces after_word after_line_break
after_open name s = do
  rest ← after_mark (codes "+sanity") s
  word ← after_spaces rest
  behind ← after_word name word
  after_line_break behind

-- the three ways to close a section
pub data SanityClose : Type 0 where
  by_name by_end_check by_next : SanityClose

closes_here : SanityClose → Text → Text → Bool
unfolding after_mark after_spaces after_word
closes_here by_name name s =
    is_some
      (do rest ← after_mark (codes "-sanity") s; word ← after_spaces rest; after_word name word)
closes_here by_end_check name s = is_some (after_mark (codes "end_check") s)
closes_here by_next name s =
    is_some (after_mark (codes "+migrate") s) || is_some (after_mark (codes "+sanity") s)

-- `([\s\S]*?)` up to the close; the end of the text is also one that is by the next marker
body_until : SanityClose → Text → Text → Option Text
unfolding closes_here
body_until by_name name [] = none
body_until by_end_check name [] = none
body_until by_next name [] = some []
body_until k name (c ∷ s) =
    let rest = body_until k name s in
    if closes_here k name (c ∷ s)
    then some []
    else elim rest [ none ↦ none | some body ↦ some (c ∷ body) ]

-- the group of the first match
sanity_body : SanityClose → Text → Text → Option Text
unfolding after_open body_until
sanity_body k name [] = none
sanity_body k name (c ∷ s) =
    let later = sanity_body k name s in
    elim (after_open name (c ∷ s) >>= body_until k name) [ none ↦ later | some body ↦ some body ]

-- `extractSanitySection(content, sectionName)`
unfoldable pub extract_sanity_section : Text → Text → Option Text
unfolding sanity_body trim not_empty
extract_sanity_section content name = elim (sanity_body by_name name content) [
  | some body ↦ some (trim body)
  | none ↦ elim (sanity_body by_end_check name content) [
    | some body ↦ some (trim body)
    | none ↦ elim (sanity_body by_next name content) [
      | some body ↦ not_empty (trim body)
      | none ↦ none
    ]
  ]
]

-- a query that must give rows, or none
pub data RowCheck : Type 0 where
  expect_rows expect_no_rows : Text → RowCheck

-- `.replace(/;$/, '')`
without_semicolon : Text → Text
without_semicolon [] = []
without_semicolon (c ∷ []) = if c == b';' then [] else c ∷ []
without_semicolon (c ∷ d ∷ s) = c ∷ without_semicolon (d ∷ s)

-- `/^--\s*<directive>:\s*(.+)$/i`, then `.trim().replace(/;$/, '')`
directive : Text → Text → Option Text
unfolding after_mark not_empty trim_start trim without_semicolon
directive word line = do
  rest ← after_mark word line
  sql ← not_empty (trim_start rest)
  some (without_semicolon (trim sql))

-- what a line is: a directive, raw SQL, or nothing
pub data Line : Type 0 where
  checked : RowCheck → Line
  raw nothing : Line

unfoldable pub line_of : Text → Line
unfolding directive is_empty starts_with trim
line_of line =
    let t = trim line in
    if is_empty t then nothing else elim (directive (codes "expect_rows:") t) [
      | some sql ↦ checked (expect_rows sql)
      | none ↦ elim (directive (codes "expect_no_rows:") t) [
        | some sql ↦ checked (expect_no_rows sql)
        | none ↦ if starts_with t (codes "--") then nothing else raw
      ]
    ]

directives : List Text → List RowCheck
unfolding line_of
directives [] = []
directives (line ∷ lines) = elim (line_of line) [
  | checked c ↦ c ∷ directives lines
  | _ ↦ directives lines
]

-- `rawSQLBuffer`
raw_lines : List Text → List Text
unfolding line_of
raw_lines [] = []
raw_lines (line ∷ lines) = elim (line_of line) [
  | raw ↦ line ∷ raw_lines lines
  | _ ↦ raw_lines lines
]

-- the raw SQL cut at its semicolons
statements : List Text → List RowCheck
unfolding split_on join_with trim is_empty
statements lines =
    map expect_rows
      (filter (λ s. not (is_empty s)) (map trim (split_on b';' (join_with b'\n' lines))))

-- the queries of a section, in the order they are run
unfoldable pub checks_of : Text → List RowCheck
unfolding directives raw_lines statements split_on
checks_of section =
    let lines = split_on b'\n' section in directives lines ++ statements (raw_lines lines)

-- `sql.replace(/\s+/g, ' ')`: of a run of white space, its last character is kept as a space
squeeze : Text → Text
unfolding is_space
squeeze [] = []
squeeze (c ∷ []) = (if is_space c then b' ' else c) ∷ []
squeeze (c ∷ d ∷ s) =
    let rest = squeeze (d ∷ s) in
    if is_space c then (if is_space d then rest else b' ' ∷ rest) else c ∷ rest

abbrev pub passed_check : CheckResult
passed_check = record { success = true; error = none }

abbrev pub failed_check : Text → CheckResult
failed_check message = record { success = false; error = some message }

-- Does the number of rows satisfy the check? The number is left out of the message.
unfoldable pub verdict_on : RowCheck → ℕ → Option Text
unfolding squeeze
verdict_on (expect_rows sql) zero =
    some (codes "Sanity check failed: Query returned no rows - " ++ take 200 (squeeze sql))
verdict_on (expect_rows sql) (suc n) = none
verdict_on (expect_no_rows sql) zero = none
verdict_on (expect_no_rows sql) (suc n) =
    some (codes "EXPECT_NO_ROWS failed: Query returned row(s) - " ++ take 200 (squeeze sql))

abbrev pub query_of : RowCheck → Text
query_of (expect_rows sql) = sql
query_of (expect_no_rows sql) = sql

abbrev pub error_before : RowCheck → Text
error_before (expect_rows sql) = codes "Sanity check SQL error: "
error_before (expect_no_rows sql) = codes "EXPECT_NO_ROWS SQL error: "

-- with its verdict: a failure is returned, or the rest is run
abbrev pub after_verdict : {W : Type 0} → Option Text → W → (W → CheckResult × W) → CheckResult × W
after_verdict none w rest = rest w
after_verdict (some message) w rest = (failed_check message, w)

module _ {W : Type 0} (rows_of : Text → Exec W ℕ) where
  -- after one query
  unfoldable pub check_step : RowCheck → Result ℕ × W → (W → CheckResult × W) → CheckResult × W
  unfolding verdict_on
  check_step c (err e, w) rest = (failed_check (error_before c ++ e.message), w)
  check_step c (ok n, w) rest = after_verdict (verdict_on c n) w rest

  unfoldable pub run_checks : List RowCheck → W → CheckResult × W
  unfolding check_step
  run_checks [] w = (passed_check, w)
  run_checks (c ∷ checks) w = check_step c (rows_of (query_of c) w) (run_checks checks)

  -- `executeSanityCheck(connection, sanitySection)`, which never throws
  unfoldable pub execute_sanity_check : Text → Exec W CheckResult
  unfolding checks_of run_checks
  execute_sanity_check section w = let out = run_checks (checks_of section) w in (ok out.0, out.1)
