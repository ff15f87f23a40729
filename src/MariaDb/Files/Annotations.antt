-- ===== src/MariaDb/Files/Annotations.antt =====
-- mariadb-adapter.js: parseFileAnnotations, parseWholeNumber and resolveStatementTimeout.
pub mod Header
use db_migrate.MariaDb.{Result, ok, err, new_error}
use db_migrate.MariaDb.LockGuard.{Timeout}
use db_migrate.MariaDb.Files.Sections.{after_word, after_mark, ◌>>=◌}
use db_migrate.Base.{
  ℕ, ◌+◌, ◌-◌, ◌*◌, ◌<◌, Bool, true, false, not, ◌&&◌, ◌||◌, Option, none, some, List, [], ◌∷◌,
  ◌++◌, map, leb, if◌then◌else◌, filter, Text, codes, starts_with, includes, contains, split_on,
  trim_start, trim, upper,
}

pub record Annotations : Type 0 where
  pub allow_dangerous : Bool
  pub allow_forbidden : Bool
  pub allowed_codes : List Text
  pub approved_by : Option Text
  pub statement_timeout_sec : Option Text
  pub large_table_ok : Bool

abbrev pub no_annotations : Annotations
no_annotations = record {
  allow_dangerous = false;
  allow_forbidden = false;
  allowed_codes = [];
  approved_by = none;
  statement_timeout_sec = none;
  large_table_ok = false;
}

-- `(.+)`, of a text that has no line break
unfoldable pub not_empty : Text → Option Text
not_empty [] = none
not_empty (c ∷ s) = some (c ∷ s)

-- `--\s*@<key>\s*:\s*(.+)` at the start of a text, trimmed
key_here : Text → Text → Option Text
unfolding after_mark after_word trim_start not_empty trim
key_here key s = do
  rest ← after_mark (b'@' ∷ key) s
  value ← after_word (codes ":") (trim_start rest)
  group ← not_empty (trim_start value)
  some (trim group)

-- `t.match(…)`: the first place where it matches
find_key : Text → Text → Option Text
unfolding key_here
find_key key [] = none
find_key key (c ∷ s) =
    let rest = find_key key s in
    elim (key_here key (c ∷ s)) [ none ↦ rest | some value ↦ some value ]

unfoldable pub lower : ℕ → ℕ
lower c = if leb b'A' c && leb c b'Z' then c + 32 else c

-- `['true', 'yes', '1'].includes(v.toLowerCase())`
unfoldable pub is_yes : Text → Bool
unfolding lower contains
is_yes v = contains (codes "true" ∷ codes "yes" ∷ codes "1" ∷ []) (map lower v)

unfoldable pub is_empty : Text → Bool
is_empty [] = true
is_empty (c ∷ s) = false

-- `.split(',').map(c => c.trim().toUpperCase()).filter(Boolean)`
unfoldable pub code_list : Text → List Text
unfolding is_empty trim upper split_on
code_list v = filter (λ c. not (is_empty c)) (map (λ c. map upper (trim c)) (split_on b',' v))

-- the annotations that one comment line adds
read_line : Text → Annotations → Annotations
unfolding find_key is_yes is_empty code_list
read_line t a = record {
  allow_dangerous = elim (find_key (codes "allow-dangerous") t) [
    | none ↦ a.allow_dangerous
    | some v ↦ is_yes v
  ];
  allow_forbidden = elim (find_key (codes "allow-forbidden") t) [
    | none ↦ a.allow_forbidden
    | some v ↦ is_yes v
  ];
  allowed_codes = elim (find_key (codes "allow") t) [
    | none ↦ a.allowed_codes
    | some v ↦ a.allowed_codes ++ code_list v
  ];
  approved_by = elim (find_key (codes "approved-by") t) [
    | none ↦ a.approved_by
    | some v ↦ if is_empty v then a.approved_by else some v
  ];
  statement_timeout_sec = elim (find_key (codes "statement-timeout-sec") t) [
    | none ↦ a.statement_timeout_sec
    | some v ↦ some v
  ];
  large_table_ok = elim (find_key (codes "large-table-ok") t) [
    | none ↦ a.large_table_ok
    | some v ↦ is_yes v
  ];
}

-- a blank line, or one inside a block comment: `continue`
unfoldable pub is_passed : Text → Bool
unfolding is_empty starts_with
is_passed t = is_empty t || starts_with t (codes "/*") || starts_with t (codes "*")

-- the loop over `content.split('\n')`
read_lines : List Text → Annotations → Annotations
read_lines [] a = a
read_lines (line ∷ lines) a =
    let t = trim line in
    let passed = read_lines lines a in
    let more = read_lines lines (read_line t a) in
    if is_passed t then passed else if not (starts_with t (codes "--")) then a else more

-- `parseFileAnnotations(content)`
unfoldable pub parse_file_annotations : Text → Annotations
unfolding read_lines read_line is_passed starts_with trim split_on
parse_file_annotations content = read_lines (split_on b'\n' content) no_annotations

-- `/^\d+$/` and `Number`
digits_value : ℕ → Text → Option ℕ
digits_value n [] = some n
digits_value n (c ∷ s) =
    if leb b'0' c && leb c b'9' then digits_value (n * 10 + (c - b'0')) s else none

unfoldable pub parse_whole_number : Text → Option ℕ
unfolding digits_value trim not_empty
parse_whole_number raw = do s ← not_empty (trim raw); digits_value 0 s

-- `resolveStatementTimeout(content)`. Of the config's value, absent is `none`; every value that is
-- no whole number is the inner `none`.
unfoldable pub resolve_statement_timeout : Option (Option ℕ) → Text → Result Timeout
unfolding parse_file_annotations parse_whole_number
resolve_statement_timeout config content =
    elim ((parse_file_annotations content).statement_timeout_sec) [
      | some raw ↦ elim (parse_whole_number raw) [
        | none ↦ err (new_error (codes "@statement-timeout-sec"))
        | some value ↦ ok (record { sec = some value; source = codes "@statement-timeout-sec" })
      ]
      | none ↦ elim config [
        | none ↦ ok (record { sec = none; source = codes "ddlSafety.statementTimeoutSec" })
        | some none ↦ err (new_error (codes "ddlSafety.statementTimeoutSec"))
        | some (some value) ↦
            ok (record { sec = some value; source = codes "ddlSafety.statementTimeoutSec" })
      ]
    ]
