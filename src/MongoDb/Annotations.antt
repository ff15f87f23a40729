-- ===== src/MongoDb/Annotations.antt =====
-- mongodb-adapter.js: parseFileAnnotations, parseOperationTimeoutAnnotation, getOperationTimeoutMs
-- and resolveOperationTimeout, the time limit of one migration.
pub mod Bounds
use db_migrate.MariaDb.{Result, ok, err, new_error}
use db_migrate.MariaDb.Files.Sections.{after_word, ◌>>=◌}
use db_migrate.MariaDb.Files.Annotations.{
  not_empty, is_yes, is_empty, is_passed, code_list, parse_whole_number,
}
use db_migrate.Base.{
  ℕ, zero, suc, ◌+◌, ◌-◌, ◌*◌, ◌<◌, Bool, false, not, ◌||◌, Option, none, some, List, [], ◌∷◌, ◌++◌,
  if◌then◌else◌, Text, codes, starts_with, split_on, trim_start, trim,
}

pub record MongoAnnotations : Type 0 where
  pub allow_dangerous : Bool
  pub allow_forbidden : Bool
  pub allowed_codes : List Text
  pub approved_by : Option Text
  pub operation_timeout_ms : Option Text

abbrev pub no_annotations : MongoAnnotations
no_annotations = record {
  allow_dangerous = false;
  allow_forbidden = false;
  allowed_codes = [];
  approved_by = none;
  operation_timeout_ms = none;
}

-- `\/\/\s*@<key>\s*:\s*(.+)` at the start of a text, trimmed
key_here : Text → Text → Option Text
unfolding after_word trim_start not_empty trim
key_here key s = do
  mark ← after_word (codes "//") s
  rest ← after_word (b'@' ∷ key) (trim_start mark)
  value ← after_word (codes ":") (trim_start rest)
  group ← not_empty (trim_start value)
  some (trim group)

-- `t.match(…)`: the first place where it matches
find_key : Text → Text → Option Text
unfolding key_here
find_key key [] = none
find_key key (c ∷ s) =
    let rest = find_key key s in
    elim (key_here key (c ∷ s)) [ none ↦ rest | some value ↦ some value ]

-- the annotations that one comment line adds
read_line : Text → MongoAnnotations → MongoAnnotations
unfolding find_key is_yes is_empty code_list
read_line t a = record {
  allow_dangerous = elim (find_key (codes "allow-dangerous") t) [
    | none ↦ a.allow_dangerous
    | some v ↦ is_yes v
  ];
  allow_forbidden = elim (find_key (codes "allow-forbidden") t) [
    | none ↦ a.allow_forbidden
    | some v ↦ is_yes v
  ];
  allowed_codes = elim (find_key (codes "allow") t) [
    | none ↦ a.allowed_codes
    | some v ↦ a.allowed_codes ++ code_list v
  ];
  approved_by = elim (find_key (codes "approved-by") t) [
    | none ↦ a.approved_by
    | some v ↦ if is_empty v then a.approved_by else some v
  ];
  operation_timeout_ms = elim (find_key (codes "operation-timeout-ms") t) [
    | none ↦ a.operation_timeout_ms
    | some v ↦ some v
  ];
}

-- the loop over `content.split('\n')`
read_lines : List Text → MongoAnnotations → MongoAnnotations
read_lines [] a = a
read_lines (line ∷ lines) a =
    let t = trim line in
    let passed = read_lines lines a in
    let more = read_lines lines (read_line t a) in
    if is_passed t then passed else if not (starts_with t (codes "//")) then a else more

-- `parseFileAnnotations(content)`
unfoldable pub parse_file_annotations : Text → MongoAnnotations
unfolding read_lines read_line is_passed starts_with trim split_on
parse_file_annotations content = read_lines (split_on b'\n' content) no_annotations

-- the setting that a limit comes from
pub data TimeoutSource : Type 0 where
  of_annotation of_config : TimeoutSource

pub record OperationTimeout : Type 0 where
  pub timeout_ms : Option ℕ
  pub source : TimeoutSource

-- `value || null`
unfoldable pub unless_zero : ℕ → Option ℕ
unless_zero zero = none
unless_zero (suc n) = some (suc n)

-- `getOperationTimeoutMs()`: absent is `none`, a value that is no whole number the inner `none`
unfoldable pub get_operation_timeout_ms : Option (Option ℕ) → Result (Option ℕ)
unfolding unless_zero
get_operation_timeout_ms none = ok none
get_operation_timeout_ms (some none) = err (new_error (codes "ddlSafety.operationTimeoutMs"))
get_operation_timeout_ms (some (some value)) = ok (unless_zero value)

unfoldable pub timeout_of_config : Result (Option ℕ) → Result OperationTimeout
timeout_of_config (ok value) = ok (record { timeout_ms = value; source = of_config })
timeout_of_config (err e) = err e

-- the annotation's value
unfoldable pub timeout_of_annotation : Option ℕ → Result OperationTimeout
unfolding unless_zero
timeout_of_annotation none = err (new_error (codes "@operation-timeout-ms"))
timeout_of_annotation (some value) =
    ok (record { timeout_ms = unless_zero value; source = of_annotation })

-- `resolveOperationTimeout(content)`
unfoldable pub resolve_operation_timeout : Option (Option ℕ) → Text → Result OperationTimeout
unfolding parse_file_annotations parse_whole_number get_operation_timeout_ms
resolve_operation_timeout config content =
    elim ((parse_file_annotations content).operation_timeout_ms) [
      | some raw ↦ timeout_of_annotation (parse_whole_number raw)
      | none ↦ timeout_of_config (get_operation_timeout_ms config)
    ]
