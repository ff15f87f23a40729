-- ===== src/RepeatableRun.antt =====
-- src/core/repeatable-runner.js: processDelimiterSQL, the reading of the checksum table, and
-- runMariaDB. The connection, the validator, the resolution of generated passwords and the lookup of
-- existing accounts are parameters.
pub mod Current
mod Tests
use db_migrate.RepeatableStatus.{
  RepeatableFile, Stored, Reason, new_file, checksum_changed, stored_by,
}
use db_migrate.MariaDb.{Result, ok, err, Error, Exec, pure, ◌>>=◌, ◌>>◌, resume}
use db_migrate.MariaDb.Files.Annotations.{lower, is_empty}
use db_migrate.MariaDb.Files.Sections.{after_word, after_spaces}
use db_migrate.Base.{
  ◌+◌, ◌-◌, ◌*◌, Bool, true, false, not, ◌&&◌, ◌||◌, Option, none, some, List, [], ◌∷◌, ◌++◌, map,
  ◌==◌, if◌then◌else◌, is_some, length, take, filter, any, Text, codes, text_eq, ends_with,
  split_on, is_space, trim_start, trim, reverse,
}

-- `DELIMITER\s+\S+` at the start of a text
delimiter_here : Text → Bool
unfolding after_word after_spaces is_empty
delimiter_here s = elim (after_word (codes "delimiter") s) [
  | none ↦ false
  | some rest ↦ elim (after_spaces rest) [ none ↦ false | some word ↦ not (is_empty word) ]
]

-- `/DELIMITER\s+\S+/i.test(content)`
has_delimiter : Text → Bool
unfolding delimiter_here
has_delimiter [] = false
has_delimiter (c ∷ s) = delimiter_here (c ∷ s) || has_delimiter s

-- `/^DELIMITER\s+(\S+)\s*$/i` on a trimmed text: the group
unfoldable pub delimiter_of : Text → Option Text
unfolding after_word after_spaces is_empty is_space
delimiter_of s = elim (after_word (codes "delimiter") s) [
  | none ↦ none
  | some rest ↦ elim (after_spaces rest) [
    | none ↦ none
    | some word ↦ if is_empty word || any is_space word then none else some word
  ]
]

pub record Chunk : Type 0 where
  pub sql : Text
  pub delimiter : Text

-- a chunk, if it holds anything
abbrev chunk_if : Text → Text → List Chunk → List Chunk
chunk_if [] delimiter rest = rest
chunk_if (c ∷ sql) delimiter rest = record { sql = c ∷ sql; delimiter = delimiter } ∷ rest

-- the text before the delimiter that ends the line
before_end : Text → Text → Text
unfolding trim_start
before_end delimiter line =
    let cut = reverse (trim_start (reverse line)) in take (length cut - length delimiter) cut

-- the loop over the lines, with the delimiter and the chunk that is being read
chunks_of : List Text → Text → Text → List Chunk
unfolding delimiter_of before_end trim text_eq ends_with
chunks_of [] delimiter chunk = chunk_if (trim chunk) delimiter []
chunks_of (line ∷ lines) delimiter chunk = elim (delimiter_of (trim line)) [
  | some next ↦ chunk_if (trim chunk) delimiter (chunks_of lines next [])
  | none ↦
      let done = chunks_of lines delimiter [] in
      let more = chunks_of lines delimiter (chunk ++ line ++ b'\n' ∷ []) in
      if ends_with (trim line) delimiter && not (text_eq delimiter (codes ";"))
      then record {
        sql = trim (chunk ++ before_end delimiter line ++ b'\n' ∷ []);
        delimiter = delimiter;
      }
        ∷ done
      else more
]

-- not empty, and no DELIMITER statement
keeps_chunk : Chunk → Bool
unfolding delimiter_of is_empty
keeps_chunk c = not (is_empty c.sql) && not (is_some (delimiter_of c.sql))

-- `processDelimiterSQL(content)`
unfoldable pub process_delimiter_sql : Text → List Chunk
unfolding has_delimiter chunks_of keeps_chunk trim split_on
process_delimiter_sql content =
    if has_delimiter content
    then filter keeps_chunk (chunks_of (split_on b'\n' content) (codes ";") [])
    else record { sql = trim content; delimiter = codes ";" } ∷ []

-- what the validator says of a file: the codes of its forbidden and dangerous operations, the
-- messages of its errors, and the approval of what it released
pub record Validation : Type 0 where
  pub valid : Bool
  pub blocked_codes : List Text
  pub messages : List Text
  pub approved_codes : List Text
  pub approved_by : Option Text

pub record Connection : Type 1 where
  pub World : Type 0
  pub query : Text → Exec World (Unit {0})
  pub create_checksum_table : Exec World (Unit {0})
  pub add_content_column : Exec World (Unit {0})
  pub column_names : Exec World (List Text)
  pub select_checksums : Exec World (List Stored)
  pub select_without_content : Exec World (List Stored)
  pub upsert_checksum : Text → Text → Text → Exec World (Unit {0})
  pub check_accounts : Text → Exec World (Unit {0})

-- the parts of the run that are parameters
pub record Context : Type 0 where
  pub validator : Option (RepeatableFile → Validation)
  pub resolve_passwords : RepeatableFile → Text × Bool

pub record AppliedFile : Type 0 where
  pub file : RepeatableFile
  pub reason : Reason

pub record SkippedFile : Type 0 where
  pub file_name : Text
  pub blocked : List Text

pub record ApprovedCode : Type 0 where
  pub file : Text
  pub code : Text
  pub by : Option Text

pub data RunError : Type 0 where
  not_valid : Text → List Text → RunError
  of_file : Text → Error → RunError

pub record RunResult : Type 0 where
  pub applied : List AppliedFile
  pub errors : List RunError
  pub skipped : List SkippedFile
  pub approvals : List ApprovedCode

abbrev pub no_result : RunResult
no_result = record { applied = []; errors = []; skipped = []; approvals = [] }

-- `stored && stored.checksum === file.checksum`
unfoldable pub is_current : List Stored → RepeatableFile → Bool
unfolding stored_by text_eq
is_current rows f = elim (stored_by f.file_name rows) [
  | none ↦ false
  | some s ↦ text_eq s.sum f.checksum
]

-- what becomes of a file that is to be run
pub data Decision : Type 0 where
  go : List ApprovedCode → Decision
  skip : List Text → Decision
  stop : List Text → Decision

unfoldable pub approvals_of : RepeatableFile → Validation → List ApprovedCode
approvals_of f v =
    map (λ c. record { file = f.file_name; code = c; by = v.approved_by }) v.approved_codes

unfoldable pub decide : RepeatableFile → Validation → Decision
unfolding approvals_of
decide f v =
    if v.valid
    then go (approvals_of f v)
    else elim v.blocked_codes [ [] ↦ stop v.messages | c ∷ more ↦ skip (c ∷ more) ]

unfoldable pub decision_on : Context → RepeatableFile → Decision
unfolding decide
decision_on context f = elim context.validator [
  | none ↦ go []
  | some validate ↦ decide f (validate f)
]

module _ (connection : Connection) where
  open connection use {
    World, query, create_checksum_table, add_content_column, column_names, select_checksums,
    select_without_content, upsert_checksum, check_accounts,
  }

  -- `readStoredChecksumsMariaDB(connection)`: no column means that there is no table yet
  unfoldable pub read_stored_checksums : Exec World (List Stored)
  unfolding text_eq lower
  read_stored_checksums = do
    names ← column_names
    elim names [
      | [] ↦ pure []
      | c ∷ more ↦
          if any (λ n. text_eq (map lower n) (codes "content")) (c ∷ more)
          then select_checksums
          else select_without_content
    ]

  -- `getStoredChecksumsMariaDB(connection, { readOnly })`
  unfoldable pub get_stored_checksums : Bool → Exec World (List Stored)
  unfolding read_stored_checksums
  get_stored_checksums true = read_stored_checksums
  get_stored_checksums false = do create_checksum_table; add_content_column; select_checksums

  unfoldable pub run_chunks : List Chunk → Exec World (Unit {0})
  unfolding trim is_empty
  run_chunks [] = pure tt
  run_chunks (c ∷ chunks) =
      (if is_empty (trim c.sql) then pure tt else query c.sql) >> run_chunks chunks

  -- the `try` of the loop
  unfoldable pub apply_file : Context → RepeatableFile → Exec World (Unit {0})
  unfolding run_chunks process_delimiter_sql
  apply_file context f = do
    if (context.resolve_passwords f).1 then check_accounts f.content else pure tt
    run_chunks (process_delimiter_sql (context.resolve_passwords f).0)
    upsert_checksum f.file_name f.checksum f.content

  abbrev reason_of : List Stored → RepeatableFile → Reason
  reason_of rows f = elim (stored_by f.file_name rows) [
    | none ↦ new_file
    | some s ↦ checksum_changed
  ]

  -- what the rounds after this one give, with what this one adds
  unfoldable pub applied_step :
      List Stored
      → RepeatableFile
      → List ApprovedCode
      → Result (Unit {0}) × World
      → (World → RunResult × World)
      → RunResult × World
  applied_step rows f approvals (err e, w) rest =
      (record no_result { errors = of_file f.file_name e ∷ []; approvals = approvals }, w)
  applied_step rows f approvals (ok a, w) rest = (
    record (rest w).0 {
      applied = record { file = f; reason = reason_of rows f } ∷ (rest w).0.applied;
      approvals = approvals ++ (rest w).0.approvals;
    },
    (rest w).1,
  )

  unfoldable pub decided_step :
      Context
      → List Stored
      → RepeatableFile
      → Decision
      → (World → RunResult × World)
      → World
      → RunResult × World
  unfolding applied_step apply_file
  decided_step context rows f (go approvals) rest w =
      applied_step rows f approvals (apply_file context f w) rest
  decided_step context rows f (skip list) rest w = (
    record (rest w).0 {
      skipped = record { file_name = f.file_name; blocked = list } ∷ (rest w).0.skipped;
    },
    (rest w).1,
  )
  decided_step context rows f (stop messages) rest w =
      (record no_result { errors = not_valid f.file_name messages ∷ [] }, w)

  -- one round of the loop
  unfoldable pub run_step :
      Context
      → List Stored
      → RepeatableFile
      → (World → RunResult × World)
      → World
      → RunResult × World
  unfolding decided_step decision_on is_current
  run_step context rows f rest w =
      if is_current rows f
      then rest w
      else decided_step context rows f (decision_on context f) rest w

  unfoldable pub run_files : Context → List Stored → List RepeatableFile → World → RunResult × World
  unfolding run_step
  run_files context rows [] w = (no_result, w)
  run_files context rows (f ∷ files) w = run_step context rows f (run_files context rows files) w

  -- `runMariaDB(context)`, with the files of the directories
  unfoldable pub run_mariadb : Context → List RepeatableFile → Exec World RunResult
  unfolding get_stored_checksums run_files
  run_mariadb context files = do
    rows ← get_stored_checksums false
    λ w. (ok (run_files context rows files w).0, (run_files context rows files w).1)
