-- ===== src/RepeatableStatus.antt =====
-- src/core/repeatable-runner.js, status: which repeatable files are to be applied again. The stored
-- checksums are the rows of a table whose primary key is the file name.
pub mod Sorted
mod Tests
use db_migrate.Base.{
  ℕ, ◌-◌, not, Option, none, some, List, [], ◌∷◌, map, if◌then◌else◌, length, filter, Text, text_eq,
  contains, truthy,
}

-- what getRepeatableFiles gives of a file; its annotations are left out
pub record RepeatableFile : Type 0 where
  pub file_name : Text
  pub dir : Text
  pub checksum : Text
  pub content : Text

-- a row of the checksum table; the time it was applied is left out
pub record Stored : Type 0 where
  pub id : Text
  pub sum : Text
  pub stored_content : Option Text

pub data Reason : Type 0 where
  new_file checksum_changed : Reason

pub record PendingFile : Type 0 where
  pub file : RepeatableFile
  pub reason : Reason
  pub stored_checksum : Option Text
  pub previous_content : Option Text

pub record RepeatableStatus : Type 0 where
  pub pending : List PendingFile
  pub up_to_date : List RepeatableFile
  pub orphaned : List Text
  pub total : ℕ

-- `storedChecksums.get(name)`, of a map that was filled row by row
unfoldable pub stored_by : Text → List Stored → Option Stored
unfolding text_eq
stored_by name [] = none
stored_by name (r ∷ rows) = elim (stored_by name rows) [
  | none ↦ if text_eq r.id name then some r else none
  | some s ↦ some s
]

abbrev pub pending_new : RepeatableFile → PendingFile
pending_new f = record {
  file = f;
  reason = new_file;
  stored_checksum = none;
  previous_content = none;
}

abbrev pub pending_changed : RepeatableFile → Stored → PendingFile
pending_changed f s = record {
  file = f;
  reason = checksum_changed;
  stored_checksum = truthy (some s.sum);
  previous_content = s.stored_content;
}

-- one round of the loop, put before what the later rounds give
pub sort_file : RepeatableFile → Option Stored → RepeatableStatus → RepeatableStatus
sort_file f none st = record st { pending = pending_new f ∷ st.pending }
sort_file f (some s) st =
    if text_eq s.sum f.checksum
    then record st { up_to_date = f ∷ st.up_to_date }
    else record st { pending = pending_changed f s ∷ st.pending }

pub sort_files : List Stored → List RepeatableFile → RepeatableStatus
sort_files rows [] = record { pending = []; up_to_date = []; orphaned = []; total = 0 }
sort_files rows (f ∷ files) = sort_file f (stored_by f.file_name rows) (sort_files rows files)

abbrev pub name_of : RepeatableFile → Text
name_of f = f.file_name

abbrev pub id_of : Stored → Text
id_of s = s.id

-- what `status` computes of the files and the rows
pub repeatable_status : List RepeatableFile → List Stored → RepeatableStatus
repeatable_status files rows = record (sort_files rows files) {
  orphaned = filter (λ id. not (contains (map name_of files) id)) (map id_of rows);
  total = length files;
}
