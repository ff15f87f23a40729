-- ===== src/RepeatableStatus/Sorted.antt =====
-- repeatable-runner.js, status: where each file goes.
use db_migrate.RepeatableStatus.{
  RepeatableFile, Stored, PendingFile, stored_by, sort_file, sort_files, repeatable_status,
}
use db_migrate.Base.{
  ◌+◌, ◌≡◌, refl, ap, Bool, false, not, none, some, List, [], ◌∷◌, map, arith, length, filter,
  text_eq, length-map,
}

-- The file was applied as it is: its row has its checksum.
abbrev pub is_applied : List Stored → RepeatableFile → Bool
is_applied rows f = elim (stored_by f.file_name rows) [
  | none ↦ false
  | some s ↦ text_eq s.sum f.checksum
]

abbrev pub file_of : PendingFile → RepeatableFile
file_of p = p.file

sort_files-filter :
    (rows : List Stored) (files : List RepeatableFile)
    → (map file_of (sort_files rows files).pending ≡ filter (λ f. not (is_applied rows f)) files)
      × ((sort_files rows files).up_to_date ≡ filter (is_applied rows) files)
unfolding sort_files sort_file
sort_files-filter rows [] = (refl, refl)
sort_files-filter rows (f ∷ files) =
    let (p, u) = sort_files-filter rows files in (ground (arith, p), ground (arith, u))

either_way :
    {A : Type 0} (p : A → Bool) (xs : List A)
    → length (filter (λ x. not (p x)) xs) + length (filter p xs) ≡ length xs
either_way p [] = refl
either_way p (x ∷ xs) = ground (arith, either_way p xs)

-- The files whose row does not have their present checksum, or that have no row, are pending, and
-- the others are up to date, both in the order of the files; so each file is in one of the lists.
pub repeatable_status-filter :
    (files : List RepeatableFile) (rows : List Stored)
    → (map file_of (repeatable_status files rows).pending
        ≡ filter (λ f. not (is_applied rows f)) files)
      × ((repeatable_status files rows).up_to_date ≡ filter (is_applied rows) files)
      × (length (repeatable_status files rows).pending
            + length (repeatable_status files rows).up_to_date
          ≡ (repeatable_status files rows).total)
unfolding repeatable_status
repeatable_status-filter files rows =
    let (p, u) = sort_files-filter rows files in
    (
      p,
      u,
      omega (
        arith,
        length-map file_of (sort_files rows files).pending,
        ap length p,
        ap length u,
        either_way (is_applied rows) files,
      ),
    )
