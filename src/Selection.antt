-- ===== src/Selection.antt =====
-- src/core/base-adapter.js: isRepeatableMigrationFile and selectPendingMigrations, the subset of
-- the pending migrations that a run with --target or --only executes.
pub mod Laws
mod Tests
use db_migrate.Base.{
  ℕ, ◌+◌, ◌-◌, Bool, ◌||◌, Option, none, some, List, [], ◌∷◌, ◌==◌, if◌then◌else◌, length, take,
  drop, find_index, Text, codes, text_eq, starts_with, includes, ends_with, split_on, truthy,
}

-- `path.basename` of Node on POSIX: the last non-empty part of a path
last_part : List Text → Text
last_part [] = []
last_part (part ∷ parts) = elim (last_part parts) [ [] ↦ part | c ∷ s ↦ c ∷ s ]

unfoldable pub basename : Text → Text
unfolding last_part split_on
basename path = last_part (split_on b'/' path)

-- `/^R__/.test(path.basename(fileName))`
unfoldable pub is_repeatable_migration_file : Text → Bool
unfolding basename starts_with
is_repeatable_migration_file file_name = starts_with (basename file_name) (codes "R__")

-- `f.replace(/\.(sql|js)$/, '')`
unfoldable pub strip_extension : Text → Text
unfolding ends_with
strip_extension f =
    if ends_with f (codes ".sql")
    then take (length f - 4) f
    else if ends_with f (codes ".js")
    then take (length f - 3) f
    else f

-- `f === needle || f.replace(…) === needle`
unfoldable pub names : Text → Text → Bool
unfolding text_eq strip_extension
names needle f = text_eq f needle || text_eq (strip_extension f) needle

-- `find` of selectPendingMigrations: an exact name first, then a substring
unfoldable pub find_pending : List Text → Text → Option ℕ
unfolding names includes
find_pending list needle = elim (find_index (names needle) list) [
  | some exact ↦ some exact
  | none ↦ find_index (λ f. includes f needle) list
]

pub record SelectOptions : Type 0 where
  pub target : Option Text
  pub only : Option Text

pub data SelectError : Type 0 where
  target_not_found only_not_found : Text → SelectError

pub record Selection : Type 0 where
  pub selected : List Text
  pub error : Option SelectError

failed : SelectError → Selection
failed e = record { selected = []; error = some e }

-- the second half, on the list that --target has left
select_only : Option Text → List Text → Selection
unfolding find_pending failed
select_only none selected = record { selected = selected; error = none }
select_only (some only) selected = elim (find_pending selected only) [
  | none ↦ failed (only_not_found only)
  | some i ↦ record { selected = take 1 (drop i selected); error = none }
]

select_target : Option Text → Option Text → List Text → Selection
unfolding select_only find_pending failed
select_target none only pending = select_only only pending
select_target (some target) only pending = elim (find_pending pending target) [
  | none ↦ failed (target_not_found target)
  | some i ↦ select_only only (take (i + 1) pending)
]

unfoldable pub select_pending_migrations : List Text → SelectOptions → Selection
unfolding select_target
select_pending_migrations pending options =
    select_target (truthy options.target) (truthy options.only) pending
