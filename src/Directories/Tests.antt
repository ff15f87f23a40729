-- ===== src/Directories/Tests.antt =====
-- Two directories, each with one migration.
use db_migrate.MariaDb.{Result, ok}
use db_migrate.Directories.{
  MigrationsDir, many, done, Disk, there, ListedFile, to_dir_list, list_migration_files, add_dirs,
  add_dir, add_names, add_name, named, listed, not_behind, match_migration_file, is_exact,
  without_extension, only_one,
}
use db_migrate.Directories.Listing.{Ascending, in_dirs, list-Ascending}
use db_migrate.Base.{
  ◌≡◌, refl, Bool, some, List, [], ◌∷◌, ◌++◌, if◌then◌else◌, length, filter, Text, codes, text_eq,
  starts_with, ends_with, text_lt,
}

abbrev names_of : Text → Result (List Text)
names_of dir =
    if text_eq dir (codes "/b")
    then ok (codes "R__1.sql" ∷ codes "x.txt" ∷ [])
    else ok (codes "R__2.sql" ∷ [])

abbrev disk : Disk
disk = record {
  read_dir = names_of;
  access = λ path. there;
  join = λ dir name. dir ++ b'/' ∷ name;
  resolve = λ base path. path;
  resolve_here = λ path. path;
  normalize = λ path. path;
}

abbrev dirs : MigrationsDir Text
dirs = many (codes "/a" ∷ codes "/b" ∷ [])

abbrev is_sql : Text → Bool
is_sql f = ends_with f (codes ".sql")

abbrev file : Text → Text → ListedFile
file dir name = record { file_name = name; file_path = dir ++ b'/' ∷ name; dir = dir }

abbrev both : List ListedFile
both = file (codes "/b") (codes "R__1.sql") ∷ file (codes "/a") (codes "R__2.sql") ∷ []

lists : list_migration_files disk is_sql dirs ≡ done both
unfolding list_migration_files to_dir_list add_dirs add_dir add_names add_name named listed
    not_behind text_eq text_lt ends_with starts_with
lists = refl

list-Ascending_example :
    Ascending both
    × ((p : ListedFile → Bool)
        → length (filter p both) ≡ length (filter p (in_dirs disk is_sql (to_dir_list dirs))))
list-Ascending_example = list-Ascending disk is_sql dirs both lists

-- a prefix that only one file has, and one that two have
by_prefix :
    match_migration_file (codes "1_a.sql" ∷ codes "2_b.sql" ∷ []) (codes "2") (codes "--file")
    ≡ done (some (codes "2_b.sql"))
unfolding match_migration_file is_exact without_extension only_one text_eq starts_with
by_prefix = refl

by_name :
    match_migration_file (codes "1_a.sql" ∷ codes "1_a_b.sql" ∷ []) (codes "1_a") (codes "--file")
    ≡ done (some (codes "1_a.sql"))
unfolding match_migration_file is_exact without_extension only_one text_eq starts_with
by_name = refl
