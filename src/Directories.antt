-- ===== src/Directories.antt =====
-- src/core/migration-dirs.js: the directories that migrations are in, one or, for DCL, a list. The
-- disk and Node's path functions are parameters; `basename` is the one of POSIX.
pub mod Listing
mod Tests
use db_migrate.Selection.{basename}
use db_migrate.MariaDb.{Result, ok, err, Error}
use db_migrate.MariaDb.Files.Sections.{after_word}
use db_migrate.Base.{
  ℕ, ◌+◌, ◌-◌, Bool, true, false, not, ◌&&◌, ◌||◌, Option, none, some, List, [], ◌∷◌, ◌++◌, map,
  ◌==◌, if◌then◌else◌, length, filter, find, Text, codes, text_eq, starts_with, ends_with, reverse,
  truthy, sort_by, text_lt,
}

-- `migrationsDir` of a config. Its texts are paths, of which the empty one is as good as none.
pub data MigrationsDir (A : Type 0) : Type 0 where
  unset : MigrationsDir A
  one : Text → MigrationsDir A
  many : List A → MigrationsDir A

-- the errors that are thrown, with what their messages name
pub data DirError : Type 0 where
  list_not_allowed : ℕ → DirError
  empty_list no_directory : DirError
  bad_entry : DirError
  in_two_directories : Text → Text → Text → DirError
  which_directory : List Text → DirError
  not_a_directory : Text → List Text → DirError
  several_directories : Text → List Text → DirError
  ambiguous : Text → Text → List Text → DirError
  of_disk : Error → DirError

pub data Outcome (A : Type 0) : Type 0 where
  done : A → Outcome A
  failed : DirError → Outcome A

infixl 5 ◌>>=◌
abbrev pub ◌>>=◌ : {A B : Type 0} → Outcome A → (A → Outcome B) → Outcome B
done a >>= f = f a
failed e >>= f = failed e

pub data Access : Type 0 where
  there : Access
  missing : Access  -- ENOENT
  denied : Error → Access

pub record Disk : Type 0 where
  pub read_dir : Text → Result (List Text)
  pub access : Text → Access
  pub join : Text → Text → Text
  pub resolve : Text → Text → Text
  pub resolve_here : Text → Text
  pub normalize : Text → Text

-- `toDirList(migrationsDir)`
unfoldable pub to_dir_list : MigrationsDir Text → List Text
to_dir_list unset = []
to_dir_list (one []) = []
to_dir_list (one (c ∷ dir)) = (c ∷ dir) ∷ []
to_dir_list (many dirs) = dirs

-- an entry of the list, none where it is no string
unfoldable pub check_entries : List (Option Text) → Outcome (List Text)
check_entries [] = done []
check_entries (none ∷ entries) = failed bad_entry
check_entries (some [] ∷ entries) = failed bad_entry
check_entries (some (c ∷ d) ∷ entries) = do dirs ← check_entries entries; done ((c ∷ d) ∷ dirs)

pub record ListedFile : Type 0 where
  pub file_name : Text
  pub file_path : Text
  pub dir : Text

unfoldable pub named : Text → ListedFile → Bool
unfolding text_eq
named name f = text_eq f.file_name name

-- the comparison does not put `b` first
unfoldable pub not_behind : ListedFile → ListedFile → Bool
unfolding text_lt
not_behind a b = not (text_lt b.file_name a.file_name)

-- without the slashes and backslashes at its start
drop_slashes : Text → Text
drop_slashes [] = []
drop_slashes (c ∷ s) = if c == b'/' || c == 92 then drop_slashes s else c ∷ s

-- `.replace(/^\.[\\/]/, '')`
drop_here : Text → Text
drop_here [] = []
drop_here (c ∷ []) = c ∷ []
drop_here (c ∷ d ∷ s) = if c == b'.' && (d == b'/' || d == 92) then s else c ∷ d ∷ s

-- `String(wanted).replace(/[\\/]+$/, '')`
unfoldable pub trim_slashes : Text → Text
unfolding drop_slashes
trim_slashes s = reverse (drop_slashes (reverse s))

module _ (disk : Disk) where
  open disk use {read_dir, access, join, resolve, resolve_here, normalize}

  -- `resolveDirs(migrationsDir, baseDir, mode)`; `repeatable` is the test of the mode
  unfoldable pub resolve_dirs :
      MigrationsDir (Option Text) → Text → Bool → Outcome (MigrationsDir Text)
  unfolding check_entries
  resolve_dirs unset base repeatable = done unset
  resolve_dirs (one []) base repeatable = done (one [])
  resolve_dirs (one (c ∷ dir)) base repeatable = done (one (resolve base (c ∷ dir)))
  resolve_dirs (many entries) base false = failed (list_not_allowed (length entries))
  resolve_dirs (many []) base true = failed empty_list
  resolve_dirs (many (e ∷ entries)) base true = do
    dirs ← check_entries (e ∷ entries)
    done (many (map (resolve base) dirs))

  unfoldable pub listed : Text → Text → ListedFile
  listed dir name = record { file_name = name; file_path = join dir name; dir = dir }

  module _ (predicate : Text → Bool) where
    -- one file of a directory; `seen` holds the files before it, in the order they were found
    unfoldable pub add_name : Text → Text → List ListedFile → Outcome (List ListedFile)
    unfolding named listed
    add_name dir name seen =
        if predicate name
        then elim (find (named name) seen) [
          | some earlier ↦ failed (in_two_directories name earlier.dir dir)
          | none ↦ done (seen ++ listed dir name ∷ [])
        ]
        else done seen

    unfoldable pub add_names : Text → List Text → List ListedFile → Outcome (List ListedFile)
    unfolding add_name
    add_names dir [] seen = done seen
    add_names dir (name ∷ names) seen = add_name dir name seen >>= add_names dir names

    unfoldable pub add_dir : Text → Result (List Text) → List ListedFile → Outcome (List ListedFile)
    unfolding add_names
    add_dir dir (ok names) seen = add_names dir names seen
    add_dir dir (err e) seen = failed (of_disk e)

    unfoldable pub add_dirs : List Text → List ListedFile → Outcome (List ListedFile)
    unfolding add_dir
    add_dirs [] seen = done seen
    add_dirs (dir ∷ dirs) seen = add_dir dir (read_dir dir) seen >>= add_dirs dirs

    -- `listMigrationFiles(migrationsDir, predicate)`
    unfoldable pub list_migration_files : MigrationsDir Text → Outcome (List ListedFile)
    unfolding add_dirs to_dir_list not_behind
    list_migration_files migrations_dir = do
      seen ← add_dirs (to_dir_list migrations_dir) []
      done (sort_by not_behind seen)

  -- does an entry of the list answer to `--dir`?
  unfoldable pub answers : Text → Text → Bool
  unfolding trim_slashes drop_here basename text_eq ends_with
  answers wanted d =
      let trimmed = trim_slashes wanted in
      text_eq d (resolve_here wanted)
      || text_eq (basename d) trimmed
      || ends_with d (b'/' ∷ drop_here (normalize trimmed))

  unfoldable pub picked : Text → List Text → List Text → Outcome Text
  picked wanted dirs [] = failed (not_a_directory wanted (map basename dirs))
  picked wanted dirs (d ∷ []) = done d
  picked wanted dirs (d ∷ e ∷ more) = failed (several_directories wanted (d ∷ e ∷ more))

  unfoldable pub pick_among : Option Text → List Text → Outcome Text
  unfolding picked answers
  pick_among wanted [] = failed no_directory
  pick_among none (d ∷ []) = done d
  pick_among none (d ∷ e ∷ more) = failed (which_directory (map basename (d ∷ e ∷ more)))
  pick_among (some wanted) (d ∷ more) =
      picked wanted (d ∷ more) (filter (answers wanted) (d ∷ more))

  -- `pickDir(migrationsDir, wanted)`
  unfoldable pub pick_dir : MigrationsDir Text → Option Text → Outcome Text
  unfolding pick_among to_dir_list
  pick_dir migrations_dir wanted = pick_among (truthy wanted) (to_dir_list migrations_dir)

  unfoldable pub find_in : List Text → Text → Outcome (Option Text)
  find_in [] name = done none
  find_in (dir ∷ dirs) name =
      let rest = find_in dirs name in
      elim (access (join dir name)) [
        | there ↦ done (some dir)
        | missing ↦ rest
        | denied e ↦ failed (of_disk e)
      ]

  -- `findExisting(migrationsDir, fileName)`
  unfoldable pub find_existing : MigrationsDir Text → Text → Outcome (Option Text)
  unfolding find_in to_dir_list
  find_existing migrations_dir name = find_in (to_dir_list migrations_dir) name

-- of a name read from its end: what is behind the first of these extensions that it has
strip_any : List Text → Text → Text
unfolding after_word
strip_any [] s = s
strip_any (extension ∷ extensions) s = elim (after_word extension s) [
  | some rest ↦ rest
  | none ↦ strip_any extensions s
]

-- `f.replace(/\.(sql|[cm]?js)$/i, '')`
unfoldable pub without_extension : Text → Text
unfolding strip_any
without_extension f =
    reverse (strip_any (codes "lqs." ∷ codes "sj." ∷ codes "sjc." ∷ codes "sjm." ∷ []) (reverse f))

-- `f === wanted`, or without its extension
unfoldable pub is_exact : Text → Text → Bool
unfolding without_extension text_eq
is_exact wanted f = text_eq f wanted || text_eq (without_extension f) wanted

unfoldable pub only_one : Text → Text → List Text → Outcome (Option Text)
only_one wanted flag [] = done none
only_one wanted flag (f ∷ []) = done (some f)
only_one wanted flag (f ∷ g ∷ more) = failed (ambiguous flag wanted (f ∷ g ∷ more))

-- `matchMigrationFile(fileNames, wanted, flag)`; an empty name found is as good as none
unfoldable pub match_migration_file : List Text → Text → Text → Outcome (Option Text)
unfolding is_exact only_one starts_with
match_migration_file file_names wanted flag = elim (truthy (find (is_exact wanted) file_names)) [
  | some exact ↦ done (some exact)
  | none ↦ only_one wanted flag (filter (λ f. starts_with f wanted) file_names)
]
