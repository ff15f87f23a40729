-- ===== src/Directories/Listing.antt =====
-- migration-dirs.js, listMigrationFiles: what it lists.
use db_migrate.MariaDb.{Result, ok, err}
use db_migrate.Directories.{
  MigrationsDir, Outcome, done, failed, ◌>>=◌, Disk, ListedFile, named, not_behind, listed,
  to_dir_list, in_two_directories, add_name, add_names, add_dir, add_dirs, list_migration_files,
}
use db_migrate.Base.{
  ◌≤◌, ◌≡◌, refl, sym, ap, ◌∙◌, inl, inr, Bool, true, false, Option, none, some, List, [], ◌∷◌,
  ◌++◌, map, append-nil, append_assoc, arith, if◌then◌else◌, Bool-cases, length, filter, find,
  length-append, filter-append, All, Text, text_eq, text_eq_iff, text_eq_refl, subst, sort_by,
  Ordered, sort_by-count, sort_by-Ordered, text_lt, text_lt-connected, text_lt-cotrans,
  text_lt-asym,
}

-- the name comes at most once
abbrev pub AtMostOnce : List ListedFile → Type 0
AtMostOnce files = (name : Text) → length (filter (named name) files) ≤ 1

-- strictly ascending by name
abbrev pub Ascending : List ListedFile → Type 0
Ascending [] = Unit
Ascending (f ∷ files) = All (λ g. text_lt f.file_name g.file_name ≡ true) files × Ascending files

length-filter_none :
    (p : ListedFile → Bool) (files : List ListedFile)
    → length (filter p files) ≡ 0
    → All (λ f. p f ≡ false) files
length-filter_none p [] h = tt
length-filter_none p (f ∷ files) h = ground (arith, length-filter_none p files)

length-filter_of_find :
    (p : ListedFile → Bool) (files : List ListedFile)
    → find p files ≡ none
    → length (filter p files) ≡ 0
length-filter_of_find p [] h = refl
length-filter_of_find p (f ∷ files) h = ground (arith, length-filter_of_find p files)

named_refl : (f : ListedFile) → named f.file_name f ≡ true
unfolding named
named_refl f = text_eq_refl f.file_name

-- once in order and with no name twice, strictly in order
strict : (files : List ListedFile) → Ordered not_behind files → AtMostOnce files → Ascending files
unfolding not_behind
strict [] h once = tt
strict (f ∷ files) (h, k) once =
    let others : All (λ g. named f.file_name g ≡ false) files =
      length-filter_none (named f.file_name) files
        (ground (arith, once f.file_name, named_refl f)) in
    (both files h others, strict files k (λ name. ground (arith, once name)))
  where
    both :
        (l : List ListedFile)
        → All (λ g. not_behind f g ≡ true) l
        → All (λ g. named f.file_name g ≡ false) l
        → All (λ g. text_lt f.file_name g.file_name ≡ true) l
    both [] h k = tt
    both (g ∷ l) (a, h) (b, k) = (
      text_lt-connected f.file_name g.file_name (ground (arith, a)) (unfold named in b),
      both l h k,
    )

total : (a b : ListedFile) → not_behind a b ≡ false → not_behind b a ≡ true
unfolding not_behind
total a b h = ground (arith, text_lt-asym b.file_name a.file_name)

trans : (a b c : ListedFile) → not_behind a b ≡ true → not_behind b c ≡ true → not_behind a c ≡ true
unfolding not_behind
trans a b c h k = ground (arith, text_lt-cotrans a.file_name b.file_name c.file_name)

>>=-eq-done :
    {A B : Type 0} (m : Outcome A) (f : A → Outcome B) (b : B)
    → (m >>= f) ≡ done b
    → (a : A) × (m ≡ done a) × (f a ≡ done b)
>>=-eq-done (done a) f b e = (a, refl, e)
>>=-eq-done (failed x) f b e = absurd (cc)

-- a name that was not there, added
AtMostOnce-snoc :
    (seen : List ListedFile) (f : ListedFile)
    → AtMostOnce seen
    → length (filter (named f.file_name) seen) ≡ 0
    → AtMostOnce (seen ++ f ∷ [])
unfolding named
AtMostOnce-snoc seen f once new name = elim (Bool-cases (text_eq f.file_name name)) [
  | inl same ↦
      let is = (text_eq_iff f.file_name name).0 same in
      let count = ap (λ n. length (filter (λ g. text_eq g.file_name n) seen)) is in
      ground (
        arith,
        filter-append (named name) seen (f ∷ []),
        length-append (filter (named name) seen) (filter (named name) (f ∷ [])),
        new,
        count,
      )
  | inr other ↦ ground (
    arith,
    filter-append (named name) seen (f ∷ []),
    length-append (filter (named name) seen) (filter (named name) (f ∷ [])),
    once name,
  )
]

module _ (disk : Disk) (predicate : Text → Bool) where
  open disk use {read_dir}

  -- the accepted files of a directory, and of several, as they are read
  abbrev pub in_dir : Text → Result (List Text) → List ListedFile
  in_dir dir (ok names) = map (listed disk dir) (filter predicate names)
  in_dir dir (err e) = []

  abbrev pub in_dirs : List Text → List ListedFile
  in_dirs [] = []
  in_dirs (dir ∷ dirs) = in_dir dir (read_dir dir) ++ in_dirs dirs

  -- what one step of the collection does
  abbrev Adds : List ListedFile → List ListedFile → List ListedFile → Type 0
  Adds seen new out = (out ≡ seen ++ new) × (AtMostOnce seen → AtMostOnce out)

  add_name-Adds :
      (dir name : Text) (seen out : List ListedFile)
      → add_name disk predicate dir name seen ≡ done out
      → Adds seen (map (listed disk dir) (filter predicate (name ∷ []))) out
  unfolding add_name
  add_name-Adds dir name seen out e = split (predicate name) (find (named name) seen) refl e
    where
      split :
          (accepted : Bool) (earlier : Option ListedFile)
          → find (named name) seen ≡ earlier
          → (if accepted
              then elim earlier [
                | some f ↦ failed (in_two_directories name f.dir dir)
                | none ↦ done (seen ++ listed disk dir name ∷ [])
              ]
              else done seen)
            ≡ done out
          → Adds seen (map (listed disk dir) (if accepted then name ∷ [] else [])) out
      split false earlier found e =
          let same : seen ≡ out = cc in
          (sym same ∙ sym (append-nil seen), λ once. subst AtMostOnce same once)
      split true (some f) found e = absurd (cc)
      split true none found e =
          let same : seen ++ listed disk dir name ∷ [] ≡ out = cc in
          (
            sym same,
            λ once. subst AtMostOnce same (
                unfold listed in
                AtMostOnce-snoc seen (listed disk dir name) once
                  (length-filter_of_find (named name) seen found)),
          )

  add_names-Adds :
      (dir : Text) (names : List Text) (seen out : List ListedFile)
      → add_names disk predicate dir names seen ≡ done out
      → Adds seen (map (listed disk dir) (filter predicate names)) out
  unfolding add_names
  add_names-Adds dir [] seen out e =
      let same : seen ≡ out = cc in
      (sym same ∙ sym (append-nil seen), λ once. subst AtMostOnce same once)
  add_names-Adds dir (name ∷ names) seen out e =
      let (mid, first, rest) =
        >>=-eq-done (add_name disk predicate dir name seen) (add_names disk predicate dir names) out
          e in
      let (a, once) = add_name-Adds dir name seen mid first in
      let (b, twice) = add_names-Adds dir names mid out rest in
      (joined mid a b, λ h. twice (once h))
    where
      joined :
          (mid : List ListedFile)
          → mid ≡ seen ++ map (listed disk dir) (filter predicate (name ∷ []))
          → out ≡ mid ++ map (listed disk dir) (filter predicate names)
          → out ≡ seen ++ map (listed disk dir) (filter predicate (name ∷ names))
      joined mid a b =
          let tail = map (listed disk dir) (filter predicate names) in
          b
          ∙ ap (λ l. l ++ tail) a
          ∙ append_assoc seen (map (listed disk dir) (filter predicate (name ∷ []))) tail
          ∙ ap (λ l. seen ++ l) (both (predicate name))
        where
          both :
              (accepted : Bool)
              → map (listed disk dir) (if accepted then name ∷ [] else [])
                  ++ map (listed disk dir) (filter predicate names)
                ≡ map
                    (listed disk dir)
                    (if accepted then name ∷ filter predicate names else filter predicate names)
          both true = refl
          both false = refl

  add_dir-Adds :
      (dir : Text) (names : Result (List Text)) (seen out : List ListedFile)
      → add_dir disk predicate dir names seen ≡ done out
      → Adds seen (in_dir dir names) out
  unfolding add_dir
  add_dir-Adds dir (ok names) seen out e = add_names-Adds dir names seen out e
  add_dir-Adds dir (err x) seen out e = absurd (cc)

  add_dirs-Adds :
      (dirs : List Text) (seen out : List ListedFile)
      → add_dirs disk predicate dirs seen ≡ done out
      → Adds seen (in_dirs dirs) out
  unfolding add_dirs
  add_dirs-Adds [] seen out e =
      let same : seen ≡ out = cc in
      (sym same ∙ sym (append-nil seen), λ once. subst AtMostOnce same once)
  add_dirs-Adds (dir ∷ dirs) seen out e =
      let (mid, first, rest) =
        >>=-eq-done (add_dir disk predicate dir (read_dir dir) seen) (add_dirs disk predicate dirs)
          out e in
      let (a, once) = add_dir-Adds dir (read_dir dir) seen mid first in
      let (b, twice) = add_dirs-Adds dirs mid out rest in
      (
        b
            ∙ ap (λ l. l ++ in_dirs dirs) a
            ∙ append_assoc seen (in_dir dir (read_dir dir)) (in_dirs dirs),
        λ h. twice (once h),
      )

  -- Files that are listed are strictly ascending by name, so that no name comes twice, and are the
  -- accepted files of all the directories, each as often as it is there.
  pub list-Ascending :
      (migrations_dir : MigrationsDir Text) (files : List ListedFile)
      → list_migration_files disk predicate migrations_dir ≡ done files
      → Ascending files
        × ((p : ListedFile → Bool)
            → length (filter p files) ≡ length (filter p (in_dirs (to_dir_list migrations_dir))))
  unfolding list_migration_files
  list-Ascending migrations_dir files e =
      let dirs = to_dir_list migrations_dir in
      let (seen, all, last) =
        >>=-eq-done (add_dirs disk predicate dirs []) (λ seen. done (sort_by not_behind seen)) files
          e in
      let same : sort_by not_behind seen ≡ files = cc in
      let (adds, once) = add_dirs-Adds dirs [] seen all in
      (
        subst Ascending same (
            strict (sort_by not_behind seen) (sort_by-Ordered not_behind total trans seen) (λ name.
              ground
                (arith, sort_by-count not_behind (named name) seen, once (λ n. omega arith) name))),
        λ p.
            ap (λ l. length (filter p l)) (sym same)
            ∙ sort_by-count not_behind p seen
            ∙ ap (λ l. length (filter p l)) adds,
      )
