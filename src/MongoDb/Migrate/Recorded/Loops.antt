-- ===== src/MongoDb/Migrate/Recorded/Loops.antt =====
-- mongodb-adapter.js: the loops of up and down, and a down that undoes an up.
use db_migrate.MariaDb.{Result, ok, err, Error}
use db_migrate.MariaDb.Keeps.{After}
use db_migrate.MariaDb.Up.{RunError, UpResult, of_file}
use db_migrate.MariaDb.Down.{DownResult}
use mathlib.Core.List.{reverse_aux}
use db_migrate.MongoDb.{Store, MongoConfig}
use db_migrate.MongoDb.Migrate.{up_step, up_files, down_step, down_files, apply_one, rollback_one}
use db_migrate.MongoDb.Migrate.Recorded.{IsCollection, IsApart, apply_one-Sets, rollback_one-Sets}
use db_migrate.Base.{
  ℕ, suc, ◌+◌, ◌-◌, ◌≡◌, refl, sym, ap, ◌∙◌, ◌⊎◌, inl, inr, Bool, List, [], ◌∷◌, ◌++◌, append-nil,
  arith, if◌then◌else◌, any, Text, text_eq, reverse,
}

-- is it among these files?
abbrev pub among : Text → List Text → Bool
among id files = any (λ f. text_eq f id) files

-- how often it stands there
abbrev pub times_in : Text → List Text → ℕ
times_in id [] = 0
times_in id (f ∷ files) = let n = times_in id files in if text_eq f id then suc n else n

times_in-reverse_aux :
    (id : Text) (xs ys : List Text)
    → times_in id (reverse_aux xs ys) ≡ times_in id xs + times_in id ys
times_in-reverse_aux id [] ys = omega arith
times_in-reverse_aux id (x ∷ xs) ys = ground (arith, times_in-reverse_aux id xs (x ∷ ys))

times_in-reverse : (id : Text) (xs : List Text) → times_in id (reverse xs) ≡ times_in id xs
times_in-reverse id xs = ground (arith, times_in-reverse_aux id xs [])

module _ (store : Store) (config : MongoConfig) (documents : store.World → Text → ℕ) where
  open store use {World}

  -- How a loop over files ended: it did an initial part of them, all with no error, or those before
  -- the first that failed, whose error is then the only one.
  pub record Stopped (files done : List Text) (errors : List RunError) : Type 0 where
    pub later : List Text
    pub cut : files ≡ done ++ later
    pub ended :
        ((later ≡ []) × (errors ≡ []))
        ⊎ ((f : Text) × (rest : List Text) × (e : Error) × (later ≡ f ∷ rest)
            × (errors ≡ of_file f e ∷ []))

  -- a run of `up`, and what it recorded
  pub record RanUp (files : List Text) (w : World) (out : UpResult × World) : Type 0 where
    pub stopped : Stopped files out.0.applied out.0.errors
    pub records : (id : Text) → documents out.1 id ≡ times_in id out.0.applied + documents w id

  -- a run of `down`, and what it took away
  pub record RanDown (files : List Text) (w : World) (out : DownResult × World) : Type 0 where
    pub stopped : Stopped files out.0.rolled_back out.0.errors
    pub removes : (id : Text) → documents out.1 id ≡ documents w id - times_in id out.0.rolled_back

  all_done : (files : List Text) → Stopped files files []
  all_done files = record { later = []; cut = sym (append-nil files); ended = inl (refl, refl) }

  failed_at :
      (file : Text) (files : List Text) (e : Error)
      → Stopped (file ∷ files) [] (of_file file e ∷ [])
  failed_at file files e = record {
    later = file ∷ files;
    cut = refl;
    ended = inr (file, files, e, refl, refl);
  }

  one_more :
      (file : Text) {files done : List Text} {errors : List RunError}
      → Stopped files done errors
      → Stopped (file ∷ files) (file ∷ done) errors
  one_more file s = record { later = s.later; cut = ap (λ l. file ∷ l) s.cut; ended = s.ended }

  module _ (collection : IsCollection store documents) (apart : IsApart store documents) where
    up_step-Ran :
        (file : Text) (files : List Text) (w : World) (out : Result (Unit {0}) × World)
        → ((id : Text)
            → After
                (λ v. documents v id)
                (λ n. if text_eq file id then suc n else n)
                (documents w id)
                out)
        → ((v : World) → RanUp files v (up_files store config files v))
        → RanUp (file ∷ files) w (up_step store config file out (up_files store config files))
    unfolding up_step
    up_step-Ran file files w (ok tt, v) h rest =
        let r = rest v in
        record {
          stopped = one_more file r.stopped;
          records = λ id. ground (arith, r.records id, h id);
        }
    up_step-Ran file files w (err e, v) h rest = record {
      stopped = failed_at file files e;
      records = λ id. omega (arith, h id);
    }

    -- A run of `up` applies an initial part of the files: all, with no error, or those before the
    -- first that failed, whose error is then the only one. Afterwards a file has one document more
    -- for each time it was applied. Assumed is that the driver's calls do what their
    -- documentation says, and that the migrations leave the changelog collection alone.
    pub up_files-RanUp :
        (files : List Text) (w : World) → RanUp files w (up_files store config files w)
    unfolding up_files
    up_files-RanUp [] w = record { stopped = all_done []; records = λ id. omega arith }
    up_files-RanUp (file ∷ files) w =
        up_step-Ran file files w (apply_one store config file w)
          (λ id. apply_one-Sets store config documents collection apart id file w)
          (up_files-RanUp files)

    down_step-Ran :
        (file : Text) (files : List Text) (w : World) (out : Result (Unit {0}) × World)
        → ((id : Text)
            → After
                (λ v. documents v id)
                (λ n. if text_eq file id then n - 1 else n)
                (documents w id)
                out)
        → ((v : World) → RanDown files v (down_files store config files v))
        → RanDown (file ∷ files) w (down_step store config file out (down_files store config files))
    unfolding down_step
    down_step-Ran file files w (ok tt, v) h rest =
        let r = rest v in
        record {
          stopped = one_more file r.stopped;
          removes = λ id. ground (arith, r.removes id, h id);
        }
    down_step-Ran file files w (err e, v) h rest = record {
      stopped = failed_at file files e;
      removes = λ id. omega (arith, h id);
    }

    -- A run of `down` rolls back an initial part of the files: all, with no error, or those before
    -- the first that failed, whose error is then the only one. It takes away one document of a file
    -- for each time it rolled it back, if there is any, and no other; a file whose down() failed
    -- keeps its documents. Assumed is that the driver's calls do what their documentation says,
    -- deleteOne taking one document away, and that the migrations leave the changelog collection
    -- alone.
    pub down_files-RanDown :
        (files : List Text) (w : World) → RanDown files w (down_files store config files w)
    unfolding down_files
    down_files-RanDown [] w = record { stopped = all_done []; removes = λ id. omega arith }
    down_files-RanDown (file ∷ files) w =
        down_step-Ran file files w (rollback_one store config file w)
          (λ id. rollback_one-Sets store config documents collection apart id file w)
          (down_files-RanDown files)

    clean-all :
        (files done : List Text) (errors : List RunError)
        → Stopped files done errors
        → errors ≡ []
        → done ≡ files
    clean-all files done errors s e = elim s.ended [
      | inl (nothing, _) ↦ sym (append-nil done) ∙ ap (λ l. done ++ l) (sym nothing) ∙ sym s.cut
      | inr (f, rest, x, _, failed) ↦ absurd (cc)
    ]

    -- Files are run by `up`, and the applied ones then rolled back by `down`, last first: if `down`
    -- reports no error, every file has as many documents in the changelog as before, whether `up`
    -- went through or stopped at a file. Assumed is that the driver's calls do what their
    -- documentation says, deleteOne taking one document away, and that the migrations leave the
    -- changelog collection alone.
    pub down_files-up_files :
        (files : List Text) (w : World)
        → (down_files store config
            (reverse (up_files store config files w).0.applied)
            (up_files store config files w).1).0.errors
          ≡ []
        → (id : Text)
        → documents
            (down_files store config
              (reverse (up_files store config files w).0.applied)
              (up_files store config files w).1).1
            id
          ≡ documents w id
    down_files-up_files files w clean id =
        let u = up_files store config files w in
        let r = up_files-RanUp files w in
        let d = down_files-RanDown (reverse u.0.applied) u.1 in
        let all = clean-all _ _ _ d.stopped clean in
        let same = ap (times_in id) all ∙ times_in-reverse id u.0.applied in
        omega (arith, d.removes id, same, r.records id)
