-- ===== src/MongoDb/Baseline/Marked.antt =====
-- mongodb-adapter.js, baseline: which files it marks.
use db_migrate.MariaDb.{Result, ok, err, Error, pure, ◌>>=◌, resume}
use db_migrate.MariaDb.Up.{RunError, of_file, of_run, of_selection}
use db_migrate.MongoDb.{Doc, Store, MongoConfig}
use db_migrate.MongoDb.Migrate.Recorded.Loops.{among}
use db_migrate.MongoDb.Baseline.{
  BaselineResult, mark_new, mark_unless, mark_file, mark_step, baseline,
}
use db_migrate.Base.{
  ◌≡◌, refl, sym, ap, ◌∙◌, Bool, true, false, not, ◌&&◌, ◌||◌, Option, none, some, List, [], ◌∷◌,
  arith, is_some, any, All, Text, text_eq, text_eq_refl, All-map,
}

-- The changelog as a collection: `recorded w file` says whether the file has a document. An insert
-- that succeeds adds it, one that fails leaves it.
pub record Inserts (store : Store) (recorded : store.World → Text → Bool) : Type 0 where
  pub insert :
      (file sum : Text) (w w' : store.World) (j : Text)
      → store.insert_doc file sum w ≡ (ok tt, w')
      → recorded w' j ≡ (text_eq file j || recorded w j)
  pub insert_err :
      (file sum : Text) (e : Error) (w w' : store.World) (j : Text)
      → store.insert_doc file sum w ≡ (err e, w')
      → recorded w' j ≡ recorded w j

-- a lookup that succeeds tells whether the file has a document; it changes nothing
pub record IsLookup (store : Store) (recorded : store.World → Text → Bool) : Type 0 where
  pub finds :
      (file : Text) (w w' : store.World) (doc : Option Doc)
      → store.find_doc file w ≡ (ok doc, w')
      → is_some doc ≡ recorded w file
  pub leaves :
      (file : Text) (w : store.World) (j : Text)
      → recorded (store.find_doc file w).1 j ≡ recorded w j

abbrev pub error_of : Text → RunError → Bool
error_of file (of_file f e) = text_eq f file
error_of file (of_run e) = false
error_of file (of_selection e) = false

module _ (store : Store) (config : MongoConfig) (recorded : store.World → Text → Bool)
    (collection : Inserts store recorded) (lookup : IsLookup store recorded) where
  open store use {World, find_doc, insert_doc, read_file, sha256}

  -- what the marking of one file does
  abbrev Marked : Text → World → Result Bool × World → Type 0
  Marked file w (ok new, v) =
      ((j : Text) → recorded v j ≡ ((new && text_eq file j) || recorded w j))
      × (recorded w file ≡ not new)
  Marked file w (err e, v) = (j : Text) → recorded v j ≡ recorded w j

  mark_new-Marked :
      (file : Text) (w v : World)
      → ((j : Text) → recorded v j ≡ recorded w j)
      → recorded w file ≡ false
      → Marked file w (mark_new store config file v)
  unfolding mark_new
  mark_new-Marked file w v same new = after_read (read_file file)
    where
      after_read :
          (r : Result Text)
          → Marked file w
              (resume (λ content. insert_doc file (sha256 content) >>= λ _. pure true) (r, v))
      after_read (err e) = same
      after_read (ok content) = after_insert (insert_doc file (sha256 content) v) refl
        where
          after_insert :
              (out : Result (Unit {0}) × World)
              → insert_doc file (sha256 content) v ≡ out
              → Marked file w (resume (λ _. pure true) out)
          after_insert (ok tt, u) e = (
            λ j.
                collection.insert file (sha256 content) v u j e
                ∙ ap (λ b. text_eq file j || b) (same j),
            new,
          )
          after_insert (err x, u) e =
              λ j. collection.insert_err file (sha256 content) x v u j e ∙ same j

  mark_unless-Marked :
      (file : Text) (w v : World) (doc : Option Doc)
      → ((j : Text) → recorded v j ≡ recorded w j)
      → is_some doc ≡ recorded w file
      → Marked file w (mark_unless store config file doc v)
  unfolding mark_unless
  mark_unless-Marked file w v none same k = mark_new-Marked file w v same (sym k)
  mark_unless-Marked file w v (some doc) same k = (same, sym k)

  mark_file-Marked : (file : Text) (w : World) → Marked file w (mark_file store config file w)
  unfolding mark_file
  mark_file-Marked file w = after_find (find_doc file w) refl
    where
      found_same :
          (out : Result (Option Doc) × World)
          → find_doc file w ≡ out
          → (j : Text) → recorded out.1 j ≡ recorded w j
      found_same out e j =
          ap (λ (o : Result (Option Doc) × World). recorded o.1 j) (sym e) ∙ lookup.leaves file w j

      after_find :
          (out : Result (Option Doc) × World)
          → find_doc file w ≡ out
          → Marked file w (resume (mark_unless store config file) out)
      after_find (err x, v) e = found_same (err x, v) e
      after_find (ok doc, v) e =
          mark_unless-Marked file w v doc (found_same (ok doc, v) e) (lookup.finds file w v doc e)

  -- What a baseline did: to the documents that there were it added those of the marked files, which
  -- had none, and every file given has a document or an error of its own.
  pub record BaselineMarks (files : List Text) (w : World) (out : BaselineResult × World)
      : Type 0 where
    pub records : (id : Text) → recorded out.1 id ≡ (among id out.0.marked || recorded w id)
    pub new : All (λ f. recorded w f ≡ false) out.0.marked
    pub settled : All (λ f. (recorded out.1 f || any (error_of f) out.0.errors) ≡ true) files

  step-Marks :
      (file : Text) (files : List Text) (w : World) (out : Result Bool × World)
      → Marked file w out
      → ((v : World) → BaselineMarks files v (baseline store config files v))
      → BaselineMarks
          (file ∷ files)
          w
          (mark_step store config file out (baseline store config files))
  unfolding mark_step
  step-Marks file files w (ok true, v) (h, was) rest =
      let r = rest v in
      record {
        records = λ id. ground (arith, r.records id, h id);
        new = (was, All-map (λ f e. ground (arith, h f, e)) _ r.new);
        settled = (ground (arith, r.records file, h file, text_eq_refl file), r.settled);
      }
  step-Marks file files w (ok false, v) (h, was) rest =
      let r = rest v in
      record {
        records = λ id. ground (arith, r.records id, h id);
        new = All-map (λ f e. ground (arith, h f, e)) _ r.new;
        settled = (ground (arith, r.records file, h file, was), r.settled);
      }
  step-Marks file files w (err e, v) h rest =
      let r = rest v in
      record {
        records = λ id. ground (arith, r.records id, h id);
        new = All-map (λ f n. ground (arith, h f, n)) _ r.new;
        settled =
            (ground (arith, text_eq_refl file), All-map (λ f k. ground (arith, k)) _ r.settled);
      }

  -- A baseline adds to the changelog the documents of the files that it lists as marked, and no
  -- others; none of those had one before, so that no document is replaced; and each file that it
  -- was given has a document afterwards or an error of its own in the result. Assumed is that the
  -- driver's calls do what their documentation says.
  pub baseline-BaselineMarks :
      (files : List Text) (w : World) → BaselineMarks files w (baseline store config files w)
  unfolding baseline
  baseline-BaselineMarks [] w = record { records = λ id. refl; new = tt; settled = tt }
  baseline-BaselineMarks (file ∷ files) w =
      step-Marks file files w (mark_file store config file w) (mark_file-Marked file w)
        (baseline-BaselineMarks files)
