-- ===== src/MariaDb/Up/Recorded.antt =====
-- mariadb-adapter.js, up: which files a run records in the changelog.
use db_migrate.Base.{
  ◌≡◌, refl, ap, ◌⊎◌, inl, inr, Bool, true, false, ◌||◌, List, [], ◌∷◌, ◌++◌, arith, if◌then◌else◌,
  any, Text, codes, text_eq,
}
use db_migrate.MariaDb.{Result, ok, err, Error, new_error, throw}
use db_migrate.MariaDb.Keeps.{Keeps, After, Sets, >>=-Sets, >>=-Keeps, After-intro}
use db_migrate.MariaDb.LockGuard.Effect.{execute-Keeps}
use db_migrate.MariaDb.Files.Sections.{has_section, extract_section}
use db_migrate.MariaDb.Files.Annotations.{resolve_statement_timeout}
use db_migrate.MariaDb.Server.{Server, Config, IsTable, IsApart}
use db_migrate.MariaDb.Up.{
  of_file, UpResult, file_id, lift, execute_section, run_if_any, run_and_record, apply_content,
  apply_file, up_step, up_files,
}

module _ (server : Server) (config : Config) (recorded : server.World → Text → Bool) where
  open server use {World, query, session_statement_time, insert_row, read_file, sha256}

  -- how a run of the files ended, and what it recorded
  pub record UpRan (files : List Text) (w : World) (out : UpResult × World) : Type 0 where
    pub later : List Text
    pub cut : files ≡ out.0.applied ++ later
    pub ended :
        ((later ≡ []) × (out.0.errors ≡ []))
        ⊎ ((f : Text) × (rest : List Text) × (e : Error) × (later ≡ f ∷ rest)
            × (out.0.errors ≡ of_file f e ∷ []))
    pub records :
        (id : Text)
        → recorded out.1 id ≡ (any (λ f. text_eq (file_id f) id) out.0.applied || recorded w id)

  module _ (table : IsTable server recorded) (apart : IsApart server recorded) where
    module _ (id : Text) where
      abbrev pub seen : World → Bool
      seen w = recorded w id

      abbrev adds : Text → Bool → Bool
      adds file b = text_eq (file_id file) id || b

      pub section-Keeps :
          (content sql : Text) → Keeps seen (execute_section server config content sql)
      unfolding execute_section
      section-Keeps content sql =
          >>=-Keeps seen (lift (resolve_statement_timeout config.statement_timeout_sec content)) _
            (λ w. refl)
            (execute-Keeps seen query (λ q w. apart.query_leaves q w id) session_statement_time
              (λ w. apart.time_leaves w id) config.lock_guard sql config.database)

      run_if_any-Keeps : (content sql : Text) → Keeps seen (run_if_any server config content sql)
      unfolding run_if_any
      run_if_any-Keeps content [] = λ w. refl
      run_if_any-Keeps content (c ∷ sql) = section-Keeps content (c ∷ sql)

      pub run-Sets :
          (file content : Text) → Sets seen (adds file) (run_and_record server config file content)
      unfolding run_and_record
      run-Sets file content =
          >>=-Sets seen (adds file)
            (run_if_any server config content (extract_section (codes "up") content)) _
            (run_if_any-Keeps content _)
            λ _ w.
              After-intro seen (adds file) (recorded w id)
                (insert_row (file_id file) (sha256 content) w)
                (λ w' e. table.insert (file_id file) (sha256 content) w w' id e)
                (λ x w' e. table.insert_err (file_id file) (sha256 content) x w w' id e)

      content-Sets :
          (file content : Text) → Sets seen (adds file) (apply_content server config file content)
      unfolding apply_content
      content-Sets file content = go (has_section (codes "up") content)
        where
          go :
              (b : Bool)
              → Sets seen (adds file) (
                  if b
                  then run_and_record server config file content
                  else throw (new_error (codes "no Up section")))
          go true = run-Sets file content
          go false = λ w. refl

      file-Sets : (file : Text) → Sets seen (adds file) (apply_file server config file)
      unfolding apply_file
      file-Sets file =
          >>=-Sets seen (adds file) (lift (read_file file)) _ (λ w. refl) (content-Sets file)

    step-Ran :
        (file : Text) (files : List Text) (w : World) (out : Result (Unit {0}) × World)
        → ((id : Text)
            → After (λ v. recorded v id) (λ b. text_eq (file_id file) id || b) (recorded w id) out)
        → ((v : World) → UpRan files v (up_files server config files v))
        → UpRan (file ∷ files) w (up_step server config file out (up_files server config files))
    unfolding up_step
    step-Ran file files w (ok tt, v) h rest =
        let r = rest v in
        record {
          later = r.later;
          cut = ap (λ l. file ∷ l) r.cut;
          ended = r.ended;
          records = λ id. ground (arith, r.records id, h id);
        }
    step-Ran file files w (err e, v) h rest = record {
      later = file ∷ files;
      cut = refl;
      ended = inr (file, files, e, refl, refl);
      records = h;
    }

    -- A run of files applies an initial part of them: all, with no error, or those before the first
    -- that failed, whose error is then the only one. Afterwards exactly the ids that had a row and
    -- those of the applied files have a row in the changelog table. Assumed is that the server's
    -- statements do what their documentation says, and that the migrations leave that table alone.
    pub up_files-UpRan :
        (files : List Text) (w : World) → UpRan files w (up_files server config files w)
    unfolding up_files
    up_files-UpRan [] w = record {
      later = [];
      cut = refl;
      ended = inl (refl, refl);
      records = λ id. refl;
    }
    up_files-UpRan (file ∷ files) w =
        step-Ran file files w (apply_file server config file w) (λ id. file-Sets id file w)
          (up_files-UpRan files)
