-- ===== src/ValidationGate/Check/Gate.antt =====
-- validation-gate.js, checkMigrationsToRun: what a run that it lets through has.
use db_migrate.Selection.{SelectError, Selection, select_pending_migrations}
use db_migrate.ValidationGate.Check.{
  GateOptions, ValidateOptions, Validated, could_not_run, results, FileResult, Allowed, GateResult,
  no_result, failure_of, used, is_used, read_results, judge, of_selection, check_selected,
  check_migrations_to_run, validation_options_from_cli,
}
use db_migrate.Base.{
  ◌≡◌, refl, sym, ap, ◌∙◌, ◌⊎◌, inl, inr, Bool, true, false, not, Option, none, some, List, [], ◌∷◌,
  ◌++◌, map, append-nil, append_assoc, if◌then◌else◌, filter, Text,
}

abbrev pub invalid : FileResult → Bool
invalid r = not r.valid

-- the allowances used in all files, in their order
abbrev pub used_in : List FileResult → List Allowed
used_in [] = []
used_in (r ∷ rest) = map (used r.file) (filter is_used r.warnings) ++ used_in rest

read_results-filter :
    (rs : List FileResult) (out : GateResult)
    → read_results rs out ≡ record out {
      failures = out.failures ++ map failure_of (filter invalid rs);
      allowed = out.allowed ++ used_in rs;
    }
unfolding read_results
read_results-filter [] out =
    ap (λ l. record out { failures = l; allowed = out.allowed }) (sym (append-nil out.failures))
    ∙ ap (λ l. record out { failures = out.failures ++ []; allowed = l })
        (sym (append-nil out.allowed))
read_results-filter (r ∷ rest) out = split r.valid (read_results-filter rest)
  where
    split :
        (valid : Bool)
        → ((o : GateResult)
            → read_results rest o ≡ record o {
              failures = o.failures ++ map failure_of (filter invalid rest);
              allowed = o.allowed ++ used_in rest;
            })
        → read_results rest (record out {
          failures = if valid then out.failures else out.failures ++ failure_of r ∷ [];
          allowed = out.allowed ++ map (used r.file) (filter is_used r.warnings);
        })
          ≡ record out {
            failures =
                out.failures
                ++ map failure_of
                    (if not valid then r ∷ filter invalid rest else filter invalid rest);
            allowed =
                out.allowed ++ (map (used r.file) (filter is_used r.warnings) ++ used_in rest);
          }
    split true ih =
        ih _
        ∙ ap
            (λ l. record out {
              failures = out.failures ++ map failure_of (filter invalid rest);
              allowed = l;
            })
            (append_assoc out.allowed (map (used r.file) (filter is_used r.warnings))
              (used_in rest))
    split false ih =
        ih _
        ∙ ap
            (λ l. record out {
              failures =
                  (out.failures ++ failure_of r ∷ []) ++ map failure_of (filter invalid rest);
              allowed = l;
            })
            (append_assoc out.allowed (map (used r.file) (filter is_used r.warnings))
              (used_in rest))
        ∙ ap
            (λ l. record out {
              failures = l;
              allowed =
                  out.allowed ++ (map (used r.file) (filter is_used r.warnings) ++ used_in rest);
            })
            (append_assoc out.failures (failure_of r ∷ []) (map failure_of (filter invalid rest)))

module _ (validate : ValidateOptions → List Text → Validated) (options : GateOptions) where
  -- what a check found of the files of a selection: nothing to run, or every result of the
  -- validation of just those files, the invalid ones as failures
  pub record Judged (files : List Text) (g : GateResult) : Type 0 where
    pub same_files : g.files ≡ files
    pub found :
        ((files ≡ []) × (g.failures ≡ []))
        ⊎ ((rs : List FileResult) × (warnings : List Text) × (validate
                (validation_options_from_cli options)
                files
              ≡ results rs warnings)
            × (g.failures ≡ map failure_of (filter invalid rs))
            × (g.allowed ≡ used_in rs))

  judge-Judged :
      (files : List Text) (v : Validated)
      → validate (validation_options_from_cli options) files ≡ v
      → (judge files v).error ≡ none
      → Judged files (judge files v)
  unfolding judge
  judge-Judged files (could_not_run message) e clean = absurd (cc)
  judge-Judged files (results rs warnings) e clean =
      let start : GateResult = record no_result { files = files; config_warnings = warnings } in
      let out = read_results-filter rs start in
      record {
        same_files = ap (λ g. g.files) out;
        found = inr (rs, warnings, e, ap (λ g. g.failures) out, ap (λ g. g.allowed) out);
      }

  check_selected-Judged :
      (s : Selection)
      → (check_selected validate options s).error ≡ none
      → Judged s.selected (check_selected validate options s)
  unfolding check_selected
  check_selected-Judged s clean = split s.error s.selected clean
    where
      split :
          (e : Option SelectError) (files : List Text)
          → (of_selection validate options e files).error ≡ none
          → Judged files (of_selection validate options e files)
      split (some e) files clean = absurd (cc)
      split none [] clean = record { same_files = refl; found = inl (refl, refl) }
      split none (f ∷ files) clean = judge-Judged (f ∷ files) _ refl clean

  -- A check that reports no error judged exactly the files that the run will execute, those that
  -- the same options select of the pending ones: its failures are the classified results of the
  -- invalid files and its allowances those that the files used, none left out; or there is no file
  -- to run.
  pub check-Judged :
      (pending : List Text)
      → (check_migrations_to_run validate pending options).error ≡ none
      → Judged
          (select_pending_migrations pending options.select).selected
          (check_migrations_to_run validate pending options)
  unfolding check_migrations_to_run
  check-Judged pending clean =
      check_selected-Judged (select_pending_migrations pending options.select) clean
