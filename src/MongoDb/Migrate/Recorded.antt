-- ===== src/MongoDb/Migrate/Recorded.antt =====
-- mongodb-adapter.js: which files up and down leave recorded in the changelog collection.
pub mod Loops
use db_migrate.MariaDb.{resume, pure, Result, ok, err, Error, new_error, Exec, throw, ◌>>=◌}
use db_migrate.MariaDb.Keeps.{Keeps, After, Sets, After-intro, >>=-Sets, >>=-Keeps, catch-Keeps}
use db_migrate.MariaDb.Up.{lift}
use db_migrate.MongoDb.{Module, Store, MongoConfig}
use db_migrate.MongoDb.Annotations.{resolve_operation_timeout}
use db_migrate.MongoDb.Migrate.{
  load_migration, explain, run_migration_function, run_and_insert, apply_one, run_and_delete,
  rollback_one,
}
use db_migrate.Base.{
  ℕ, suc, ◌-◌, ◌≡◌, refl, sym, ap, ◌∙◌, Option, none, some, if◌then◌else◌, Text, codes, text_eq,
  subst,
}

module _ (store : Store) where
  open store use {World, insert_doc, delete_doc, load_module, read_file}

  -- The changelog as a collection: `documents w file` is how many documents the file has. An insert
  -- that succeeds adds one, a delete of one that succeeds takes one away if there is any, a call that
  -- fails leaves them.
  pub record IsCollection (documents : World → Text → ℕ) : Type 0 where
    pub insert :
        (file sum : Text) (w w' : World) (j : Text)
        → insert_doc file sum w ≡ (ok tt, w')
        → documents w' j ≡ (if text_eq file j then suc (documents w j) else documents w j)
    pub insert_err :
        (file sum : Text) (e : Error) (w w' : World) (j : Text)
        → insert_doc file sum w ≡ (err e, w')
        → documents w' j ≡ documents w j
    pub delete :
        (file : Text) (w w' : World) (j : Text)
        → delete_doc file w ≡ (ok tt, w')
        → documents w' j ≡ (if text_eq file j then documents w j - 1 else documents w j)
    pub delete_err :
        (file : Text) (e : Error) (w w' : World) (j : Text)
        → delete_doc file w ≡ (err e, w')
        → documents w' j ≡ documents w j

  -- a migration's function leaves the changelog
  abbrev pub FunctionKeeps : (World → ℕ) → Option (Option ℕ → Exec World (Unit {0})) → Type 0
  FunctionKeeps seen none = Unit
  FunctionKeeps seen (some fn) = (t : Option ℕ) → Keeps seen (fn t)

  -- The migrations write to other collections than the changelog.
  pub record IsApart (documents : World → Text → ℕ) : Type 0 where
    pub load :
        (file : Text) (w : World) (j : Text) → documents (load_module file w).1 j ≡ documents w j
    pub ups :
        (file : Text) (w w' : World) (m : Module World) (j : Text)
        → load_module file w ≡ (ok m, w')
        → FunctionKeeps (λ v. documents v j) m.up
    pub downs :
        (file : Text) (w w' : World) (m : Module World) (j : Text)
        → load_module file w ≡ (ok m, w')
        → FunctionKeeps (λ v. documents v j) m.down

module _ (store : Store) (config : MongoConfig) (documents : store.World → Text → ℕ)
    (collection : IsCollection store documents) (apart : IsApart store documents) (id : Text) where
  open store use {World, insert_doc, delete_doc, load_module, read_file, sha256}

  abbrev pub seen : World → ℕ
  seen w = documents w id

  abbrev pub adds : Text → ℕ → ℕ
  adds file n = if text_eq file id then suc n else n

  abbrev pub removes : Text → ℕ → ℕ
  removes file n = if text_eq file id then n - 1 else n

  function-Keeps :
      (fn : Option ℕ → Exec World (Unit {0})) (content : Text)
      → ((t : Option ℕ) → Keeps seen (fn t))
      → Keeps seen (run_migration_function store config fn content)
  unfolding run_migration_function
  function-Keeps fn content h =
      >>=-Keeps seen (lift (resolve_operation_timeout config.operation_timeout_ms content)) _
        (λ w. refl)
        λ t.
          catch-Keeps seen (fn t.timeout_ms) (λ e. throw (explain store config t e))
            (h t.timeout_ms) (λ e w. refl)

  insert-Sets :
      (file content : Text) (m : Module World)
      → FunctionKeeps store seen m.up
      → Sets seen (adds file) (run_and_insert store config file content m)
  unfolding run_and_insert
  insert-Sets file content m h = go m.up h
    where
      go :
          (o : Option (Option ℕ → Exec World (Unit {0})))
          → FunctionKeeps store seen o
          → Sets seen (adds file) (elim o [
            | none ↦ throw (new_error (codes "Migration must export an \"up\" function"))
            | some up ↦ run_migration_function store config up content >>= λ _.
                insert_doc file (sha256 content)
          ])
      go none k = λ w. refl
      go (some up) k =
          >>=-Sets seen (adds file) (run_migration_function store config up content) _
            (function-Keeps up content k)
            λ _ w.
              After-intro seen (adds file) (documents w id) (insert_doc file (sha256 content) w)
                (λ w' e. collection.insert file (sha256 content) w w' id e)
                (λ x w' e. collection.insert_err file (sha256 content) x w w' id e)

  delete-Sets :
      (file content : Text) (m : Module World)
      → FunctionKeeps store seen m.down
      → Sets seen (removes file) (run_and_delete store config file content m)
  unfolding run_and_delete
  delete-Sets file content m h = go m.down h
    where
      go :
          (o : Option (Option ℕ → Exec World (Unit {0})))
          → FunctionKeeps store seen o
          → Sets seen (removes file) (elim o [
            | none ↦ throw (new_error (codes "Migration must export a \"down\" function"))
            | some down ↦ run_migration_function store config down content >>= λ _. delete_doc file
          ])
      go none k = λ w. refl
      go (some down) k =
          >>=-Sets seen (removes file) (run_migration_function store config down content) _
            (function-Keeps down content k)
            λ _ w.
              After-intro seen (removes file) (documents w id) (delete_doc file w)
                (λ w' e. collection.delete file w w' id e)
                (λ x w' e. collection.delete_err file x w w' id e)

  -- what follows the reading of a migration's file and the import of its module
  pub loaded-then :
      {B : Type 0} (P : Result B × World → Type 0) (file : Text)
      (k : Text × Module World → Exec World B) (w : World)
      → ((content : Text) (m : Module World) (w' : World)
          → load_module file w ≡ (ok m, w')
          → documents w' id ≡ documents w id
          → P (k (content, m) w'))
      → ((e : Error) (w' : World) → documents w' id ≡ documents w id → P (err e, w'))
      → P ((load_migration store config file >>= k) w)
  unfolding load_migration
  loaded-then {B} P file k w h fails = after_read (read_file file)
    where
      same :
          (out : Result (Module World) × World)
          → load_module file w ≡ out
          → documents out.1 id ≡ documents w id
      same out e =
          ap (λ (o : Result (Module World) × World). documents o.1 id) (sym e)
          ∙ apart.load file w id

      after_load :
          (content : Text) (out : Result (Module World) × World)
          → load_module file w ≡ out
          → P (resume k (resume (λ m. pure (content, m)) out))
      after_load content (ok m, w') e = h content m w' e (same (ok m, w') e)
      after_load content (err x, w') e = fails x w' (same (err x, w') e)

      after_read :
          (r : Result Text)
          → P (resume k (resume (λ content. load_module file >>= λ m. pure (content, m)) (r, w)))
      after_read (ok content) = after_load content (load_module file w) refl
      after_read (err e) = fails e w refl

  loaded-After :
      (g : ℕ → ℕ) (file : Text) (k : Text × Module World → Exec World (Unit {0})) (w : World)
      → ((content : Text) (m : Module World) (w' : World)
          → load_module file w ≡ (ok m, w')
          → Sets seen g (k (content, m)))
      → After seen g (documents w id) ((load_migration store config file >>= k) w)
  loaded-After g file k w h =
      loaded-then (After seen g (documents w id)) file k w
        (λ content m w' e same.
          subst (λ b. After seen g b (k (content, m) w')) same (h content m w' e w'))
        (λ e w' same. same)

  pub apply_one-Sets : (file : Text) → Sets seen (adds file) (apply_one store config file)
  unfolding apply_one
  apply_one-Sets file w =
      loaded-After (adds file) file _ w
        λ content m w' e. insert-Sets file content m (apart.ups file w w' m id e)

  pub rollback_one-Sets : (file : Text) → Sets seen (removes file) (rollback_one store config file)
  unfolding rollback_one
  rollback_one-Sets file w =
      loaded-After (removes file) file _ w
        λ content m w' e. delete-Sets file content m (apart.downs file w w' m id e)
