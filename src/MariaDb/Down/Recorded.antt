-- ===== src/MariaDb/Down/Recorded.antt =====
-- mariadb-adapter.js, down: what the rollback of a file does to the changelog table.
use db_migrate.Base.{
  ◌≡◌, refl, sym, ap, ◌∙◌, ◌⊎◌, inl, inr, Bool, true, false, ◌||◌, [], ◌∷◌, arith, if◌then◌else◌,
  Bool-cases, Text, codes, text_eq, text_eq_iff,
}
use db_migrate.MariaDb.{Result, ok, err, Error, pure, throw, ◌>>=◌, ◌>>◌, catch}
use db_migrate.MariaDb.Actions.{ended, returned, threw}
use db_migrate.MariaDb.Files.Sections.{extract_section}
use db_migrate.MariaDb.Server.{Server, Config, IsTable, IsApart}
use db_migrate.MariaDb.Up.{file_id, lift, execute_section}
use db_migrate.MariaDb.Up.Recorded.{section-Keeps}
use db_migrate.MariaDb.Down.{run_down, delete_and_run, roll_back}

module _ (server : Server) (config : Config) (recorded : server.World → Text → Bool) where
  open server use {World, insert_ignore_row, read_file}

  -- The row of the file alone is missing: its Down section failed in a state `u`, and the row could
  -- then not be put back, which ended in `v`.
  pub record Lost (file : Text) (e : Error) (w v : World) : Type 0 where
    pub content : Text
    pub reads : read_file file ≡ ok content
    pub u : World
    pub u' : World
    pub failed :
        execute_section server config content (extract_section (codes "down") content) u
        ≡ (err e, u')
    pub again : Error
    pub not_restored : insert_ignore_row (file_id file) u' ≡ (err again, v)
    pub missing :
        (id : Text) → recorded v id ≡ (if text_eq (file_id file) id then false else recorded w id)

  -- how the rollback of a file ended
  abbrev pub RolledBack : Text → World → Result (Unit {0}) × World → Type 0
  RolledBack file w (ok _, v) =
      (id : Text) → recorded v id ≡ (if text_eq (file_id file) id then false else recorded w id)
  RolledBack file w (err e, v) = ((id : Text) → recorded v id ≡ recorded w id) ⊎ Lost file e w v

  -- An INSERT IGNORE that fails leaves the ids.
  abbrev pub RestoreKeeps : Type 0
  RestoreKeeps =
      (id : Text) (e : Error) (w w' : World) (j : Text)
      → insert_ignore_row id w ≡ (err e, w')
      → recorded w' j ≡ recorded w j

module _ (server : Server) (config : Config) (recorded : server.World → Text → Bool)
    (table : IsTable server recorded) (apart : IsApart server recorded)
    (restore_keeps : RestoreKeeps server config recorded) where
  open server use {World, delete_row, insert_ignore_row, read_file}

  module _ (file content : Text) (reads : read_file file ≡ ok content) (w : World)
      (was : recorded w (file_id file) ≡ true) where
    abbrev Goal : Result (Unit {0}) × World → Type 0
    Goal = RolledBack server config recorded file w

    abbrev without : Text → Bool
    without id = if text_eq (file_id file) id then false else recorded w id

    put_back : (id : Text) → (text_eq (file_id file) id || without id) ≡ recorded w id
    put_back id = elim (Bool-cases (text_eq (file_id file) id)) [
      | inl is ↦
          let same : recorded w id ≡ true =
            ap (recorded w) (sym ((text_eq_iff (file_id file) id).0 is)) ∙ was in
          ground (arith, is, same)
      | inr other ↦ ground (arith, other)
    ]

    -- after the failure of the Down section
    handled :
        (x : Error) (v u : World)
        → ((id : Text) → recorded v id ≡ without id)
        → execute_section server config content (extract_section (codes "down") content) v
          ≡ (err x, u)
        → Goal ((catch (insert_ignore_row (file_id file)) (λ _. pure tt) >> throw x) u)
    handled x v u gone e =
        let kept : (id : Text) → recorded u id ≡ without id = λ id.
          ap (λ (o : Result (Unit {0}) × World). recorded o.1 id) (sym e)
          ∙ section-Keeps server config recorded table apart id content
              (extract_section (codes "down") content) v
          ∙ gone id in
        elim (ended (insert_ignore_row (file_id file) u)) [
          | returned _ u' back ↦ rw back (
              inl λ id.
                table.restore (file_id file) u u' id back
                ∙ ap (λ b. text_eq (file_id file) id || b) (kept id)
                ∙ put_back id)
          | threw y u' lost ↦ rw lost (
              inr (record {
                content = content;
                reads = reads;
                u = v;
                u' = u;
                failed = e;
                again = y;
                not_restored = lost;
                missing = λ id. restore_keeps (file_id file) y u u' id lost ∙ kept id;
              }))
        ]

    section-RolledBack :
        (v : World)
        → ((id : Text) → recorded v id ≡ without id)
        → Goal (
            run_down server config
              (file_id file)
              content
              (extract_section (codes "down") content)
              v)
    unfolding run_down
    section-RolledBack v gone =
        let sql = extract_section (codes "down") content in
        elim (ended (execute_section server config content sql v)) [
          | returned _ u e ↦ rw e (λ id.
              ap (λ (o : Result (Unit {0}) × World). recorded o.1 id) (sym e)
              ∙ section-Keeps server config recorded table apart id content sql v
              ∙ gone id)
          | threw x u e ↦ rw e (handled x v u gone e)
        ]

    delete-RolledBack :
        Goal (delete_and_run server config file content (extract_section (codes "down") content) w)
    unfolding delete_and_run
    delete-RolledBack = go (extract_section (codes "down") content) section-RolledBack
      where
        go :
            (sql : Text)
            → ((v : World)
                → ((id : Text) → recorded v id ≡ without id)
                → Goal (run_down server config (file_id file) content sql v))
            → Goal (delete_and_run server config file content sql w)
        go [] next = inl λ id. refl
        go (c ∷ sql) next = elim (ended (delete_row (file_id file) w)) [
          | returned _ v e ↦ rw e (next v (λ id. table.delete (file_id file) w v id e))
          | threw x v e ↦ rw e (inl λ id. table.delete_err (file_id file) x w v id e)
        ]

  -- The rollback of a file whose id has a row takes that row away and no other if it succeeds. If
  -- it throws, the ids of the changelog table are those of before, with one exception: if the Down
  -- section failed and the row could not be put back either, that row alone is missing, and the
  -- error thrown is the Down section's. Assumed is that the server's statements do what their
  -- documentation says, and that the Down section leaves the changelog table alone.
  pub roll_back-RolledBack :
      (file : Text) (w : World)
      → recorded w (file_id file) ≡ true
      → RolledBack server config recorded file w (roll_back server config file w)
  unfolding roll_back
  roll_back-RolledBack file w was = after-read (read_file file) refl
    where
      after-read :
          (r : Result Text)
          → read_file file ≡ r
          → RolledBack server config recorded file w (
              (lift r >>= λ content.
              delete_and_run server config file content (extract_section (codes "down") content))
                w)
      after-read (ok content) reads = delete-RolledBack file content reads w was
      after-read (err e) reads = inl λ id. refl
