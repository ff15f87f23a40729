-- ===== src/MariaDb/Status/Shows.antt =====
-- mariadb-adapter.js, status: what a status says about the changelog table.
use db_migrate.Base.{
  ◌≡◌, refl, sym, ap, ◌∙◌, Bool, true, false, not, Option, none, some, List, [], ◌∷◌, if◌then◌else◌,
  is_some, filter, Text, codes, text_eq, truthy, filter-cong,
}
use db_migrate.MariaDb.{◌>>=◌, Result, ok, pure, throw, catch, use_database}
use db_migrate.MariaDb.Actions.{>>=-eq-ok}
use db_migrate.MariaDb.Keeps.{Keeps, >>=-Keeps, catch-Keeps, if-Keeps}
use db_migrate.MariaDb.Server.{Row, Server, Config, by_id, IsTable, IsSelect, IsApart, IsSetup}
use db_migrate.MariaDb.Up.{lift, file_id}
use db_migrate.MariaDb.Status.Partition.{has_row, classify-partition}
use db_migrate.MariaDb.Status.{
  migration_files, Status, read_status, read_rows, Loop, Verdict, fine, mismatch, baseline,
  add_column_if_missing, create_if_allowed, select_database, ensure_changelog_table, rows_to_write,
  write_verdict, write_row, check_file, check_files, classify, verdict,
}

module _ (server : Server) (config : Config) (recorded : server.World → Text → Bool)
    (table : IsTable server recorded) (select : IsSelect server recorded)
    (apart : IsApart server recorded) (setup : IsSetup server recorded) where
  open server use {
    World, query, schema_exists, create_changelog, create_database, has_checksum_column,
    add_checksum_column, select_rows, update_checksum, read_dir,
  }

  module _ (id : Text) where
    abbrev seen : World → Bool
    seen w = recorded w id

    column-Keeps : Keeps seen (add_column_if_missing server config)
    unfolding add_column_if_missing
    column-Keeps = >>=-Keeps seen has_checksum_column _ (λ w. setup.column w id) go
      where
        go :
            (there : Bool)
            → Keeps seen (elim there [
              | true ↦ pure tt
              | false ↦
                  catch add_checksum_column
                    λ e. if text_eq e.code (codes "ER_DUP_FIELDNAME") then pure tt else throw e
            ])
        go true = λ w. refl
        go false =
            catch-Keeps seen add_checksum_column _ (λ w. setup.new_column w id)
              λ e.
                if-Keeps seen (text_eq e.code (codes "ER_DUP_FIELDNAME")) _ _ (λ w. refl)
                  (λ w. refl)

    create-Keeps : (db : Text) → Keeps seen (create_if_allowed server config db)
    unfolding create_if_allowed
    create-Keeps db =
        if-Keeps seen config.create_database_if_missing _ _ (λ w. setup.database db w id)
          (λ w. refl)

    database-Keeps : (db : Option Text) → Keeps seen (select_database server config db)
    unfolding select_database
    database-Keeps none = λ w. refl
    database-Keeps (some db) =
        >>=-Keeps seen (schema_exists db) _ (λ w. setup.schema db w id)
          λ there.
            >>=-Keeps seen (if there then pure tt else create_if_allowed server config db) _
              (if-Keeps seen there (pure tt) (create_if_allowed server config db) (λ w. refl)
                (create-Keeps db))
              (λ _ w. apart.query_leaves (use_database db) w id)

    ensure-Keeps : Keeps seen (ensure_changelog_table server config)
    unfolding ensure_changelog_table
    ensure-Keeps =
        >>=-Keeps seen (select_database server config (truthy config.database)) _
          (database-Keeps (truthy config.database))
          λ _. >>=-Keeps seen create_changelog _ (λ w. setup.changelog w id) λ _. column-Keeps

    write-Keeps : (file : Text) (v : Verdict) → Keeps seen (write_verdict server config file v)
    unfolding write_verdict
    write-Keeps file fine = λ w. refl
    write-Keeps file mismatch = λ w. refl
    write-Keeps file (baseline sum) = λ w. table.update file sum w id

    row-Keeps : (file : Text) (row : Option Row) → Keeps seen (write_row server config file row)
    unfolding write_row
    row-Keeps file none = λ w. refl
    row-Keeps file (some row) = write-Keeps (file_id file) (verdict server config row file)

    check-Keeps :
        (rows : List Row) (files : List Text) (l : Loop)
        → Keeps seen (check_files server config rows files l)
    unfolding check_files check_file
    check-Keeps rows [] l = λ w. refl
    check-Keeps rows (file ∷ files) l =
        >>=-Keeps seen (check_file server config rows file l) _
          (>>=-Keeps seen (write_row server config file (by_id (file_id file) rows)) _
            (row-Keeps file (by_id (file_id file) rows)) (λ _ w. refl))
          (check-Keeps rows files)

    classify-Keeps :
        (rows : List Row) (files : List Text) → Keeps seen (classify server config rows files)
    unfolding classify
    classify-Keeps rows files =
        >>=-Keeps seen (check_files server config rows files _) _ (check-Keeps rows files _)
          (λ l w. refl)

    rows-show :
        (w w' : World) (rows : List Row)
        → rows_to_write server config w ≡ (ok rows, w')
        → (is_some (by_id id rows) ≡ recorded w id) × (recorded w' id ≡ recorded w id)
    unfolding rows_to_write
    rows-show w w' rows e =
        let (_, v, ensured, selected) =
          >>=-eq-ok (ensure_changelog_table server config) (λ _. select_rows) w rows w' e in
        let same : recorded v id ≡ recorded w id =
          ap (λ (o : Result (Unit {0}) × World). recorded o.1 id) (sym ensured) ∙ ensure-Keeps w in
        (
          select.shows v w' rows id selected ∙ same,
          ap (λ (o : Result (List Row) × World). recorded o.1 id) (sym selected)
              ∙ select.leaves v id
              ∙ same,
        )

  shown :
      (file : Text) (rows : List Row) (w w' : World)
      → rows_to_write server config w ≡ (ok rows, w')
      → has_row server config rows file ≡ recorded w (file_id file)
  shown file rows w w' e = (rows-show (file_id file) w w' rows e).0

  status-eq :
      (w : World)
      → config.repeatable ≡ false
      → config.read_only ≡ false
      → read_status server config w
        ≡ (rows_to_write server config >>= λ rows.
              lift read_dir >>= λ files. classify server config rows (migration_files files))
            w
  unfolding read_status read_rows
  status-eq w once writes = rw (once, writes) refl

  -- A status that is computed by a command that may write lists as pending the migration files of
  -- the directory whose id has no row in the changelog table, as applied those whose id has one, in
  -- the order of the sorted names, and leaves the ids of the table as they were; under the
  -- assumption that the server answers as the documentation of its statements says.
  pub status-shows :
      (st : Status) (w w' : World)
      → config.repeatable ≡ false
      → config.read_only ≡ false
      → read_status server config w ≡ (ok st, w')
      → (names : List Text) × (read_dir ≡ ok names)
        × (st.pending ≡ filter (λ f. not (recorded w (file_id f))) (migration_files names))
        × (st.applied ≡ filter (λ f. recorded w (file_id f)) (migration_files names))
        × ((id : Text) → recorded w' id ≡ recorded w id)
  status-shows st w w' once writes e =
      let (rows, v, read, rest) =
        >>=-eq-ok (rows_to_write server config)
          (λ rows. lift read_dir >>= λ files. classify server config rows (migration_files files)) w
          st w' (sym (status-eq w once writes) ∙ e) in
      let (names, u, listed, classified) =
        >>=-eq-ok (lift read_dir) (λ files. classify server config rows (migration_files files)) v
          st w' rest in
      let (p, a, _, _, _) =
        classify-partition server config rows (migration_files names) st u w' classified in
      let same : u ≡ v = cc in
      (
        names,
        cc,
        p ∙ filter-cong _ _ (λ f. ap not (shown f rows w v read)) (migration_files names),
        a ∙ filter-cong _ _ (λ f. shown f rows w v read) (migration_files names),
        λ id.
            ap (λ (o : Result Status × World). recorded o.1 id) (sym classified)
            ∙ classify-Keeps id rows (migration_files names) u
            ∙ ap (λ x. recorded x id) same
            ∙ (rows-show id w v rows read).1,
      )
