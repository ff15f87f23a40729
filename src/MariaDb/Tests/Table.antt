-- ===== src/MariaDb/Tests/Table.antt =====
-- A server whose state is the changelog's rows alone, and that it is one.
use db_migrate.MariaDb.{Result, ok}
use db_migrate.MariaDb.Server.{Row, Server, by_id, IsTable, IsSelect, IsApart, IsSetup}
use db_migrate.Base.{
  ◌≡◌, refl, sym, ap, ◌∙◌, inl, inr, Bool, true, false, not, Option, none, some, List, [], ◌∷◌, map,
  arith, if◌then◌else◌, Bool-cases, is_some, filter, any, Text, codes, text_eq, text_eq_iff,
}

abbrev pub row_of : Text → Option Text → Row
row_of id sum = record { id = id; checksum = sum; applied_at = 0 }

abbrev pub recorded : List Row → Text → Bool
recorded rows id = any (λ r. text_eq r.id id) rows

pub set_checksum : Text → Text → List Row → List Row
set_checksum id sum rows = map (λ r. if text_eq r.id id then row_of r.id (some sum) else r) rows

abbrev pub migration : Text
migration = codes "-- +migrate Up\nCREATE a;\n-- +migrate Down\nDROP a;\n"

abbrev pub table_server : Server
table_server = record {
  World = List Row;
  query = λ q w. (ok tt, w);
  session_statement_time = λ w. (ok 0, w);
  schema_exists = λ db w. (ok true, w);
  create_database = λ db w. (ok tt, w);
  create_changelog = λ w. (ok tt, w);
  has_checksum_column = λ w. (ok true, w);
  add_checksum_column = λ w. (ok tt, w);
  changelog_columns = λ w. (ok (some (codes "id" ∷ codes "checksum" ∷ [])), w);
  select_rows = λ w. (ok w, w);
  select_rows_without_checksum = λ w. (ok w, w);
  insert_row = λ id sum w. (ok tt, row_of id (some sum) ∷ w);
  insert_ignore_row = λ id w. (ok tt, row_of id none ∷ w);
  delete_row = λ id w. (ok tt, filter (λ r. not (text_eq id r.id)) w);
  update_checksum = λ id sum w. (ok tt, set_checksum id sum w);
  read_dir = ok (codes "2_b.sql" ∷ codes "1_a.sql" ∷ codes "R__v.sql" ∷ []);
  read_file = λ file. ok migration;
  sha256 = λ text. codes "sum";
}

recorded-filter :
    (id j : Text) (rows : List Row)
    → recorded (filter (λ r. not (text_eq id r.id)) rows) j
      ≡ (if text_eq id j then false else recorded rows j)
recorded-filter id j [] = go (text_eq id j)
  where
    go : (b : Bool) → false ≡ (if b then false else false)
    go true = refl
    go false = refl
recorded-filter id j (r ∷ rows) =
    let ih = recorded-filter id j rows in
    elim (Bool-cases (text_eq id r.id)) [
      | inl same ↦ ground (arith, ih, ap (λ x. text_eq x j) ((text_eq_iff id r.id).0 same))
      | inr other ↦ elim (Bool-cases (text_eq r.id j)) [
        | inl hit ↦ elim (Bool-cases (text_eq id j)) [
          | inl both ↦
              let mine = (text_eq_iff id j).0 both in
              let its = (text_eq_iff r.id j).0 hit in
              let apart : text_eq id r.id ≡ true = (text_eq_iff id r.id).1 (mine ∙ sym its) in
              absurd (cc)
          | inr not_mine ↦ ground (arith, ih)
        ]
        | inr miss ↦ ground (arith, ih)
      ]
    ]

recorded-set :
    (id sum j : Text) (rows : List Row) → recorded (set_checksum id sum rows) j ≡ recorded rows j
unfolding set_checksum
recorded-set id sum j [] = refl
recorded-set id sum j (r ∷ rows) = ground (arith, recorded-set id sum j rows)

by_id-recorded : (rows : List Row) (id : Text) → is_some (by_id id rows) ≡ recorded rows id
unfolding by_id
by_id-recorded [] id = refl
by_id-recorded (r ∷ rows) id = ground (arith, by_id-recorded rows id)

after-eq :
    (id : Text) {r : Result (Unit {0})} {v w' : List Row}
    → (Path (Result (Unit {0}) × List Row) (r, v) (ok tt, w'))
    → recorded w' id ≡ recorded v id
after-eq id e = ap (λ (o : Result (Unit {0}) × List Row). recorded o.1 id) (sym e)

pub table_server-IsTable : IsTable table_server recorded
table_server-IsTable = record {
  insert = λ id sum w w' j e. after-eq j e;
  insert_err = λ id sum e w w' j h. absurd (cc);
  delete = λ id w w' j e. after-eq j e ∙ recorded-filter id j w;
  delete_err = λ id e w w' j h. absurd (cc);
  restore = λ id w w' j e. after-eq j e;
  update = λ id sum w j. recorded-set id sum j w;
}

pub table_server-IsSelect : IsSelect table_server recorded
table_server-IsSelect = record {
  shows = λ w w' rows id e. by_id-recorded rows id ∙ cc;
  leaves = λ w id. refl;
}

pub table_server-IsApart : IsApart table_server recorded
table_server-IsApart = record { query_leaves = λ q w id. refl; time_leaves = λ w id. refl }

pub table_server-IsSetup : IsSetup table_server recorded
table_server-IsSetup = record {
  schema = λ db w id. refl;
  database = λ db w id. refl;
  changelog = λ w id. refl;
  column = λ w id. refl;
  new_column = λ w id. refl;
}
