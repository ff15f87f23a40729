-- ===== src/SchemaDiff/Tests.antt =====
-- A table that gets a column.
use db_migrate.SchemaDiff.{
  Field, Container, container_name, diff_schema_snapshots, is_diff_empty, diff_fields, scan_fields,
  scan_containers, place_field, place_container, no_fields, is_different,
}
use db_migrate.SchemaDiff.Maps.{new_map, get, has, Match}
use db_migrate.SchemaDiff.Empty.{SameContainer, is_diff_empty-SameContainer}
use db_migrate.SchemaDiff.Kinds.{Kinds, diff_schema_snapshots-Kinds}
use db_migrate.Base.{◌≡◌, refl, true, false, not, some, [], ◌∷◌, is_some, filter, codes}

abbrev id_column : Field
id_column = record {
  name = codes "id";
  type = some (codes "int");
  nullable = some false;
  key = some (codes "PRI");
}

abbrev mail_column : Field
mail_column = record {
  name = codes "mail";
  type = some (codes "text");
  nullable = some true;
  key = some [];
}

abbrev users : Container
users = record { name = codes "users"; fields = id_column ∷ [] }

abbrev users_with_mail : Container
users_with_mail = record { name = codes "users"; fields = id_column ∷ mail_column ∷ [] }

grown : is_diff_empty (diff_schema_snapshots (users ∷ []) (users_with_mail ∷ [])) ≡ false
unfolding is_diff_empty diff_schema_snapshots new_map get has scan_containers place_container
    diff_fields scan_fields place_field no_fields is_different
grown = refl

unchanged : is_diff_empty (diff_schema_snapshots (users ∷ []) (users ∷ [])) ≡ true
unfolding is_diff_empty diff_schema_snapshots new_map get has scan_containers place_container
    diff_fields scan_fields place_field no_fields is_different
unchanged = refl

is_diff_empty-SameContainer_example :
    Match container_name SameContainer
      (get container_name (codes "users") (new_map container_name (users ∷ [])))
      (get container_name (codes "users") (new_map container_name (users ∷ [])))
is_diff_empty-SameContainer_example =
    is_diff_empty-SameContainer (users ∷ []) (users ∷ []) unchanged (codes "users")

diff_schema_snapshots-Kinds_example :
    Kinds
      (new_map container_name (users ∷ []))
      (new_map container_name (users_with_mail ∷ []))
      (diff_schema_snapshots (users ∷ []) (users_with_mail ∷ [])).added
      (diff_schema_snapshots (users ∷ []) (users_with_mail ∷ [])).changed
      (diff_schema_snapshots (users ∷ []) (users_with_mail ∷ [])).unchanged_count
    × ((diff_schema_snapshots (users ∷ []) (users_with_mail ∷ [])).removed
        ≡ filter
            (λ c.
              not (
                is_some
                  (get container_name c.name (new_map container_name (users_with_mail ∷ [])))))
            (new_map container_name (users ∷ [])))
diff_schema_snapshots-Kinds_example =
    diff_schema_snapshots-Kinds (users ∷ []) (users_with_mail ∷ [])
