-- ===== src/SchemaDiff.antt =====
-- src/core/schema-diff.js: what changed between two snapshots of a schema.
pub mod Maps
pub mod Empty
pub mod Kinds
mod Tests
use db_migrate.SchemaDiff.Maps.{new_map, get, has}
use db_migrate.Base.{
  ℕ, ◌+◌, Bool, true, false, not, ◌&&◌, ◌||◌, Option, none, some, List, [], ◌∷◌, ◌==◌,
  if◌then◌else◌, length, filter, Text, text_eq,
}

-- A column or a field of a document. A property that it does not have is `none`.
pub record Field : Type 0 where
  pub name : Text
  pub type : Option Text
  pub nullable : Option Bool
  pub key : Option Text

-- a table or a collection, by `containerName` and `containerFields`
pub record Container : Type 0 where
  pub name : Text
  pub fields : List Field

pub record FieldChange : Type 0 where
  pub name : Text
  pub before : Field
  pub after : Field

pub record FieldDiff : Type 0 where
  pub added_fields : List Field
  pub removed_fields : List Field
  pub changed_fields : List FieldChange

pub record ContainerChange : Type 0 where
  pub name : Text
  pub diff : FieldDiff

pub record SchemaDiff : Type 0 where
  pub added : List Container
  pub removed : List Container
  pub changed : List ContainerChange
  pub unchanged_count : ℕ

abbrev pub field_name : Field → Text
field_name f = f.name

abbrev pub container_name : Container → Text
container_name c = c.name

unfoldable pub text_differs : Option Text → Option Text → Bool
unfolding text_eq
text_differs none none = false
text_differs (some s) (some t) = not (text_eq s t)
text_differs _ _ = true

pub bool_differs : Option Bool → Option Bool → Bool
bool_differs none none = false
bool_differs (some true) (some true) = false
bool_differs (some false) (some false) = false
bool_differs _ _ = true

-- `isDifferent`; a key that neither has is undefined on both sides, so it need not be left out
unfoldable pub is_different : Field → Field → Bool
unfolding text_differs bool_differs
is_different before after =
    text_differs before.type after.type
    || bool_differs before.nullable after.nullable
    || text_differs before.key after.key

-- one round of the loop over the fields after, put before what the later rounds find
pub place_field : Field → Option Field → FieldDiff → FieldDiff
place_field f none d = record d { added_fields = f ∷ d.added_fields }
place_field f (some before) d =
    if is_different before f
    then record d {
      changed_fields = record { name = f.name; before = before; after = f } ∷ d.changed_fields;
    }
    else d

pub scan_fields : List Field → List Field → FieldDiff
scan_fields before [] = record { added_fields = []; removed_fields = []; changed_fields = [] }
scan_fields before (f ∷ fs) = place_field f (get field_name f.name before) (scan_fields before fs)

-- the comparison of two containers of one name
pub diff_fields : List Field → List Field → FieldDiff
diff_fields before after =
    let before_fields = new_map field_name before in
    let after_fields = new_map field_name after in
    record (scan_fields before_fields after_fields) {
      removed_fields = filter (λ f. not (has field_name f.name after_fields)) before_fields;
    }

unfoldable pub no_fields : FieldDiff → Bool
no_fields d =
    length d.added_fields == 0 && length d.removed_fields == 0 && length d.changed_fields == 0

-- one round of the loop over the containers after
pub place_container : Container → Option Container → SchemaDiff → SchemaDiff
place_container c none d = record d { added = c ∷ d.added }
place_container c (some before) d =
    let fields = diff_fields before.fields c.fields in
    if no_fields fields
    then record d { unchanged_count = d.unchanged_count + 1 }
    else record d { changed = record { name = c.name; diff = fields } ∷ d.changed }

pub scan_containers : List Container → List Container → SchemaDiff
scan_containers before [] = record { added = []; removed = []; changed = []; unchanged_count = 0 }
scan_containers before (c ∷ cs) =
    place_container c (get container_name c.name before) (scan_containers before cs)

pub diff_schema_snapshots : List Container → List Container → SchemaDiff
diff_schema_snapshots before after =
    let before_map = new_map container_name before in
    let after_map = new_map container_name after in
    record (scan_containers before_map after_map) {
      removed = filter (λ c. not (has container_name c.name after_map)) before_map;
    }

unfoldable pub is_diff_empty : SchemaDiff → Bool
is_diff_empty d = length d.added == 0 && length d.removed == 0 && length d.changed == 0
