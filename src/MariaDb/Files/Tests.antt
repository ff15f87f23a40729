-- ===== src/MariaDb/Files/Tests.antt =====
-- The sections and the annotations of a small migration file.
use db_migrate.MariaDb.Files.Sections.{extract_section}
use db_migrate.MariaDb.Files.Annotations.Header.{parse-header}
use db_migrate.MariaDb.Files.Annotations.{is_passed, parse_file_annotations}
use db_migrate.Base.{◌≡◌, refl, [], ◌∷◌, Text, codes, starts_with, split_on, trim}

abbrev file : Text
file =
    codes
      "-- @allow: a, b\n-- +migrate Up\n-- +sanity PreCheck\nSELECT 1;\n-- -sanity PreCheck\nCREATE t;\n-- +migrate Down\nDROP t;\n"

up_section : extract_section (codes "up") file ≡ codes "CREATE t;"
unfolding extract_section
up_section = refl

down_section : extract_section (codes "down") file ≡ codes "DROP t;"
unfolding extract_section
down_section = refl

allowed : (parse_file_annotations file).allowed_codes ≡ codes "A" ∷ codes "B" ∷ []
unfolding parse_file_annotations
allowed = refl

parse-header_example :
    parse_file_annotations (codes "-- @allow: x\nDROP;\n-- @allow: y")
    ≡ parse_file_annotations (codes "-- @allow: x\nDROP;")
unfolding is_passed split_on starts_with trim
parse-header_example =
    parse-header (codes "-- @allow: x\nDROP;\n-- @allow: y") (codes "-- @allow: x\nDROP;")
      (codes "-- @allow: x" ∷ []) (codes "DROP;") (codes "-- @allow: y" ∷ []) [] refl refl
      (refl, refl)
