-- ===== src/MariaDb/Files/Annotations/Header.antt =====
-- mariadb-adapter.js, parseFileAnnotations: only the comments above the first statement count.
use db_migrate.Base.{
  ◌≡◌, sym, ap, ◌∙◌, false, List, [], ◌∷◌, ◌++◌, arith, Text, codes, starts_with, split_on, trim,
}
use db_migrate.MariaDb.Files.Annotations.{
  Annotations, no_annotations, is_passed, read_line, read_lines, parse_file_annotations,
}

-- a line that ends the header: neither blank nor a comment
abbrev pub IsCode : Text → Type 0
IsCode line = (is_passed (trim line) ≡ false) × (starts_with (trim line) (codes "--") ≡ false)

read_lines-code :
    (header : List Text) (line : Text) (rest rest' : List Text) (a : Annotations)
    → IsCode line
    → read_lines (header ++ line ∷ rest) a ≡ read_lines (header ++ line ∷ rest') a
unfolding read_lines
read_lines-code [] line rest rest' a h = ground arith
read_lines-code (l ∷ header) line rest rest' a h = ground (
  arith,
  read_lines-code header line rest rest' a h,
  read_lines-code header line rest rest' (read_line (trim l) a) h,
)

-- Two files with the same lines down to their first line of code have the same annotations,
-- whatever stands below it.
pub parse-header :
    (content content' : Text) (header : List Text) (line : Text) (rest rest' : List Text)
    → split_on b'\n' content ≡ header ++ line ∷ rest
    → split_on b'\n' content' ≡ header ++ line ∷ rest'
    → IsCode line
    → parse_file_annotations content ≡ parse_file_annotations content'
unfolding parse_file_annotations
parse-header content content' header line rest rest' e e' h =
    ap (λ ls. read_lines ls no_annotations) e
    ∙ read_lines-code header line rest rest' no_annotations h
    ∙ ap (λ ls. read_lines ls no_annotations) (sym e')
