-- ===== src/SourceScan/Tests.antt =====
-- Masked texts of both languages.
use db_migrate.Base.{◌≡◌, refl, ◌↔◌, none, some, Text, codes}
use db_migrate.SourceScan.{sql, js, mask_comments}
use db_migrate.SourceScan.Braces.{find_matching_brace}
use db_migrate.SourceScan.Braces.Matching.{Matches, find_matching_brace-Matches}
use db_migrate.SourceScan.Mask.Grammar.{Masked}
use db_migrate.SourceScan.Mask.{mask_comments-Masked}

sql_comments :
    mask_comments (codes "a -- it's; b\nc '--x' # d") sql ≡ codes "a           \nc '--x'    "
unfolding mask_comments
sql_comments = refl

js_comments : mask_comments (codes "a/*b*/c//d") js ≡ codes "a     c   "
unfolding mask_comments
js_comments = refl

mask_comments-Masked_example :
    Masked sql (codes "x # y\n'#' /* ' */") (mask_comments (codes "x # y\n'#' /* ' */") sql)
mask_comments-Masked_example = mask_comments-Masked (codes "x # y\n'#' /* ' */") sql

-- braces in a literal and in a comment do not count
abbrev braces : Text
braces = codes "f {a('}\\'', {/*}*/ b}) }; }"

braces_found : find_matching_brace braces 2 ≡ some 23
unfolding find_matching_brace mask_comments
braces_found = refl

braces_open : find_matching_brace (codes "{ { }") 0 ≡ none
unfolding find_matching_brace mask_comments
braces_open = refl

find_matching_brace-Matches_example :
    (find_matching_brace braces 2 ≡ some 23) ↔ Matches 2 (codes "a('}\\'', {      b}) }; }") 23
unfolding mask_comments
find_matching_brace-Matches_example =
    find_matching_brace-Matches braces 2 23 (codes "a('}\\'', {      b}) }; }") refl
