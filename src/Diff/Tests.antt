-- ===== src/Diff/Tests.antt =====
-- The diff of two short texts.
use mathlib.Core.List.{Sublistᴰ}
use db_migrate.Diff.{lines, diff_lines, same, plus, minus, entry, newline}
use db_migrate.Diff.RoundTrip.{lines_where, in_old, in_new, in_both, diff_lines-restores}
use db_migrate.Diff.Longest.{diff_lines-IsLongest}
use db_migrate.Base.{
  ◌≤◌, ◌≡◌, refl, List, [], ◌∷◌, length, Text, codes, text_eq, split_on, join_with,
}

abbrev before : Text
before = codes "a\nb\nc"

abbrev after : Text
after = codes "b\nd\nc"

moved :
    diff_lines before after
    ≡ entry minus (codes "a")
      ∷ entry same (codes "b")
      ∷ entry plus (codes "d")
      ∷ entry same (codes "c")
      ∷ []
unfolding diff_lines split_on text_eq
moved = refl

diff_lines-restores_example :
    (join_with newline (lines_where in_old (diff_lines before after)) ≡ before)
    × (join_with newline (lines_where in_new (diff_lines before after)) ≡ after)
diff_lines-restores_example = diff_lines-restores before after

diff_lines-IsLongest_example :
    Sublistᴰ (lines_where in_both (diff_lines before after)) (lines before)
    × Sublistᴰ (lines_where in_both (diff_lines before after)) (lines after)
    × ((cs : List Text)
        → Sublistᴰ cs (lines before)
        → Sublistᴰ cs (lines after)
        → length cs ≤ length (lines_where in_both (diff_lines before after)))
diff_lines-IsLongest_example = diff_lines-IsLongest before after
