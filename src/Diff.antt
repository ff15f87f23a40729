-- ===== src/Diff.antt =====
-- src/core/dcl-plan.js, diffLines: the line diff shown by `dcl --plan`. Compact has compactDiff.
pub mod Compact
pub mod Longest
pub mod RoundTrip
mod Tests
use db_migrate.Base.{
  ℕ, ◌+◌, ◌-◌, max, true, false, List, [], ◌∷◌, map, leb, if◌then◌else◌, get_or, drop, Text,
  text_eq, split_on,
}

-- `op` of a diff entry: ' ', '+', '-', and the '…' that compactDiff puts between hunks
pub data Op : Type 0 where
  same plus minus ellipsis : Op

pub record Entry : Type 0 where
  pub op : Op
  pub line : Text

abbrev pub entry : Op → Text → Entry
entry op line = record { op = op; line = line }

-- the row of the last line, all zeros
zeros : List Text → List ℕ
zeros [] = 0 ∷ []
zeros (y ∷ ys) = 0 ∷ zeros ys

-- the inner loop: row `i` from row `i + 1`, filled from its right end
fill_row : Text → List Text → List ℕ → List ℕ
fill_row x [] below = 0 ∷ []
fill_row x (y ∷ ys) below =
    let rest = fill_row x ys (drop 1 below) in
    (if text_eq x y then get_or below 1 0 + 1 else max (get_or below 0 0) (get_or rest 0 0)) ∷ rest

-- the outer loop: the table `lcs`, filled from its last row
fill_table : List Text → List Text → List (List ℕ)
unfolding fill_row zeros
fill_table [] b = zeros b ∷ []
fill_table (x ∷ a) b = let rows = fill_table a b in fill_row x b (get_or rows 0 []) ∷ rows

-- `lcs[i][j]`
cell : List (List ℕ) → ℕ → ℕ → ℕ
cell table i j = get_or (get_or table i []) j 0

-- the three `while` loops, over what is left of the two texts from lines `i` and `j` on
pub walk : List (List ℕ) → ℕ → ℕ → List Text → List Text → List Entry
unfolding cell
walk table i j [] b = map (entry plus) b
walk table i j (x ∷ a) [] = map (entry minus) (x ∷ a)
walk table i j (x ∷ a) (y ∷ b) = elim (text_eq x y) [
  | true ↦ entry same x ∷ walk table (i + 1) (j + 1) a b
  | false ↦ elim (leb (cell table i (j + 1)) (cell table (i + 1) j)) [
    | true ↦ entry minus x ∷ walk table (i + 1) j a (y ∷ b)
    | false ↦ entry plus y ∷ walk table i (j + 1) (x ∷ a) b
  ]
]

abbrev pub newline : ℕ
newline = b'\n'

-- `text.split('\n')`
abbrev pub lines : Text → List Text
lines s = split_on newline s

unfoldable pub diff_lists : List Text → List Text → List Entry
unfolding walk fill_table
diff_lists a b = walk (fill_table a b) 0 0 a b

unfoldable pub diff_lines : Text → Text → List Entry
unfolding diff_lists
diff_lines before after = diff_lists (lines before) (lines after)
