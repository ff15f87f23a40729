-- ===== src/Diff/RoundTrip.antt =====
-- dcl-plan.js, diffLines: what can be read off a diff, and that both texts can.
use db_migrate.Base.{
  ℕ, ◌+◌, ◌≡◌, refl, ap, Bool, true, false, List, [], ◌∷◌, map, arith, filter, Text, text_eq_iff,
  join_with, join_with-split_on,
}
use db_migrate.Diff.{same, plus, minus, Entry, entry, walk, diff_lists, diff_lines, newline}

abbrev pub in_old : Entry → Bool
in_old e = elim e.op [ same ↦ true | minus ↦ true | _ ↦ false ]

abbrev pub in_new : Entry → Bool
in_new e = elim e.op [ same ↦ true | plus ↦ true | _ ↦ false ]

abbrev pub in_both : Entry → Bool
in_both e = elim e.op [ same ↦ true | _ ↦ false ]

abbrev pub line_of : Entry → Text
line_of e = e.line

-- the lines of the entries that a test selects
abbrev pub lines_where : (Entry → Bool) → List Entry → List Text
lines_where p d = map line_of (filter p d)

old-plus : (b : List Text) → lines_where in_old (map (entry plus) b) ≡ []
old-plus [] = refl
old-plus (y ∷ b) = old-plus b

old-minus : (a : List Text) → lines_where in_old (map (entry minus) a) ≡ a
old-minus [] = refl
old-minus (x ∷ a) = ap (λ r. x ∷ r) (old-minus a)

new-plus : (b : List Text) → lines_where in_new (map (entry plus) b) ≡ b
new-plus [] = refl
new-plus (x ∷ a) = ap (λ r. x ∷ r) (new-plus a)

new-minus : (a : List Text) → lines_where in_new (map (entry minus) a) ≡ []
new-minus [] = refl
new-minus (x ∷ a) = new-minus a

pub old-walk :
    (t : List (List ℕ)) (i j : ℕ) (a b : List Text) → lines_where in_old (walk t i j a b) ≡ a
unfolding walk
old-walk t i j [] b = old-plus b
old-walk t i j (x ∷ a) [] = old-minus (x ∷ a)
old-walk t i j (x ∷ a) (y ∷ b) = ground (
  arith,
  old-walk t (i + 1) (j + 1) a b,
  old-walk t (i + 1) j a (y ∷ b),
  old-walk t i (j + 1) (x ∷ a) b,
)

pub new-walk :
    (t : List (List ℕ)) (i j : ℕ) (a b : List Text) → lines_where in_new (walk t i j a b) ≡ b
unfolding walk
new-walk t i j [] b = new-plus b
new-walk t i j (x ∷ a) [] = new-minus (x ∷ a)
new-walk t i j (x ∷ a) (y ∷ b) = ground (
  arith,
  new-walk t (i + 1) (j + 1) a b,
  new-walk t (i + 1) j a (y ∷ b),
  new-walk t i (j + 1) (x ∷ a) b,
  text_eq_iff x y,
)

-- For every two texts, the old text is the lines of the diff marked ' ' or '-', joined by newlines,
-- and the new text is the lines marked ' ' or '+', joined by newlines.
pub diff_lines-restores :
    (before after : Text)
    → (join_with newline (lines_where in_old (diff_lines before after)) ≡ before)
      × (join_with newline (lines_where in_new (diff_lines before after)) ≡ after)
unfolding diff_lines diff_lists
diff_lines-restores before after = (
  rw old-walk (join_with-split_on newline before),
  rw new-walk (join_with-split_on newline after),
)
