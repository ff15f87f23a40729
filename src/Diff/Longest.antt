-- ===== src/Diff/Longest.antt =====
-- dcl-plan.js, diffLines: the unchanged lines are a longest common subsequence of the two texts.
use mathlib.Core.List.{Sublistᴰ}
use mathlib.Core.List.Sublistᴰ
use native.Mathlib.Nat.{add-zero, zero-add}
use db_migrate.Base.{
  ℕ, zero, suc, ◌+◌, ◌≤◌, max, ◌≡◌, refl, sym, ap, ◌∙◌, inl, inr, Bool, true, false, List, [], ◌∷◌,
  map, arith, Bool-cases, length, get_or, drop, filter, Text, text_eq, text_eq_iff,
}
use db_migrate.Diff.{
  plus, minus, Entry, entry, zeros, fill_row, fill_table, cell, walk, diff_lists, lines, diff_lines,
}
use db_migrate.Diff.RoundTrip.{in_old, in_new, in_both, line_of, lines_where, old-walk, new-walk}

-- the length of a longest common subsequence, by the textbook recurrence
lcs : List Text → List Text → ℕ
lcs [] b = 0
lcs (x ∷ a) [] = 0
lcs (x ∷ a) (y ∷ b) = elim (text_eq x y) [
  | true ↦ suc (lcs a b)
  | false ↦ max (lcs a (y ∷ b)) (lcs (x ∷ a) b)
]

get_or-drop_one : (l : List ℕ) (j : ℕ) → get_or (drop 1 l) j 0 ≡ get_or l (suc j) 0
get_or-drop_one [] j = refl
get_or-drop_one (d ∷ l) j = refl

fill_row-lcs :
    (x : Text) (a b : List Text) (below : List ℕ)
    → ((j : ℕ) → get_or below j 0 ≡ lcs a (drop j b))
    → (j : ℕ) → get_or (fill_row x b below) j 0 ≡ lcs (x ∷ a) (drop j b)
unfolding fill_row lcs
fill_row-lcs x a [] below h zero = refl
fill_row-lcs x a [] below h (suc j) = refl
fill_row-lcs x a (y ∷ b) below h zero = ground (
  arith,
  h 0,
  h 1,
  fill_row-lcs x a b (drop 1 below) (λ j. get_or-drop_one below j ∙ h (suc j)) 0,
)
fill_row-lcs x a (y ∷ b) below h (suc j) =
    fill_row-lcs x a b (drop 1 below) (λ k. get_or-drop_one below k ∙ h (suc k)) j

get_or-zeros : (b : List Text) (j : ℕ) → get_or (zeros b) j 0 ≡ 0
unfolding zeros
get_or-zeros [] zero = refl
get_or-zeros [] (suc j) = refl
get_or-zeros (y ∷ b) zero = refl
get_or-zeros (y ∷ b) (suc j) = get_or-zeros b j

lcs-nil : (a : List Text) → lcs a [] ≡ 0
unfolding lcs
lcs-nil [] = refl
lcs-nil (x ∷ a) = refl

cell-lcs : (a b : List Text) (i j : ℕ) → cell (fill_table a b) i j ≡ lcs (drop i a) (drop j b)
unfolding cell fill_table
cell-lcs [] b zero j = unfold lcs in get_or-zeros b j
cell-lcs [] b (suc i) j = unfold lcs in refl
cell-lcs (x ∷ a) b zero j = fill_row-lcs x a b _ (cell-lcs a b 0) j
cell-lcs (x ∷ a) b (suc i) j = cell-lcs a b i j

abbrev kept : List Entry → ℕ
kept d = length (filter in_both d)

kept-plus : (b : List Text) → kept (map (entry plus) b) ≡ 0
kept-plus [] = refl
kept-plus (y ∷ b) = kept-plus b

kept-minus : (b : List Text) → kept (map (entry minus) b) ≡ 0
kept-minus [] = refl
kept-minus (y ∷ b) = kept-minus b

abbrev Holds : List (List ℕ) → ℕ → ℕ → List Text → List Text → Type 0
Holds t i j a b = (k l : ℕ) → cell t (i + k) (j + l) ≡ lcs (drop k a) (drop l b)

shift : (i k : ℕ) → i + 1 + k ≡ i + suc k
shift i k = omega arith

kept-walk :
    (t : List (List ℕ)) (i j : ℕ) (a b : List Text)
    → Holds t i j a b
    → kept (walk t i j a b) ≡ lcs a b
unfolding walk lcs
kept-walk t i j [] b h = kept-plus b
kept-walk t i j (x ∷ a) [] h = kept-minus (x ∷ a)
kept-walk t i j (x ∷ a) (y ∷ b) h =
    unfold lcs in
    ground (
      arith,
      h 0 1,
      h 1 0,
      add-zero i,
      add-zero j,
      kept-walk t (i + 1) (j + 1) a b (λ k l. rw (shift i k, shift j l) (h (suc k) (suc l))),
      kept-walk t (i + 1) j a (y ∷ b) (λ k l. rw (shift i k) (h (suc k) l)),
      kept-walk t i (j + 1) (x ∷ a) b (λ k l. rw (shift j l) (h k (suc l))),
    )

-- A common subsequence of two non-empty lists starts with both heads, or skips one of them.
data Heads (x y : Text) (a b cs : List Text) : Type 0 where
  both : x ≡ y → Heads x y a b cs
  skip_left : Sublistᴰ cs a → Sublistᴰ cs (y ∷ b) → Heads x y a b cs
  skip_right : Sublistᴰ cs (x ∷ a) → Sublistᴰ cs b → Heads x y a b cs

heads :
    (x y c : Text) (a b cs : List Text)
    → Sublistᴰ (c ∷ cs) (x ∷ a)
    → Sublistᴰ (c ∷ cs) (y ∷ b)
    → Heads x y a b (c ∷ cs)
heads x y c a b cs s t = elim (Sublistᴰ.cases_cons-cons s) [
  | inl s' ↦ skip_left s' t
  | inr (e, _) ↦ elim (Sublistᴰ.cases_cons-cons t) [
    | inl t' ↦ skip_right s t'
    | inr (e', _) ↦ both (sym e ∙ e')
  ]
]

tails : {c x : Text} {cs a : List Text} → Sublistᴰ (c ∷ cs) (x ∷ a) → Sublistᴰ cs a
tails s = elim (Sublistᴰ.cases_cons-cons s) [
  | inl s' ↦ Sublistᴰ.trans (Sublistᴰ.cons (Sublistᴰ.refl _)) s'
  | inr (_, s') ↦ s'
]

-- No common subsequence is longer than `lcs` says.
length-le-lcs : (a b cs : List Text) → Sublistᴰ cs a → Sublistᴰ cs b → length cs ≤ lcs a b
unfolding lcs
length-le-lcs a b [] s t = omega arith
length-le-lcs [] b (c ∷ cs) s t = elim s [ ]
length-le-lcs (x ∷ a) [] (c ∷ cs) s t = elim t [ ]
length-le-lcs (x ∷ a) (y ∷ b) (c ∷ cs) s t =
    let ih = length-le-lcs a b cs (tails s) (tails t) in
    elim (heads x y c a b cs s t) [
      | both e ↦ rw ((text_eq_iff x y).1 e, lcs) (omega (arith, ih))
      | skip_left s' t' ↦ ground (arith, ih, length-le-lcs a (y ∷ b) (c ∷ cs) s' t')
      | skip_right s' t' ↦ ground (arith, ih, length-le-lcs (x ∷ a) b (c ∷ cs) s' t')
    ]

kept-sublist :
    (p : Entry → Bool)
    → ((e : Entry) → in_both e ≡ true → p e ≡ true)
    → (d : List Entry) → Sublistᴰ (lines_where in_both d) (lines_where p d)
kept-sublist p h [] = Sublistᴰ.slnil
kept-sublist p h (e ∷ d) = elim (Bool-cases (in_both e)) [
  | inl yes_both ↦ rw (yes_both, h e yes_both) (Sublistᴰ.cons-cons refl (kept-sublist p h d))
  | inr not_both ↦ elim (Bool-cases (p e)) [
    | inl here ↦ rw (not_both, here) (Sublistᴰ.cons (kept-sublist p h d))
    | inr gone ↦ rw (not_both, gone) (kept-sublist p h d)
  ]
]

old_of_both : (e : Entry) → in_both e ≡ true → in_old e ≡ true
old_of_both e h = ground arith

new_of_both : (e : Entry) → in_both e ≡ true → in_new e ≡ true
new_of_both e h = ground arith

length-map : (d : List Entry) → length (map line_of d) ≡ length d
length-map [] = refl
length-map (e ∷ d) = ap suc (length-map d)

-- The lines of a diff marked ' ' are a subsequence of the old text's lines and of the new text's,
-- and no subsequence of both is longer.
pub diff_lines-IsLongest :
    (before after : Text)
    → Sublistᴰ (lines_where in_both (diff_lines before after)) (lines before)
      × Sublistᴰ (lines_where in_both (diff_lines before after)) (lines after)
      × ((cs : List Text)
          → Sublistᴰ cs (lines before)
          → Sublistᴰ cs (lines after)
          → length cs ≤ length (lines_where in_both (diff_lines before after)))
unfolding diff_lines diff_lists
diff_lines-IsLongest before after =
    let a = lines before in
    let b = lines after in
    let t = fill_table a b in
    let d = walk t 0 0 a b in
    (
      rw old-walk at (kept-sublist in_old old_of_both d),
      rw new-walk at (kept-sublist in_new new_of_both d),
      λ cs s u. omega (
        arith,
        length-map (filter in_both d),
        kept-walk t 0 0 a b (λ k l. rw (zero-add k, zero-add l) (cell-lcs a b k l)),
        length-le-lcs a b cs s u,
      ),
    )
