-- ===== src/Diff/Compact.antt =====
-- src/core/dcl-plan.js, compactDiff: the changed lines with some unchanged lines around them.
use db_migrate.Diff.{same, plus, minus, ellipsis, Entry, entry}
use db_migrate.Base.{
  ℕ, suc, ◌+◌, ◌≡◌, refl, sym, ap, ◌∙◌, inl, inr, Bool, true, false, ◌&&◌, ◌||◌, Option, none, some,
  List, [], ◌∷◌, ◌++◌, append_assoc, arith, ltb, leb, if◌then◌else◌, Bool-cases, length, filter,
  length-append,
}

-- `d.op !== ' '`
abbrev pub is_changed : Entry → Bool
is_changed e = elim e.op [ same ↦ false | _ ↦ true ]

-- `keep.has(idx)`: an entry from `j` on is changed and within `context` of the index
pub near : ℕ → ℕ → ℕ → List Entry → Bool
near context idx j [] = false
near context idx j (e ∷ diff) =
    (is_changed e && leb j (idx + context) && leb idx (j + context))
    || near context idx (suc j) diff

-- the '…' before an entry, with -1 for `last` as `none`
gap : Option ℕ → ℕ → List Entry
gap none idx = []
gap (some last) idx = if ltb (last + 1) idx then entry ellipsis [] ∷ [] else []

-- the second loop, over the entries from `idx` on
pub compact_from : ℕ → List Entry → Option ℕ → ℕ → List Entry → List Entry
unfolding gap
compact_from context diff last idx [] = []
compact_from context diff last idx (e ∷ rest) = elim (near context idx 0 diff) [
  | true ↦ gap last idx ++ e ∷ compact_from context diff (some idx) (suc idx) rest
  | false ↦ compact_from context diff last (suc idx) rest
]

-- `compactDiff(diff, context)`
unfoldable pub compact_diff : List Entry → ℕ → List Entry
unfolding compact_from
compact_diff diff context = compact_from context diff none 0 diff

-- a line of either text that the other does not have
abbrev pub is_edit : Entry → Bool
is_edit e = elim e.op [ plus ↦ true | minus ↦ true | _ ↦ false ]

near-hit :
    (context idx j : ℕ) (before : List Entry) (e : Entry) (rest : List Entry)
    → length before + j ≡ idx
    → is_changed e ≡ true
    → near context idx j (before ++ e ∷ rest) ≡ true
unfolding near
near-hit context idx j [] e rest here h = ground (arith, here, h)
near-hit context idx j (b ∷ before) e rest here h =
    ground (arith, near-hit context idx (suc j) before e rest (omega arith) h)

filter-gap :
    (last : Option ℕ) (idx : ℕ) (es : List Entry)
    → filter is_edit (gap last idx ++ es) ≡ filter is_edit es
unfolding gap
filter-gap none idx es = refl
filter-gap (some last) idx es = ground arith

edit_changed : (e : Entry) → is_edit e ≡ true → is_changed e ≡ true
edit_changed e h = ground arith

near_edit :
    (context : ℕ) (before : List Entry) (e : Entry) (rest : List Entry)
    → is_edit e ≡ true
    → near context (length before) 0 (before ++ e ∷ rest) ≡ true
near_edit context before e rest h =
    near-hit context (length before) 0 before e rest (omega arith) (edit_changed e h)

filter-compact_from :
    (context : ℕ) (diff : List Entry) (last : Option ℕ) (before rest : List Entry)
    → diff ≡ before ++ rest
    → filter is_edit (compact_from context diff last (length before) rest) ≡ filter is_edit rest
unfolding compact_from
filter-compact_from context diff last before [] whole = refl
filter-compact_from context diff last before (e ∷ rest) whole =
    go (near context (length before) 0 diff) refl (λ last'.
      ap (λ n. filter is_edit (compact_from context diff last' n rest))
        (omega (arith, length-append before (e ∷ [])))
      ∙ filter-compact_from context diff last' (before ++ e ∷ []) rest
          (whole ∙ sym (append_assoc before (e ∷ []) rest)))
  where
    go :
        (b : Bool)
        → near context (length before) 0 diff ≡ b
        → ((last' : Option ℕ)
            → filter is_edit (compact_from context diff last' (suc (length before)) rest)
              ≡ filter is_edit rest)
        → filter is_edit (elim b [
          | true ↦
              gap last (length before)
              ++ e ∷ compact_from context diff (some (length before)) (suc (length before)) rest
          | false ↦ compact_from context diff last (suc (length before)) rest
        ])
          ≡ filter is_edit (e ∷ rest)
    go true hit ih =
        filter-gap last (length before) _
        ∙ ap (λ l. if is_edit e then e ∷ l else l) (ih (some (length before)))
    go false miss ih = elim (Bool-cases (is_edit e)) [
      | inl edited ↦
          let hit =
            ap (near context (length before) 0) whole ∙ near_edit context before e rest edited in
          absurd (cc)
      | inr other ↦ ih last ∙ rw other refl
    ]

-- The compact diff, however much context it keeps, has all lines marked '+' and '-' of the diff and
-- no others, in order.
pub filter-compact_diff :
    (diff : List Entry) (context : ℕ)
    → filter is_edit (compact_diff diff context) ≡ filter is_edit diff
unfolding compact_diff
filter-compact_diff diff context = filter-compact_from context diff none [] diff refl
