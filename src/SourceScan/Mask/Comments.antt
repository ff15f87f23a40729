-- ===== src/SourceScan/Mask/Comments.antt =====
-- source-scan.js, maskComments: what a comment is, and how far it reaches.
use db_migrate.SourceScan.{
  Lang, sql, js, newline, line_comment, block_comment, to_newline, space_or_end,
}
use db_migrate.Base.{
  ℕ, suc, ◌≤◌, ◌≡◌, refl, sym, ap, ◌∙◌, ◌≢◌, ◌⊎◌, inl, inr, Bool, true, false, ◌&&◌, Option, none,
  some, [], ◌∷◌, ◌++◌, arith, ◌==◌, ==_iff, Bool-cases, length, take, drop, All, Text, codes,
  is_space, index_of, subst,
}

-- a comment to the end of its line starts
abbrev pub LineStart : Lang → Text → Type 0
LineStart js s = (r : Text) × (s ≡ b'/' ∷ b'/' ∷ r)
LineStart sql s =
    ((r : Text) × (s ≡ b'#' ∷ r))
    ⊎ ((s ≡ b'-' ∷ b'-' ∷ [])
        ⊎ ((d : ℕ) × (r : Text) × (s ≡ b'-' ∷ b'-' ∷ d ∷ r) × (is_space d ≡ true)))

abbrev pub BlockStart : Text → Type 0
BlockStart s = (r : Text) × (s ≡ b'/' ∷ b'*' ∷ r)

-- the text of a block comment behind its opening, with its closing, which is the first
pub data Block : Text → Type 0 where
  closing : (c d : ℕ) → (c == b'*' && d == b'/') ≡ true → Block (c ∷ d ∷ [])
  inside :
      (c d : ℕ) (s : Text) → (c == b'*' && d == b'/') ≡ false → Block (d ∷ s) → Block (c ∷ d ∷ s)

dashed : (s : Text) → space_or_end s ≡ true → LineStart sql (b'-' ∷ b'-' ∷ s)
unfolding space_or_end
dashed [] e = inr (inl refl)
dashed (x ∷ s) e = inr (inr (x, s, refl, e))

pub line_comment-LineStart :
    (lang : Lang) (c : ℕ) (s : Text) → line_comment lang c s ≡ true → LineStart lang (c ∷ s)
unfolding line_comment
line_comment-LineStart sql c [] h =
    inl ([], ap (λ x. x ∷ []) ((==_iff c b'#').0 (ground (arith, h))))
line_comment-LineStart sql c (d ∷ s) h = elim (Bool-cases (c == b'#')) [
  | inl is ↦ inl (d ∷ s, ap (λ x. x ∷ d ∷ s) ((==_iff c b'#').0 is))
  | inr other ↦
      let first : c ≡ b'-' = (==_iff c b'-').0 (ground (arith, h, other)) in
      let second : d ≡ b'-' = (==_iff d b'-').0 (ground (arith, h, other)) in
      let behind : space_or_end s ≡ true = ground (arith, h, other) in
      subst (LineStart sql) (ap (λ x. x ∷ b'-' ∷ s) (sym first) ∙ ap (λ y. c ∷ y ∷ s) (sym second))
        (dashed s behind)
]
line_comment-LineStart js c [] h = absurd (ground (arith, h))
line_comment-LineStart js c (d ∷ s) h =
    let first : c ≡ b'/' = (==_iff c b'/').0 (ground (arith, h)) in
    let second : d ≡ b'/' = (==_iff d b'/').0 (ground (arith, h)) in
    (s, ap (λ x. x ∷ d ∷ s) first ∙ ap (λ y. b'/' ∷ y ∷ s) second)

line_of : Lang → Text → Bool
line_of lang [] = false
line_of lang (c ∷ s) = line_comment lang c s

LineStart-line_of : (lang : Lang) (s : Text) → LineStart lang s → line_of lang s ≡ true
unfolding line_comment space_or_end line_of
LineStart-line_of js s (r, e) = ap (line_of js) e
LineStart-line_of sql s (inl (r, e)) = ap (line_of sql) e ∙ hash r
  where
    hash : (r : Text) → line_of sql (b'#' ∷ r) ≡ true
    hash [] = refl
    hash (c ∷ r) = refl
LineStart-line_of sql s (inr (inl e)) = ap (line_of sql) e
LineStart-line_of sql s (inr (inr (d, r, e, space))) = ap (line_of sql) e ∙ ground (arith, space)

pub no_line :
    (lang : Lang) (c : ℕ) (s : Text) → line_comment lang c s ≡ false → LineStart lang (c ∷ s) → ⊥
unfolding line_of
no_line lang c s e h = let t = LineStart-line_of lang (c ∷ s) h in cc

pub block_comment-BlockStart : (c : ℕ) (s : Text) → block_comment c s ≡ true → BlockStart (c ∷ s)
unfolding block_comment
block_comment-BlockStart c [] h = absurd (cc)
block_comment-BlockStart c (d ∷ s) h =
    let first : c ≡ b'/' = (==_iff c b'/').0 (ground (arith, h)) in
    let second : d ≡ b'*' = (==_iff d b'*').0 (ground (arith, h)) in
    (s, ap (λ x. x ∷ d ∷ s) first ∙ ap (λ y. b'/' ∷ y ∷ s) second)

block_of : Text → Bool
block_of [] = false
block_of (c ∷ s) = block_comment c s

pub no_block : (c : ℕ) (s : Text) → block_comment c s ≡ false → BlockStart (c ∷ s) → ⊥
unfolding block_comment block_of
no_block c s e (r, h) = let t : block_of (c ∷ s) ≡ true = ap block_of h in cc

-- the first newline
pub to_newline-clear : (s : Text) → All (λ d. d ≢ newline) (take (to_newline s) s)
unfolding to_newline
to_newline-clear [] = tt
to_newline-clear (c ∷ s) = elim (Bool-cases (c == newline)) [
  | inl is ↦ rw is tt
  | inr other ↦ rw other (ground (arith, other), to_newline-clear s)
]

pub to_newline-end :
    (s : Text) → (drop (to_newline s) s ≡ []) ⊎ ((r : Text) × (drop (to_newline s) s ≡ newline ∷ r))
unfolding to_newline
to_newline-end [] = inl refl
to_newline-end (c ∷ s) = elim (Bool-cases (c == newline)) [
  | inl is ↦ inr (s, rw is (ap (λ x. x ∷ s) ((==_iff c newline).0 is)))
  | inr other ↦ rw other (to_newline-end s)
]

pub to_newline-within : (s : Text) → to_newline s ≤ length s
unfolding to_newline
to_newline-within [] = omega arith
to_newline-within (c ∷ s) = ground (arith, to_newline-within s)

-- the first closing of a block comment
pub index_of-Block :
    (s : Text) (i : ℕ)
    → index_of (codes "*/") s ≡ some i
    → Block (take (suc (suc i)) s) × (suc (suc i) ≤ length s)
unfolding index_of
index_of-Block [] i e = absurd (cc)
index_of-Block (c ∷ []) i e = absurd (ground (arith, e))
index_of-Block (c ∷ d ∷ s) i e = go (index_of (codes "*/") (d ∷ s)) refl (index_of-Block (d ∷ s))
  where
    at_once :
        (c == b'*' && d == b'/') ≡ true
        → Block (take (suc (suc i)) (c ∷ d ∷ s)) × (suc (suc i) ≤ length (c ∷ d ∷ s))
    at_once here =
        let first : i ≡ 0 = ground (arith, e, here) in
        subst (λ n. Block (take (suc (suc n)) (c ∷ d ∷ s)) × (suc (suc n) ≤ length (c ∷ d ∷ s)))
          (sym first) (closing c d here, omega arith)

    go :
        (o : Option ℕ)
        → index_of (codes "*/") (d ∷ s) ≡ o
        → ((j : ℕ)
            → index_of (codes "*/") (d ∷ s) ≡ some j
            → Block (take (suc (suc j)) (d ∷ s)) × (suc (suc j) ≤ length (d ∷ s)))
        → Block (take (suc (suc i)) (c ∷ d ∷ s)) × (suc (suc i) ≤ length (c ∷ d ∷ s))
    go none e' ih = elim (Bool-cases (c == b'*' && d == b'/')) [
      | inl here ↦ at_once here
      | inr other ↦ absurd (ground (arith, e, e', other))
    ]
    go (some j) e' ih = elim (Bool-cases (c == b'*' && d == b'/')) [
      | inl here ↦ at_once here
      | inr other ↦
          let at : i ≡ suc j = ground (arith, e, e', other) in
          let (block, within) = ih j e' in
          subst (λ n. Block (take (suc (suc n)) (c ∷ d ∷ s)) × (suc (suc n) ≤ length (c ∷ d ∷ s)))
            (sym at) (inside c d (take (suc j) s) other block, omega (arith, within))
    ]

pub Block-index_of : (b r : Text) → Block b → index_of (codes "*/") (b ++ r) ≢ none
unfolding index_of
Block-index_of b r (closing c d h) e = ground (arith, e, h)
Block-index_of b r (inside c d s h k) e =
    let later = Block-index_of (d ∷ s) r k in ground (arith, e, h, later)
