-- ===== src/SqlStatements/Step/Moves.antt =====
-- sql-statements.js: what every branch of the loop but the one for ';' does to the position, the
-- statements found so far and the start of the current one.
use db_migrate.SqlStatements.{Scan, mark_code, reset, push, slice, Outcome, go, give_up}
use db_migrate.SqlStatements.Words.{is_word_char, word_length}
use db_migrate.SqlStatements.Step.{
  open_compound, add_word, step_top, step_keyword, step_inside, step_word, step_line_comment,
  step_block_comment, step_quoted, step_other, step_semicolon, step, prev_char, starts_line_comment,
  starts_block_comment, is_quote, holds,
}
use db_migrate.Base.{
  ℕ, zero, suc, ◌+◌, ◌≤◌, ◌<◌, ◌≡◌, refl, ◌⊎◌, inl, inr, true, false, not, ◌&&◌, ◌||◌, Option, none,
  some, List, [], ◌∷◌, ◌++◌, map, arith, ◌==◌, if◌then◌else◌, Bool-cases, Option-cases, and-true,
  length, get_elem?, drop, Text, upper, if-cases,
}

-- The start of the current statement stays, or the current position becomes it.
abbrev Start : ℕ → Scan → Scan → Type 0
Start i s s' = (s'.code_start ≡ s.code_start) ⊎ ((s.code_start ≡ none) × (s'.code_start ≡ some i))

-- From position `i`, with at least `i + 1` reached and the statements untouched.
abbrev pub Moves : ℕ → Scan → Outcome → Type 0
Moves i s give_up = Unit
Moves i s (go j s') = (i < j) × (s'.statements ≡ s.statements) × Start i s s'

abbrev Keeps : Scan → Scan → Type 0
Keeps s s' = (s'.statements ≡ s.statements) × (s'.code_start ≡ s.code_start)

mark_code-Start :
    (i : ℕ) (s : Scan) → ((mark_code i s).statements ≡ s.statements) × Start i s (mark_code i s)
unfolding mark_code
mark_code-Start i s = elim (Option-cases s.code_start) [
  | inl e ↦ (refl, inr (e, rw e))
  | inr (k, e) ↦ (refl, inl (rw e))
]

Moves-other : (i ch : ℕ) (s : Scan) → Moves i s (step_other i ch s)
unfolding step_other
Moves-other i ch s = ground (arith, mark_code-Start i s)

index-lt-length : (sql : Text) (i : ℕ) {ch : ℕ} → get_elem? sql i ≡ some ch → i < length sql
index-lt-length [] i h = cc
index-lt-length (c ∷ sql) zero h = omega arith
index-lt-length (c ∷ sql) (suc i) h = omega (arith, index-lt-length sql i h)

Moves-line_comment :
    (sql : Text) (i : ℕ) {ch : ℕ} (s : Scan)
    → get_elem? sql i ≡ some ch
    → Moves i s (step_line_comment sql i s)
unfolding step_line_comment
Moves-line_comment sql i s h = ground (arith, index-lt-length sql i h)

Moves-block_comment : (sql : Text) (i : ℕ) (s : Scan) → Moves i s (step_block_comment sql i s)
unfolding step_block_comment
Moves-block_comment sql i s = ground (arith, mark_code-Start i s)

Moves-quoted : (sql : Text) (i ch : ℕ) (s : Scan) → Moves i s (step_quoted sql i ch s)
unfolding step_quoted
Moves-quoted sql i ch s = ground (arith, mark_code-Start i s)

-- Every branch that is given the index behind the word keeps the statements and their start.
abbrev Stays : ℕ → Scan → Outcome → Type 0
Stays j s give_up = Unit
Stays j s (go k s') = (j ≤ k) × Keeps s s'

open_compound-Keeps : (ws : List Text) (word : Text) (s : Scan) → Keeps s (open_compound ws word s)
unfolding open_compound
open_compound-Keeps [] word s = (refl, refl)
open_compound-Keeps (w ∷ ws) word s = ground arith

add_word-Keeps : (word : Text) (s : Scan) → Keeps s (add_word word s)
unfolding add_word
add_word-Keeps word s =
    let ws = s.words ++ word ∷ [] in
    ground (arith, open_compound-Keeps ws word (record s { words = ws }))

step_top-Stays : (sql : Text) (j : ℕ) (word : Text) (s : Scan) → Stays j s (step_top sql j word s)
unfolding step_top
step_top-Stays sql j word s = ground (arith, add_word-Keeps word s)

step_keyword-Stays :
    (sql : Text) (j : ℕ) (word before : Text) (s : Scan)
    → Stays j s (step_keyword sql j word before s)
unfolding step_keyword
step_keyword-Stays sql j word before s = ground arith

step_inside-Stays :
    (sql : Text) (j : ℕ) (prev : Option ℕ) (word before : Text) (s : Scan)
    → Stays j s (step_inside sql j prev word before s)
unfolding step_inside
step_inside-Stays sql j prev word before s =
    ground (arith, step_keyword-Stays sql j word before (record s { after_end = false }))

word_length_pos :
    (sql : Text) (i : ℕ) {ch : ℕ}
    → get_elem? sql i ≡ some ch
    → is_word_char ch ≡ true
    → 0 < word_length (drop i sql)
word_length_pos [] i h w = cc
word_length_pos (c ∷ sql) zero h w = unfold word_length in ground arith
word_length_pos (c ∷ sql) (suc i) h w = word_length_pos sql i h w

Stays-Moves :
    (i j : ℕ) (s s' : Scan) (o : Outcome)
    → i < j
    → (s'.statements ≡ s.statements) × Start i s s'
    → Stays j s' o
    → Moves i s o
Stays-Moves i j s s' give_up lt h k = tt
Stays-Moves i j s s' (go l t) lt h k = ground arith

Moves-word :
    (sql : Text) (i : ℕ) {ch : ℕ} (s : Scan)
    → get_elem? sql i ≡ some ch
    → is_word_char ch ≡ true
    → Moves i s (step_word sql i s)
unfolding step_word
Moves-word sql i s h w =
    let j = i + word_length (drop i sql) in
    let word = map upper (slice sql i j) in
    let named = record s { last_word = word } in
    let s' = mark_code i named in
    Stays-Moves i j s s' _ (omega (arith, word_length_pos sql i h w)) (mark_code-Start i named) (
      if-cases (Stays j s') s.compound
        (λ _. step_inside-Stays sql j (prev_char sql i) word s.last_word s')
        (λ _. step_top-Stays sql j word s'))

step_rest-Moves :
    (sql : Text) (i ch : ℕ) (s : Scan)
    → get_elem? sql i ≡ some ch
    → Moves i s (
        if is_word_char ch && not (holds is_word_char (prev_char sql i))
        then step_word sql i s
        else step_other i ch s)
step_rest-Moves sql i ch s h =
    if-cases (Moves i s) (is_word_char ch && not (holds is_word_char (prev_char sql i)))
      (λ w.
        Moves-word sql i s h
          (and-true (is_word_char ch) (not (holds is_word_char (prev_char sql i))) w).0)
      (λ _. Moves-other i ch s)

-- One iteration gives up, ends a statement at a ';', or moves on with the statements untouched.
pub step-Moves :
    (sql : Text) (i ch : ℕ) (s : Scan)
    → get_elem? sql i ≡ some ch
    → Moves i s (step sql i ch s) ⊎ (step sql i ch s ≡ step_semicolon sql i s)
unfolding step
step-Moves sql i ch s h =
    let rest = drop (i + 1) sql in
    elim (Bool-cases (starts_line_comment ch rest)) [
      | inl e ↦ rw e (inl (Moves-line_comment sql i s h))
      | inr e1 ↦ elim (Bool-cases (starts_block_comment ch rest)) [
        | inl e ↦ rw (e1, e) (inl (Moves-block_comment sql i s))
        | inr e2 ↦ elim (Bool-cases (is_quote ch)) [
          | inl e ↦ rw (e1, e2, e) (inl (Moves-quoted sql i ch s))
          | inr e3 ↦ elim (Bool-cases (ch == b';')) [
            | inl e ↦ rw (e1, e2, e3, e) (inr refl)
            | inr e4 ↦ rw (e1, e2, e3, e4) (inl (step_rest-Moves sql i ch s h))
          ]
        ]
      ]
    ]

pub Outcome-cases : (o : Outcome) → (o ≡ give_up) ⊎ ((j : ℕ) × (s : Scan) × (o ≡ go j s))
Outcome-cases give_up = inl refl
Outcome-cases (go j s) = inr (j, s, refl)

-- At a ';' the scan goes on behind it, either inside the compound statement or with the statement
-- that ends there pushed.
pub step_semicolon-go :
    (sql : Text) (i : ℕ) (s : Scan)
    → (step_semicolon sql i s
        ≡ go (i + 1) (record s { at_body = true; after_end = false; in_handler = false }))
      ⊎ (step_semicolon sql i s ≡ go (i + 1) (reset (push sql i s)))
unfolding step_semicolon
step_semicolon-go sql i s = elim (Bool-cases (not s.compound || s.depth == 0)) [
  | inl e ↦ rw e (inr refl)
  | inr e ↦ rw e (inl refl)
]
