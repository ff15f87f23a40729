-- ===== src/SqlStatements/Step.antt =====
-- sql-statements.js: one iteration of splitSqlStatements' loop, branch by branch.
pub mod Moves
use db_migrate.SqlStatements.{Scan, mark_code, reset, slice, push, Outcome, go, give_up}
use db_migrate.SqlStatements.Words.{
  is_word_char, block_keywords, routines, is_compound, classify, label_length, is_function_call,
  word_length,
}
use db_migrate.Base.{
  ℕ, zero, suc, ◌+◌, ◌-◌, ◌*◌, Bool, true, false, not, ◌&&◌, ◌||◌, Option, none, some, List, [],
  ◌∷◌, ◌++◌, map, ltb, ◌==◌, if◌then◌else◌, length, get_elem?, drop, any, find_index, Text, codes,
  text_eq, contains, is_space, trim, upper, index_of,
}

-- `-- ` or `#` at `ch`, with `rest` behind it
starts_line_comment : ℕ → Text → Bool
starts_line_comment ch [] = ch == b'#'
starts_line_comment ch (next ∷ []) = ch == b'-' && next == b'-' || ch == b'#'
starts_line_comment ch (next ∷ c ∷ s) = ch == b'-' && next == b'-' && is_space c || ch == b'#'

starts_block_comment : ℕ → Text → Bool
starts_block_comment ch [] = false
starts_block_comment ch (next ∷ s) = ch == b'/' && next == b'*'

-- the position of a literal's closing quote in the text behind its opening one
close_quote : ℕ → Text → Option ℕ
close_quote q [] = none
close_quote q (c ∷ []) =
    if c == b'\\' && not (q == b'`') then none else if c == q then some 0 else none
close_quote q (c ∷ d ∷ s) =
    let beyond = close_quote q s in
    let along = close_quote q (d ∷ s) in
    let two : Option ℕ = elim beyond [ none ↦ none | some k ↦ some (k + 2) ] in
    let one : Option ℕ = elim along [ none ↦ none | some k ↦ some (k + 1) ] in
    if c == b'\\' && not (q == b'`')
    then two
    else if c == q
    then (if d == q then two else some 0)
    else one

is_quote : ℕ → Bool
is_quote c = c == b'\'' || c == b'"' || c == b'`'

-- the character before the index, which is undefined at 0
prev_char : Text → ℕ → Option ℕ
prev_char sql zero = none
prev_char sql (suc i) = get_elem? sql i

abbrev holds : (ℕ → Bool) → Option ℕ → Bool
holds p none = false
holds p (some c) = p c

-- `word === 'BEGIN' || word === 'LOOP' || word === 'REPEAT'`
opens_body : Text → Bool
opens_body word =
    text_eq word (codes "BEGIN") || text_eq word (codes "LOOP") || text_eq word (codes "REPEAT")

-- a statement has just been recognised as compound by its words, of which `word` is the last
open_compound : List Text → Text → Scan → Scan
open_compound [] word s = s
open_compound (first ∷ ws) word s =
    if text_eq first (codes "CREATE") then record s { compound = true } else record s {
      compound = true;
      depth = 1;
      at_body =
          text_eq first (codes "BEGIN")
          || text_eq word (codes "LOOP")
          || text_eq word (codes "REPEAT");
    }

-- `words.push(word)`, and what follows if that settles that the statement is compound
add_word : Text → Scan → Scan
add_word word s =
    let words = s.words ++ word ∷ [] in
    let s' = record s { words = words } in
    elim (classify words) [ is_compound ↦ open_compound words word s' | _ ↦ s' ]

-- a word outside a compound statement; `j` is the index behind it
step_top : Text → ℕ → Text → Scan → Outcome
step_top sql j word s =
    let more = if ltb (length s.words) 8 then go j (add_word word s) else go j s in
    if length s.words == 0
    then elim (label_length (drop j sql)) [ none ↦ more | some n ↦ go (j + n) s ]
    else more

opens_block : Text → ℕ → Text → Text → Scan → Bool
opens_block sql j word before s =
    (s.at_body || s.in_handler || s.depth == 0)
    && (text_eq word (codes "BEGIN")
        || text_eq word (codes "LOOP")
        || text_eq word (codes "WHILE")
        || text_eq word (codes "IF")
          && not (contains routines before)
          && not (is_function_call (drop j sql))
        || text_eq word (codes "REPEAT") && not (is_function_call (drop j sql)))

-- END, a keyword that opens a block, or any other word of a compound statement
step_keyword : Text → ℕ → Text → Text → Scan → Outcome
step_keyword sql j word before s =
    if text_eq word (codes "END")
    then (if s.depth == 0
        then give_up
        else go j (record s { depth = s.depth - 1; after_end = true; at_body = false }))
    else if text_eq word (codes "CASE") || opens_block sql j word before s
    then go j (record s {
      depth = s.depth + 1;
      in_handler = if text_eq word (codes "BEGIN") then false else s.in_handler;
      at_body = opens_body word;
    })
    else go j (record s {
      in_handler = text_eq word (codes "HANDLER") || s.in_handler;
      at_body = contains (codes "THEN" ∷ codes "ELSE" ∷ codes "DO" ∷ []) word;
    })

-- a word inside a compound statement
step_inside : Text → ℕ → Option ℕ → Text → Text → Scan → Outcome
step_inside sql j prev word before s =
    let plain = record s { after_end = false } in
    let keyword = step_keyword sql j word before plain in
    if holds (λ c. c == b'.' || c == b'@') prev
    then go j (record s { at_body = false; after_end = false })
    else if s.after_end && contains block_keywords word
    then go j plain
    else if s.at_body
    then elim (label_length (drop j sql)) [ none ↦ keyword | some n ↦ go (j + n) plain ]
    else keyword

-- a word that starts at `i`
step_word : Text → ℕ → Scan → Outcome
step_word sql i s =
    let j = i + word_length (drop i sql) in
    let word = map upper (slice sql i j) in
    let before = s.last_word in
    let s' = mark_code i (record s { last_word = word }) in
    if s.compound
    then step_inside sql j (prev_char sql i) word before s'
    else step_top sql j word s'

step_line_comment : Text → ℕ → Scan → Outcome
step_line_comment sql i s = elim (find_index (λ c. c == b'\n') (drop i sql)) [
  | none ↦ go (length sql) s
  | some k ↦ go (i + k + 1) s
]

step_block_comment : Text → ℕ → Scan → Outcome
step_block_comment sql i s = elim (index_of (codes "*/") (drop (i + 2) sql)) [
  | none ↦ give_up
  | some k ↦
      go (i + k + 4) (if holds (λ c. c == b'!') (get_elem? sql (i + 2)) then mark_code i s else s)
]

step_quoted : Text → ℕ → ℕ → Scan → Outcome
step_quoted sql i ch s = elim (close_quote ch (drop (i + 1) sql)) [
  | none ↦ give_up
  | some k ↦ go (i + k + 2) (record (mark_code i s) { at_body = false; after_end = false })
]

pub step_semicolon : Text → ℕ → Scan → Outcome
step_semicolon sql i s =
    if not s.compound || s.depth == 0
    then go (i + 1) (reset (push sql i s))
    else go (i + 1) (record s { at_body = true; after_end = false; in_handler = false })

step_other : ℕ → ℕ → Scan → Outcome
step_other i ch s =
    if is_space ch
    then go (i + 1) s
    else go (i + 1) (record (mark_code i s) { at_body = false; after_end = false })

-- one iteration, at the character `ch` of index `i`
pub step : Text → ℕ → ℕ → Scan → Outcome
step sql i ch s =
    let rest = drop (i + 1) sql in
    if starts_line_comment ch rest
    then step_line_comment sql i s
    else if starts_block_comment ch rest
    then step_block_comment sql i s
    else if is_quote ch
    then step_quoted sql i ch s
    else if ch == b';'
    then step_semicolon sql i s
    else if is_word_char ch && not (holds is_word_char (prev_char sql i))
    then step_word sql i s
    else step_other i ch s

-- `step` with all that it calls open, for a test's `unfolding` line
unfoldable pub run_step : Text → ℕ → ℕ → Scan → Outcome
unfolding step starts_line_comment starts_block_comment is_quote close_quote is_word_char prev_char
    opens_body open_compound add_word classify step_top opens_block step_keyword step_inside
    step_word step_line_comment step_block_comment step_quoted step_semicolon step_other
    label_length is_function_call word_length text_eq contains index_of is_space trim upper
    mark_code push reset
run_step = step
