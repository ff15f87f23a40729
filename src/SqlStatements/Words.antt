-- ===== src/SqlStatements/Words.antt =====
-- sql-statements.js: the words that the splitter knows, and its lookahead behind a word.
use db_migrate.Base.{
  ℕ, suc, ◌+◌, ◌-◌, Bool, true, false, not, ◌&&◌, ◌||◌, Option, none, some, List, [], ◌∷◌, ltb, leb,
  ◌==◌, if◌then◌else◌, length, Text, codes, text_eq, contains, is_space, trim_start,
}

-- `/[A-Za-z0-9_$]/`
unfoldable pub is_word_char : ℕ → Bool
is_word_char c =
    leb b'A' c && leb c b'Z'
    || leb b'a' c && leb c b'z'
    || leb b'0' c && leb c b'9'
    || c == b'_'
    || c == b'$'

abbrev pub block_keywords : List Text
block_keywords = codes "IF" ∷ codes "CASE" ∷ codes "LOOP" ∷ codes "WHILE" ∷ codes "REPEAT" ∷ []

abbrev pub routines : List Text
routines = codes "PROCEDURE" ∷ codes "FUNCTION" ∷ codes "TRIGGER" ∷ codes "EVENT" ∷ []

abbrev pub other_objects : List Text
other_objects =
    codes "TABLE"
    ∷ codes "VIEW"
    ∷ codes "INDEX"
    ∷ codes "UNIQUE"
    ∷ codes "FULLTEXT"
    ∷ codes "SPATIAL"
    ∷ codes "USER"
    ∷ codes "ROLE"
    ∷ codes "DATABASE"
    ∷ codes "SCHEMA"
    ∷ codes "SEQUENCE"
    ∷ codes "SERVER"
    ∷ codes "TABLESPACE"
    ∷ codes "TEMPORARY"
    ∷ codes "ALGORITHM"
    ∷ codes "PACKAGE"
    ∷ []

-- `classify()` answers true, false, or null for "can't tell yet"
pub data Verdict : Type 0 where
  is_compound is_plain undecided : Verdict

-- the words behind CREATE
classify_create : List Text → Bool → Verdict
unfolding contains
classify_create [] few = if few then undecided else is_plain
classify_create (w ∷ ws) few =
    if contains routines w
    then is_compound
    else if contains other_objects w
    then is_plain
    else classify_create ws few

classify_begin : List Text → Verdict
unfolding text_eq
classify_begin [] = undecided
classify_begin (second ∷ []) = if text_eq second (codes "NOT") then undecided else is_plain
classify_begin (second ∷ third ∷ ws) =
    if text_eq second (codes "NOT")
    then (if text_eq third (codes "ATOMIC") then is_compound else is_plain)
    else is_plain

unfoldable pub classify : List Text → Verdict
unfolding classify_create classify_begin contains text_eq
classify [] = is_plain
classify (first ∷ ws) =
    if text_eq first (codes "CREATE")
    then classify_create ws (ltb (length (first ∷ ws)) 8)
    else if text_eq first (codes "BEGIN")
    then classify_begin ws
    else if contains block_keywords first
    then is_compound
    else is_plain

-- `/\s*:(?!=)/y` at a position: the length of the match
unfoldable pub label_length : Text → Option ℕ
unfolding is_space
label_length [] = none
label_length (c ∷ []) = if c == b':' then some 1 else none
label_length (c ∷ d ∷ s) =
    let rest = label_length (d ∷ s) in
    if c == b':'
    then (if d == b'=' then none else some 1)
    else if is_space c
    then elim rest [ none ↦ none | some n ↦ some (suc n) ]
    else none

is_quote : ℕ → Bool
is_quote c = c == b'\'' || c == b'"' || c == b'`'

-- the loop of `isFunctionCall`; the first argument is the quote of the literal that it is in
call_comma : Option ℕ → ℕ → Text → Bool
unfolding is_quote
call_comma q level [] = false
call_comma (some q) level (c ∷ []) = false
call_comma (some q) level (c ∷ d ∷ s) =
    let closed = call_comma none level (d ∷ s) in
    let escaped = call_comma (some q) level s in
    let inside = call_comma (some q) level (d ∷ s) in
    if c == q then closed else if c == b'\\' && not (q == b'`') then escaped else inside
call_comma none level (c ∷ s) =
    let quoted = call_comma (some c) level s in
    let deeper = call_comma none (level + 1) s in
    let shallower = call_comma none (level - 1) s in
    let along = call_comma none level s in
    if is_quote c
    then quoted
    else if c == b'('
    then deeper
    else if c == b')'
    then (if level == 1 then false else shallower)
    else if c == b',' && level == 1
    then true
    else along

-- `isFunctionCall(pos)` on the text from the position on
unfoldable pub is_function_call : Text → Bool
unfolding call_comma trim_start
is_function_call s = elim (trim_start s) [
  | [] ↦ false
  | c ∷ r ↦ if c == b'(' then call_comma none 0 (c ∷ r) else false
]

-- how long a run of word characters a text starts with
unfoldable pub word_length : Text → ℕ
unfolding is_word_char
word_length [] = 0
word_length (c ∷ s) = if is_word_char c then suc (word_length s) else 0
