-- ===== src/MariaDb/Files/Sections.antt =====
-- mariadb-adapter.js: hasSection, extractSection and stripSanityBlocks. Each regular expression is
-- a function that gives the length of its match at the start of a text, or the text behind it.
use db_migrate.Base.{
  ℕ, zero, suc, ◌+◌, Bool, true, false, not, ◌&&◌, ◌||◌, Option, none, some, [], ◌∷◌, leb, ◌==◌,
  if◌then◌else◌, is_some, length, Text, codes, is_space, trim_start, trim,
}

-- the `i` flag
lower : ℕ → ℕ
lower c = if leb b'A' c && leb c b'Z' then c + 32 else c

-- a lower-case word at the start of a text: what stands behind it
unfoldable pub after_word : Text → Text → Option Text
unfolding lower
after_word [] s = some s
after_word (d ∷ word) [] = none
after_word (d ∷ word) (c ∷ s) = if lower c == d then after_word word s else none

is_word_char : ℕ → Bool
is_word_char c =
    leb b'A' c && leb c b'Z' || leb b'a' c && leb c b'z' || leb b'0' c && leb c b'9' || c == b'_'

infixl 5 ◌>>=◌
abbrev pub ◌>>=◌ : {A B : Type 0} → Option A → (A → Option B) → Option B
none >>= f = none
some a >>= f = f a

-- `--\s*`, then the word
unfoldable pub after_mark : Text → Text → Option Text
unfolding after_word trim_start
after_mark word s = do rest ← after_word (codes "--") s; after_word word (trim_start rest)

-- `\s+`
unfoldable pub after_spaces : Text → Option Text
unfolding trim_start is_space
after_spaces [] = none
after_spaces (c ∷ s) = if is_space c then some (trim_start s) else none

-- `--\s*\+migrate\s+<section>`
after_section : Text → Text → Option Text
unfolding after_mark after_spaces after_word
after_section section s = do
  rest ← after_mark (codes "+migrate") s
  name ← after_spaces rest
  after_word section name

-- `\b` behind a word
at_boundary : Text → Bool
unfolding is_word_char
at_boundary [] = true
at_boundary (c ∷ s) = not (is_word_char c)

-- `hasSection(content, section)`; the section's name is given in lower case
unfoldable pub has_section : Text → Text → Bool
unfolding after_section at_boundary
has_section section [] = false
has_section section (c ∷ s) =
    elim (after_section section (c ∷ s)) [ none ↦ false | some rest ↦ at_boundary rest ]
    || has_section section s

-- `([\s\S]*?)(?=--\s*\+migrate|$)`
until_migrate : Text → Text
unfolding after_mark
until_migrate [] = []
until_migrate (c ∷ s) =
    if is_some (after_mark (codes "+migrate") (c ∷ s)) then [] else c ∷ until_migrate s

-- the group of extractSection's match
section_body : Text → Text → Option Text
unfolding after_section until_migrate
section_body section [] = none
section_body section (c ∷ s) = elim (after_section section (c ∷ s)) [
  | none ↦ section_body section s
  | some rest ↦ some (until_migrate rest)
]

-- `\w+`
after_name : Text → Option Text
unfolding is_word_char
after_name [] = none
after_name (c ∷ s) =
    if is_word_char c then elim (after_name s) [ none ↦ some s | some rest ↦ some rest ] else none

-- `\s*\n`: behind the first line break of the white space
unfoldable pub after_line_break : Text → Option Text
unfolding is_space
after_line_break [] = none
after_line_break (c ∷ s) =
    if c == b'\n' then some s else if is_space c then after_line_break s else none

-- `--\s*\+sanity\s+\w+\s*\n`
after_sanity_open : Text → Option Text
unfolding after_mark after_spaces after_name after_line_break
after_sanity_open s = do
  rest ← after_mark (codes "+sanity") s
  name ← after_spaces rest
  behind ← after_name name
  after_line_break behind

-- `[^\n]*`
after_line : Text → Text
after_line [] = []
after_line (c ∷ s) = if c == b'\n' then c ∷ s else after_line s

-- The three ways in which a sanity block closes.
pub data Close : Type 0 where
  explicit end_check implicit : Close

-- Is the close at the start of the text? If so, what is left behind the block.
closes : Close → Text → Option Text
unfolding after_mark after_spaces after_name after_line
closes explicit s = do
  rest ← after_mark (codes "-sanity") s
  name ← after_spaces rest
  behind ← after_name name
  some (after_line behind)
closes end_check s = do rest ← after_mark (codes "end_check") s; some (after_line rest)
closes implicit s =
    if is_some (after_mark (codes "+migrate") s) || is_some (after_mark (codes "+sanity") s)
    then some s
    else none

-- `[\s\S]*?` up to the close; the implicit one is also the end of the text
find_close : Close → Text → Option Text
unfolding closes
find_close explicit [] = none
find_close end_check [] = none
find_close implicit [] = some []
find_close k (c ∷ s) = elim (closes k (c ∷ s)) [ none ↦ find_close k s | some rest ↦ some rest ]

-- `.replace(/…/gi, '')`; each match or character shortens the text, so its length is enough fuel
strip : ℕ → Close → Text → Text
unfolding after_sanity_open find_close
strip zero k s = s
strip (suc fuel) k [] = []
strip (suc fuel) k (c ∷ s) =
    let next = c ∷ strip fuel k s in
    elim (after_sanity_open (c ∷ s) >>= find_close k) [
      | none ↦ next
      | some rest ↦ strip fuel k rest
    ]

-- `stripSanityBlocks(content)`
unfoldable pub strip_sanity_blocks : Text → Text
unfolding strip
strip_sanity_blocks s =
    let a = strip (length s) explicit s in
    let b = strip (length a) end_check a in strip (length b) implicit b

-- `extractSection(content, section)`
unfoldable pub extract_section : Text → Text → Text
unfolding section_body strip_sanity_blocks trim
extract_section section content = elim (section_body section content) [
  | none ↦ []
  | some body ↦ trim (strip_sanity_blocks body)
]
