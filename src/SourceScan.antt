-- ===== src/SourceScan.antt =====
-- src/core/source-scan.js: maskComments and skipString. The source walks an index over the text;
-- here the recursion is on what is left of the text from that index on, and each piece that an
-- iteration passes over is copied or blanked.
pub mod Braces
pub mod Mask
mod Tests
use db_migrate.Base.{
  ℕ, zero, suc, ◌+◌, ◌-◌, ◌*◌, Bool, true, false, ◌&&◌, ◌||◌, none, some, [], ◌∷◌, ◌++◌, map, ◌==◌,
  if◌then◌else◌, length, take, drop, Text, codes, is_space, index_of,
}

pub data Lang : Type 0 where
  sql js : Lang

abbrev is_sql : Lang → Bool
is_sql sql = true
is_sql js = false

abbrev is_js : Lang → Bool
is_js sql = false
is_js js = true

abbrev pub newline : ℕ
newline = b'\n'

-- `c === "'" || c === '"' || c === '`'`
unfoldable pub is_quote : ℕ → Bool
is_quote c = c == b'\'' || c == b'"' || c == b'`'

-- one character of a blanked range
unfoldable pub blank : ℕ → ℕ
blank c = if c == newline then newline else b' '

-- `skipString` after its opening quote: how many characters are inside the literal and its close
unfoldable pub skip_string : ℕ → Text → ℕ
skip_string quote [] = 0
skip_string quote (c ∷ []) = 1
skip_string quote (c ∷ d ∷ s) =
    let plain = suc (skip_string quote (d ∷ s)) in
    let escaped = suc (suc (skip_string quote s)) in
    if c == quote then 1 else if c == b'\\' then escaped else plain

-- `/\s/.test(content[i + 2])`, true past the end
pub space_or_end : Text → Bool
unfolding is_space
space_or_end [] = true
space_or_end (c ∷ s) = is_space c

-- Does a comment to the end of the line start at `c`, with `rest` behind it?
pub line_comment : Lang → ℕ → Text → Bool
unfolding space_or_end
line_comment lang c [] = is_sql lang && c == b'#'
line_comment lang c (next ∷ s) =
    is_js lang && c == b'/' && next == b'/'
    || is_sql lang && c == b'-' && next == b'-' && space_or_end s
    || is_sql lang && c == b'#'

-- `c === '/' && next === '*'`
pub block_comment : ℕ → Text → Bool
block_comment c [] = false
block_comment c (next ∷ s) = c == b'/' && next == b'*'

-- how much of a text stands before its first newline; all of it, if there is none
pub to_newline : Text → ℕ
to_newline [] = 0
to_newline (c ∷ s) = if c == newline then 0 else suc (to_newline s)

-- how much of a text, from the `*` of the opening on, is up to the comment's close
pub to_close : Text → ℕ
unfolding index_of
to_close s = elim (index_of (codes "*/") (drop 1 s)) [ none ↦ length s | some i ↦ i + 3 ]

-- What one iteration passes over, from the character at the index on.
pub data Piece : Type 0 where
  copied blanked : ℕ → Piece

pub piece : Lang → ℕ → Text → Piece
unfolding is_quote skip_string line_comment block_comment to_newline to_close
piece lang c s =
    if is_quote c
    then copied (skip_string c s)
    else if line_comment lang c s
    then blanked (to_newline s)
    else if block_comment c s
    then blanked (to_close s)
    else copied 0

spaces : ℕ → Text
spaces zero = []
spaces (suc n) = b' ' ∷ spaces n

-- A character and the next `n` behind it. What lies past the end of the text is not there to be
-- copied, but blanking it would write spaces behind the end of `out`.
pub emit : Piece → ℕ → Text → Text
unfolding blank spaces
emit (copied n) c s = c ∷ take n s
emit (blanked n) c s = blank c ∷ map blank (take n s) ++ spaces (n - length s)

pub size : Piece → ℕ
size (copied n) = n
size (blanked n) = n

-- the `while` loop; the fuel bounds its iterations
pub mask : ℕ → Lang → Text → Text
unfolding piece emit size
mask zero lang s = s
mask (suc fuel) lang [] = []
mask (suc fuel) lang (c ∷ s) =
    let p = piece lang c s in emit p c s ++ mask fuel lang (drop (size p) s)

unfoldable pub mask_comments : Text → Lang → Text
unfolding mask
mask_comments content lang = mask (length content) lang content
