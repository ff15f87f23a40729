-- ===== src/SourceScan/Braces.antt =====
-- src/core/source-scan.js: findMatchingBrace. As in maskComments, the recursion is on what is left of
-- the text from the index on.
pub mod Nested
pub mod Steps
pub mod Found
pub mod Passes
pub mod Matching
use db_migrate.SourceScan.{js, is_quote, skip_string, mask_comments}
use db_migrate.Base.{
  ℕ, zero, suc, ◌+◌, ◌-◌, Bool, ◌&&◌, Option, none, some, [], ◌∷◌, ◌==◌, if◌then◌else◌, length,
  drop, Text,
}

abbrev pub open_brace : ℕ
open_brace = b'{'

abbrev pub close_brace : ℕ
close_brace = b'}'

-- how far an iteration goes beyond its character
unfoldable pub beyond : ℕ → Text → ℕ
unfolding is_quote skip_string
beyond c s = if is_quote c then skip_string c s else 0

unfoldable pub count_if : Bool → ℕ → ℕ
count_if b n = if b then suc n else n

unfoldable pub shift : ℕ → Option ℕ → Option ℕ
shift n none = none
shift n (some k) = some (n + k)

-- The `for` loop, with how many braces were opened and closed, whose difference is `depth`, which
-- may be negative: how far on the match is. The fuel bounds the iterations.
unfoldable pub brace_loop : ℕ → ℕ → ℕ → Text → Option ℕ
unfolding beyond count_if shift
brace_loop zero opened closed s = none
brace_loop (suc fuel) opened closed [] = none
brace_loop (suc fuel) opened closed (c ∷ s) =
    let n = beyond c s in
    let rest =
      brace_loop fuel (count_if (c == open_brace) opened) (count_if (c == close_brace) closed)
        (drop n s) in
    if c == close_brace && opened == suc closed then some 0 else shift (suc n) rest

-- `findMatchingBrace(js, openIndex)`, with none for `-1`
unfoldable pub find_matching_brace : Text → ℕ → Option ℕ
unfolding brace_loop mask_comments shift
find_matching_brace source open_index =
    let code = mask_comments source js in
    shift open_index (brace_loop (length code) 0 0 (drop open_index code))
