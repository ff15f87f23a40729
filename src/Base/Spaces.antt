-- ===== src/Base/Spaces.antt =====
-- White space, trimming, letter case and searching, as JavaScript's String does them.
use Prim.Native.Nat.{ℕ, suc, ◌-◌}
use mathlib.Core.Bool.{Bool, ◌&&◌, ◌||◌}
use mathlib.Core.Option.{Option, none, some}
use mathlib.Core.List.{[], ◌∷◌, reverse}
use db_migrate.Base.Tests.{◌==◌, leb, if◌then◌else◌}
use db_migrate.Base.Lists.{length, drop}
use db_migrate.Base.Strings.{Text, starts_with}

-- `/\s/`, which is also what `trim` removes
unfoldable pub is_space : ℕ → Bool
is_space c =
    leb 9 c && leb c 13
    || c == 32
    || c == 160
    || c == 0x1680
    || leb 0x2000 c && leb c 0x200a
    || c == 0x2028
    || c == 0x2029
    || c == 0x202f
    || c == 0x205f
    || c == 0x3000
    || c == 0xfeff

unfoldable pub trim_start : Text → Text
unfolding is_space
trim_start [] = []
trim_start (c ∷ s) = if is_space c then trim_start s else c ∷ s

-- `s.trim()`
unfoldable pub trim : Text → Text
unfolding trim_start
trim s = reverse (trim_start (reverse (trim_start s)))

-- `toUpperCase` on an ASCII letter; other code units are left
unfoldable pub upper : ℕ → ℕ
upper c = if leb b'a' c && leb c b'z' then c - 32 else c

-- `s.indexOf(needle)`, with `none` for -1
unfoldable pub index_of : Text → Text → Option ℕ
unfolding starts_with
index_of needle [] = if starts_with [] needle then some 0 else none
index_of needle (c ∷ s) =
    let rest = index_of needle s in
    if starts_with (c ∷ s) needle then some 0 else elim rest [ none ↦ none | some i ↦ some (suc i) ]

-- `s.replace(needle, '')`: the first occurrence only
unfoldable pub remove_first : Text → Text → Text
unfolding starts_with
remove_first needle [] = []
remove_first needle (c ∷ s) =
    if starts_with (c ∷ s) needle then drop (length needle) (c ∷ s) else c ∷ remove_first needle s
