-- ===== src/Base/Strings.antt =====
-- A JavaScript string as the list of its code units.
use Prim.Native.Nat.{ℕ}
use Prim.Native.Char.{code}
use Prim.Native.String.{String}
use mathlib.Core.Path.{◌≡◌, refl}
use mathlib.Core.Option.{Option, none, some}
use mathlib.Core.Logic.{◌↔◌, inl, inr}
use mathlib.Core.Bool.{Bool, true, false, ◌&&◌, ◌||◌}
use mathlib.Core.List.{List, [], ◌∷◌, ◌++◌, reverse}
use native.Mathlib.Omega.{arith}
use db_migrate.Base.Tests.{ltb, ◌==◌, if◌then◌else◌, ==_iff, Bool-cases}

abbrev pub Text : Type 0
Text = List ℕ

-- The code units of a literal, which is ASCII wherever this is used.
abbrev pub codes : String → Text
codes String.[] = []
codes (String.◌∷◌ c s) = code c ∷ codes s

-- `a === b`
unfoldable pub text_eq : Text → Text → Bool
text_eq [] [] = true
text_eq [] (d ∷ b) = false
text_eq (c ∷ a) [] = false
text_eq (c ∷ a) (d ∷ b) = c == d && text_eq a b

pub text_eq_iff : (a b : Text) → (text_eq a b ≡ true) ↔ (a ≡ b)
unfolding text_eq
text_eq_iff [] [] = ground arith
text_eq_iff [] (d ∷ b) = ground arith
text_eq_iff (c ∷ a) [] = ground arith
text_eq_iff (c ∷ a) (d ∷ b) = ground (arith, text_eq_iff a b)

pub text_eq_refl : (a : Text) → text_eq a a ≡ true
text_eq_refl a = (text_eq_iff a a).1 refl

-- `a < b`, by code units
unfoldable pub text_lt : Text → Text → Bool
text_lt a [] = false
text_lt [] (d ∷ b) = true
text_lt (c ∷ a) (d ∷ b) = ltb c d || c == d && text_lt a b

-- `s.startsWith(prefix)`
unfoldable pub starts_with : Text → Text → Bool
starts_with s [] = true
starts_with [] (d ∷ p) = false
starts_with (c ∷ s) (d ∷ p) = c == d && starts_with s p

-- `s.includes(needle)`
unfoldable pub includes : Text → Text → Bool
unfolding starts_with
includes [] needle = starts_with [] needle
includes (c ∷ s) needle = starts_with (c ∷ s) needle || includes s needle

-- `s.endsWith(suffix)`
unfoldable pub ends_with : Text → Text → Bool
unfolding starts_with
ends_with s suffix = starts_with (reverse s) (reverse suffix)

-- `xs.includes(x)` and `new Set(xs).has(x)`
unfoldable pub contains : List Text → Text → Bool
unfolding text_eq
contains [] x = false
contains (y ∷ ys) x = text_eq y x || contains ys x

abbrev cons_head : ℕ → List Text → List Text
cons_head c [] = (c ∷ []) ∷ []
cons_head c (part ∷ parts) = (c ∷ part) ∷ parts

-- `s.split(sep)` for a separator of one code unit
unfoldable pub split_on : ℕ → Text → List Text
split_on sep [] = [] ∷ []
split_on sep (c ∷ s) = if c == sep then [] ∷ split_on sep s else cons_head c (split_on sep s)

-- `parts.join(sep)` for a separator of one code unit
unfoldable pub join_with : ℕ → List Text → Text
join_with sep [] = []
join_with sep (part ∷ []) = part
join_with sep (part ∷ next ∷ parts) = part ++ sep ∷ join_with sep (next ∷ parts)

split_on-ne-nil :
    (sep : ℕ) (s : Text) → (part : Text) × (parts : List Text) × (split_on sep s ≡ part ∷ parts)
unfolding split_on
split_on-ne-nil sep [] = ([], [], refl)
split_on-ne-nil sep (c ∷ s) =
    let (part, parts, e) = split_on-ne-nil sep s in
    elim (Bool-cases (c == sep)) [
      | inl hit ↦ ([], split_on sep s, rw hit)
      | inr miss ↦ (c ∷ part, parts, rw (miss, e))
    ]

join_with-cons_head :
    (sep c : ℕ) (parts : List Text) → join_with sep (cons_head c parts) ≡ c ∷ join_with sep parts
unfolding join_with
join_with-cons_head sep c [] = refl
join_with-cons_head sep c (p ∷ []) = refl
join_with-cons_head sep c (p ∷ q ∷ parts) = refl

join_with-nil_cons :
    (sep : ℕ) (part : Text) (parts : List Text)
    → join_with sep ([] ∷ part ∷ parts) ≡ sep ∷ join_with sep (part ∷ parts)
unfolding join_with
join_with-nil_cons sep part parts = refl

-- Joining the parts of a split gives the text back.
pub join_with-split_on : (sep : ℕ) (s : Text) → join_with sep (split_on sep s) ≡ s
unfolding split_on
join_with-split_on sep [] = unfold join_with in refl
join_with-split_on sep (c ∷ s) =
    let (part, parts, e) = split_on-ne-nil sep s in
    let ih = join_with-split_on sep s in
    elim (Bool-cases (c == sep)) [
      | inl hit ↦ rw (hit, e) (cc (join_with-nil_cons sep part parts, (==_iff c sep).0 hit, e, ih))
      | inr miss ↦ rw miss (cc (join_with-cons_head sep c (split_on sep s), ih))
    ]

-- an absent option and an empty text are both falsy
abbrev pub truthy : Option Text → Option Text
truthy none = none
truthy (some []) = none
truthy (some (c ∷ s)) = some (c ∷ s)
