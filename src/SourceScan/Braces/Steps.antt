-- ===== src/SourceScan/Braces/Steps.antt =====
-- source-scan.js, findMatchingBrace: the iterations, by what stands at the index.
use db_migrate.SourceScan.{is_quote, skip_string}
use db_migrate.SourceScan.Braces.{open_brace, close_brace, beyond, count_if, shift, brace_loop}
use db_migrate.Base.{
  ℕ, suc, ◌+◌, ◌≡◌, refl, true, false, Option, none, some, ◌∷◌, arith, ◌==◌, drop, Text,
}

quote-open : (c : ℕ) → is_quote c ≡ true → (c == open_brace) ≡ false
unfolding is_quote
quote-open c h = ground arith

quote-close : (c : ℕ) → is_quote c ≡ true → (c == close_brace) ≡ false
unfolding is_quote
quote-close c h = ground arith

pub literal-step :
    (fuel o l c : ℕ) (s : Text)
    → is_quote c ≡ true
    → brace_loop (suc fuel) o l (c ∷ s)
      ≡ shift (suc (skip_string c s)) (brace_loop fuel o l (drop (skip_string c s) s))
unfolding brace_loop beyond count_if
literal-step fuel o l c s h = rw (quote-open c h, quote-close c h, h) refl

pub plain-step :
    (fuel o l c : ℕ) (s : Text)
    → is_quote c ≡ false
    → (c == open_brace) ≡ false
    → (c == close_brace) ≡ false
    → brace_loop (suc fuel) o l (c ∷ s) ≡ shift 1 (brace_loop fuel o l s)
unfolding brace_loop beyond count_if
plain-step fuel o l c s h h' h'' = rw (h', h'', h) refl

pub open-step :
    (fuel o l : ℕ) (s : Text)
    → brace_loop (suc fuel) o l (open_brace ∷ s) ≡ shift 1 (brace_loop fuel (suc o) l s)
unfolding brace_loop beyond count_if is_quote
open-step fuel o l s = refl

apart : (o l d : ℕ) → o ≡ suc (suc d) + l → (o == suc l) ≡ false
apart o l d e = ground arith

pub close-step :
    (fuel o l d : ℕ) (s : Text)
    → o ≡ suc (suc d) + l
    → brace_loop (suc fuel) o l (close_brace ∷ s) ≡ shift 1 (brace_loop fuel o (suc l) s)
unfolding brace_loop beyond count_if is_quote
close-step fuel o l d s e = rw (apart o l d e) refl

same : (o l : ℕ) → o ≡ suc l → (o == suc l) ≡ true
same o l e = ground arith

pub found-step :
    (fuel o l : ℕ) (s : Text) → o ≡ suc l → brace_loop (suc fuel) o l (close_brace ∷ s) ≡ some 0
unfolding brace_loop beyond count_if is_quote
found-step fuel o l s e = rw (same o l e) refl

pub shift-some :
    (n k : ℕ) (o : Option ℕ) → shift n o ≡ some k → (j : ℕ) × (o ≡ some j) × (k ≡ n + j)
unfolding shift
shift-some n k none e = absurd (cc)
shift-some n k (some j) e = (j, refl, ground arith)
