-- ===== src/SourceScan/Braces/Passes.antt =====
-- source-scan.js, findMatchingBrace: the loop passes over balanced code.
use db_migrate.SourceScan.{is_quote}
use db_migrate.SourceScan.Braces.{open_brace, close_brace, shift, brace_loop}
use db_migrate.SourceScan.Braces.Nested.{
  Literal, Balanced, nothing, plain, literal, group, length-skip_string,
}
use db_migrate.SourceScan.Braces.Steps.{literal-step, plain-step, open-step, close-step}
use db_migrate.Base.{
  ℕ, zero, suc, ◌+◌, ◌≤◌, ◌≡◌, refl, sym, ap, ◌∙◌, true, Option, none, some, [], ◌∷◌, ◌++◌,
  append_assoc, arith, length, length-append, Text, drop-length_append,
}

-- The loop passes over balanced code at a positive depth, with fuel left for what is behind it.
pub record Passes (fuel o l d : ℕ) (a x : Text) : Type 0 where
  pub fuel' : ℕ
  pub o' : ℕ
  pub l' : ℕ
  pub enough : length x ≤ fuel'
  pub depth : o' ≡ suc d + l'
  pub passes : brace_loop fuel o l (a ++ x) ≡ shift (length a) (brace_loop fuel' o' l' x)

shift_zero : (o : Option ℕ) → shift 0 o ≡ o
unfolding shift
shift_zero none = refl
shift_zero (some k) = ap some (omega arith)

shift-shift : (m n : ℕ) (o : Option ℕ) → shift m (shift n o) ≡ shift (m + n) o
unfolding shift
shift-shift m n none = refl
shift-shift m n (some k) = ap some (omega arith)

-- one iteration over a piece `p`, and then the rest of the code
Passes-before :
    (fuel o l o' l' d : ℕ) (p a x : Text)
    → brace_loop (suc fuel) o l (p ++ (a ++ x)) ≡ shift (length p) (brace_loop fuel o' l' (a ++ x))
    → Passes fuel o' l' d a x
    → Passes (suc fuel) o l d (p ++ a) x
Passes-before fuel o l o' l' d p a x e h = record {
  fuel' = h.fuel';
  o' = h.o';
  l' = h.l';
  enough = h.enough;
  depth = h.depth;
  passes =
      ap (brace_loop (suc fuel) o l) (append_assoc p a x)
      ∙ e
      ∙ ap (shift (length p)) h.passes
      ∙ shift-shift (length p) (length a) _
      ∙ ap (λ n. shift n (brace_loop h.fuel' h.o' h.l' x)) (sym (length-append p a));
}

Literal-passed :
    (fuel o l c : ℕ) (t r : Text)
    → is_quote c ≡ true
    → Literal c t
    → brace_loop (suc fuel) o l (c ∷ (t ++ r)) ≡ shift (suc (length t)) (brace_loop fuel o l r)
Literal-passed fuel o l c t r q h =
    literal-step fuel o l c (t ++ r) q
    ∙ rw (length-skip_string c t r h, drop-length_append t r) refl

-- A group is passed over if what is in its braces and what is behind them are.
Passes-group :
    (fuel o l d : ℕ) (s t x : Text)
    → Passes fuel (suc o) l (suc d) s (close_brace ∷ (t ++ x))
    → ((f o' l' : ℕ) → length t + length x ≤ f → o' ≡ suc d + l' → Passes f o' l' d t x)
    → Passes (suc fuel) o l d (open_brace ∷ s ++ close_brace ∷ t) x
Passes-group fuel o l d s t x h next = go h.fuel' refl
  where
    go : (f : ℕ) → h.fuel' ≡ f → Passes (suc fuel) o l d (open_brace ∷ s ++ close_brace ∷ t) x
    go zero e = absurd (omega (arith, h.enough, e))
    go (suc f) e =
        let r =
          next f h.o' (suc h.l') (omega (arith, h.enough, e, length-append t x))
            (omega (arith, h.depth)) in
        record {
          fuel' = r.fuel';
          o' = r.o';
          l' = r.l';
          enough = r.enough;
          depth = r.depth;
          passes =
              ap (λ u. brace_loop (suc fuel) o l (open_brace ∷ u)) (append_assoc s _ x)
              ∙ open-step fuel o l (s ++ close_brace ∷ (t ++ x))
              ∙ ap (shift 1) (
                  h.passes
                  ∙ ap (shift (length s)) (
                      ap (λ n. brace_loop n h.o' h.l' (close_brace ∷ (t ++ x))) e
                      ∙ close-step f h.o' h.l' d (t ++ x) h.depth
                      ∙ ap (shift 1) r.passes
                      ∙ shift-shift 1 (length t) _)
                  ∙ shift-shift (length s) (1 + length t) _)
              ∙ shift-shift 1 (length s + (1 + length t)) _
              ∙ ap (λ n. shift n (brace_loop r.fuel' r.o' r.l' x))
                  (omega (arith, length-append s (close_brace ∷ t)));
        }

pub Balanced-Passes :
    {a : Text} (fuel o l d : ℕ) (x : Text)
    → Balanced a
    → length a + length x ≤ fuel
    → o ≡ suc d + l
    → Passes fuel o l d a x
Balanced-Passes fuel o l d x nothing le e = record {
  fuel' = fuel;
  o' = o;
  l' = l;
  enough = omega arith;
  depth = e;
  passes = sym (shift_zero _);
}
Balanced-Passes zero o l d x (plain c s q b f h) le e = absurd (omega arith)
Balanced-Passes (suc fuel) o l d x (plain c s q b f h) le e =
    Passes-before fuel o l o l d (c ∷ []) s x (plain-step fuel o l c (s ++ x) q b f)
      (Balanced-Passes fuel o l d x h (omega arith) e)
Balanced-Passes zero o l d x (literal c t s q ht h) le e = absurd (omega arith)
Balanced-Passes (suc fuel) o l d x (literal c t s q ht h) le e =
    Passes-before fuel o l o l d (c ∷ t) s x (Literal-passed fuel o l c t (s ++ x) q ht)
      (Balanced-Passes fuel o l d x h (omega (arith, length-append t s)) e)
Balanced-Passes zero o l d x (group s t hs ht) le e = absurd (omega arith)
Balanced-Passes (suc fuel) o l d x (group s t hs ht) le e =
    let size = length-append s (close_brace ∷ t) in
    Passes-group fuel o l d s t x
      (Balanced-Passes fuel (suc o) l (suc d) (close_brace ∷ (t ++ x)) hs
        (omega (arith, size, length-append t x)) (omega arith))
      (λ f o' l' le' e'. Balanced-Passes f o' l' d x ht le' e')
