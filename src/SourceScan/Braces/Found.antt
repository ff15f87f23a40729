-- ===== src/SourceScan/Braces/Found.antt =====
-- source-scan.js, findMatchingBrace: what it finds is the matching brace.
use db_migrate.SourceScan.{is_quote, skip_string}
use db_migrate.SourceScan.Braces.{open_brace, close_brace, brace_loop}
use db_migrate.SourceScan.Braces.Nested.{
  Literal, Balanced, nothing, plain, literal, skip_string-Literal, Closes, Closes-before,
  Closes-open,
}
use db_migrate.SourceScan.Braces.Steps.{
  literal-step, plain-step, open-step, close-step, found-step, shift-some,
}
use db_migrate.Base.{
  ℕ, zero, suc, ◌+◌, ◌≡◌, refl, sym, ap, ◌∙◌, inl, inr, true, some, [], ◌∷◌, ◌++◌, append_assoc,
  arith, ◌==◌, ==_iff, Bool-cases, length, take, drop, length-append, take-append-drop, Text, subst,
}

-- `d` more braces are closed before the one that stands `k` characters on
pub record Found (d : ℕ) (s : Text) (k : ℕ) : Type 0 where
  pub inside : Text
  pub rest : Text
  pub split : s ≡ inside ++ close_brace ∷ rest
  pub at : k ≡ length inside
  pub closes : Closes d inside

-- a piece of code in front
Found-before :
    (p : Text) (d : ℕ) (s : Text) (j k : ℕ)
    → ((t : Text) → Balanced t → Balanced (p ++ t))
    → k ≡ length p + j
    → Found d s j
    → Found d (p ++ s) k
Found-before p d s j k before e h = record {
  inside = p ++ h.inside;
  rest = h.rest;
  split = ap (λ t. p ++ t) h.split ∙ sym (append_assoc p h.inside _);
  at = e ∙ ap (λ n. length p + n) h.at ∙ sym (length-append p h.inside);
  closes = Closes-before p before d h.inside h.closes;
}

length-take_of_drop :
    (n : ℕ) (s u : Text) (c : ℕ) (r : Text) → drop n s ≡ u ++ c ∷ r → length (take n s) ≡ n
length-take_of_drop zero s u c r e = refl
length-take_of_drop (suc n) [] [] c r e = absurd (cc)
length-take_of_drop (suc n) [] (d ∷ u) c r e = absurd (cc)
length-take_of_drop (suc n) (d ∷ s) u c r e = ap suc (length-take_of_drop n s u c r e)

Found-literal :
    (c d : ℕ) (s : Text) (j k : ℕ)
    → is_quote c ≡ true
    → k ≡ suc (skip_string c s) + j
    → Found d (drop (skip_string c s) s) j
    → Found d (c ∷ s) k
Found-literal c d s j k q e h =
    subst (λ t. Found d (c ∷ t) k) (take-append-drop (skip_string c s) s)
      (Found-before (c ∷ take (skip_string c s) s) d (drop (skip_string c s) s) j k
        (λ t ht. literal c (take (skip_string c s) s) t q (behind h.inside h.split) ht)
        (e
          ∙ ap (λ n. suc n + j)
              (sym (length-take_of_drop (skip_string c s) s h.inside close_brace h.rest h.split)))
        h)
  where
    behind :
        (u : Text)
        → drop (skip_string c s) s ≡ u ++ close_brace ∷ h.rest
        → Literal c (take (skip_string c s) s)
    behind [] e' = skip_string-Literal c s close_brace h.rest e'
    behind (x ∷ u) e' = skip_string-Literal c s x (u ++ close_brace ∷ h.rest) e'

Found-open :
    (d : ℕ) (s : Text) (j k : ℕ) → k ≡ 1 + j → Found (suc d) s j → Found d (open_brace ∷ s) k
Found-open d s j k e h = record {
  inside = open_brace ∷ h.inside;
  rest = h.rest;
  split = ap (λ t. open_brace ∷ t) h.split;
  at = omega (arith, e, h.at);
  closes = Closes-open d h.inside h.closes;
}

Found-close :
    (d : ℕ) (s : Text) (j k : ℕ) → k ≡ 1 + j → Found d s j → Found (suc d) (close_brace ∷ s) k
Found-close d s j k e h = record {
  inside = close_brace ∷ h.inside;
  rest = h.rest;
  split = ap (λ t. close_brace ∷ t) h.split;
  at = omega (arith, e, h.at);
  closes = ([], h.inside, refl, nothing, h.closes);
}

abbrev Finds : ℕ → Type 0
Finds fuel =
    (o l d : ℕ) (s : Text) (k : ℕ) → o ≡ suc d + l → brace_loop fuel o l s ≡ some k → Found d s k

close-Found :
    (fuel o l d : ℕ) (s : Text) (k : ℕ)
    → Finds fuel
    → o ≡ suc d + l
    → brace_loop (suc fuel) o l (close_brace ∷ s) ≡ some k
    → Found d (close_brace ∷ s) k
close-Found fuel o l zero s k ih e h = record {
  inside = [];
  rest = s;
  split = refl;
  at = let same : some k ≡ some 0 = sym h ∙ found-step fuel o l s (omega arith) in cc;
  closes = nothing;
}
close-Found fuel o l (suc d) s k ih e h =
    let (j, h', e') = shift-some 1 k _ (sym (close-step fuel o l d s e) ∙ h) in
    Found-close d s j k e' (ih o (suc l) d s j (omega arith) h')

step-Found :
    (fuel o l d c : ℕ) (s : Text) (k : ℕ)
    → Finds fuel
    → o ≡ suc d + l
    → brace_loop (suc fuel) o l (c ∷ s) ≡ some k
    → Found d (c ∷ s) k
step-Found fuel o l d c s k ih e h = elim (Bool-cases (is_quote c)) [
  | inl q ↦
      let (j, h', e') = shift-some _ k _ (sym (literal-step fuel o l c s q) ∙ h) in
      Found-literal c d s j k q e' (ih o l d _ j e h')
  | inr q ↦ elim (Bool-cases (c == open_brace)) [
    | inl b ↦
        let b' = (==_iff c open_brace).0 b in
        let (j, h', e') = shift-some 1 k _ (
          sym (open-step fuel o l s)
          ∙ subst (λ x. brace_loop (suc fuel) o l (x ∷ s) ≡ some k) b' h) in
        subst (λ x. Found d (x ∷ s) k) (sym b')
          (Found-open d s j k e' (ih (suc o) l (suc d) s j (omega arith) h'))
    | inr b ↦ elim (Bool-cases (c == close_brace)) [
      | inl f ↦
          let f' = (==_iff c close_brace).0 f in
          subst (λ x. Found d (x ∷ s) k) (sym f')
            (close-Found fuel o l d s k ih e
              (subst (λ x. brace_loop (suc fuel) o l (x ∷ s) ≡ some k) f' h))
      | inr f ↦
          let (j, h', e') = shift-some 1 k _ (sym (plain-step fuel o l c s q b f) ∙ h) in
          Found-before (c ∷ []) d s j k (λ t ht. plain c t q b f ht) e' (ih o l d s j e h')
    ]
  ]
]

pub loop-Found : (fuel : ℕ) → Finds fuel
loop-Found zero o l d s k e h = absurd (unfold brace_loop in cc)
loop-Found (suc fuel) o l d [] k e h = absurd (unfold brace_loop in cc)
loop-Found (suc fuel) o l d (c ∷ s) k e h = step-Found fuel o l d c s k (loop-Found fuel) e h
