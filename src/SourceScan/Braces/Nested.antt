-- ===== src/SourceScan/Braces/Nested.antt =====
-- source-scan.js, findMatchingBrace: the grammar of what stands between matching braces.
use db_migrate.SourceScan.{is_quote, skip_string}
use db_migrate.SourceScan.Braces.{open_brace, close_brace}
use db_migrate.Base.{
  ℕ, zero, suc, ◌≡◌, refl, sym, ap, ◌∙◌, ◌≢◌, Bool, true, false, [], ◌∷◌, ◌++◌, append_assoc, ◌==◌,
  if◌then◌else◌, length, take, drop, Text, subst,
}

-- a literal behind its opening quote, with its closing one
pub data Literal (quote : ℕ) : Text → Type 0 where
  closing : (c : ℕ) → (c == quote) ≡ true → Literal quote (c ∷ [])
  inside :
      (c : ℕ) (s : Text)
      → (c == quote) ≡ false
      → (c == b'\\') ≡ false
      → Literal quote s
      → Literal quote (c ∷ s)
  escaped :
      (c d : ℕ) (s : Text)
      → (c == quote) ≡ false
      → (c == b'\\') ≡ true
      → Literal quote s
      → Literal quote (c ∷ d ∷ s)

-- code in which every brace has its match
pub data Balanced : Text → Type 0 where
  nothing : Balanced []
  plain :
      (c : ℕ) (s : Text)
      → is_quote c ≡ false
      → (c == open_brace) ≡ false
      → (c == close_brace) ≡ false
      → Balanced s
      → Balanced (c ∷ s)
  literal :
      (c : ℕ) (t s : Text) → is_quote c ≡ true → Literal c t → Balanced s → Balanced (c ∷ t ++ s)
  group : (s t : Text) → Balanced s → Balanced t → Balanced (open_brace ∷ s ++ close_brace ∷ t)

pub skip_string-Literal :
    (quote : ℕ) (s : Text) (x : ℕ) (y : Text)
    → drop (skip_string quote s) s ≡ x ∷ y
    → Literal quote (take (skip_string quote s) s)
unfolding skip_string
skip_string-Literal quote [] x y h = absurd (cc)
skip_string-Literal quote (c ∷ []) x y h = absurd (cc)
skip_string-Literal quote (c ∷ d ∷ s) x y h =
    split (c == quote) refl (c == b'\\') refl h (skip_string-Literal quote s x y)
      (skip_string-Literal quote (d ∷ s) x y)
  where
    size : Bool → Bool → ℕ
    size q b =
        if q
        then 1
        else if b
        then suc (suc (skip_string quote s))
        else suc (skip_string quote (d ∷ s))

    split :
        (q : Bool)
        → (c == quote) ≡ q
        → (b : Bool) → (c == b'\\') ≡ b
        → drop (size q b) (c ∷ d ∷ s) ≡ x ∷ y
        → (drop (skip_string quote s) s ≡ x ∷ y → Literal quote (take (skip_string quote s) s))
        → (drop (skip_string quote (d ∷ s)) (d ∷ s) ≡ x ∷ y
            → Literal quote (take (skip_string quote (d ∷ s)) (d ∷ s)))
        → Literal quote (take (size q b) (c ∷ d ∷ s))
    split true e b e' k one two = closing c e
    split false e true e' k one two = escaped c d _ e e' (one k)
    split false e false e' k one two = inside c _ e e' (two k)

Literal-nonempty : {quote : ℕ} {t : Text} → Literal quote t → t ≢ []
Literal-nonempty (closing c e) = cc
Literal-nonempty (inside c s e e' h) = cc
Literal-nonempty (escaped c d s e e' h) = cc

pub length-skip_string :
    (quote : ℕ) (t r : Text) → Literal quote t → skip_string quote (t ++ r) ≡ length t
unfolding skip_string
length-skip_string quote t [] (closing c e) = refl
length-skip_string quote t (d ∷ r) (closing c e) = rw e
length-skip_string quote t r (inside c [] e e' h) = absurd (Literal-nonempty h refl)
length-skip_string quote t r (inside c (d ∷ s) e e' h) =
    rw (e, e') (ap suc (length-skip_string quote (d ∷ s) r h))
length-skip_string quote t r (escaped c d s e e' h) =
    rw (e, e') (ap (λ n. suc (suc n)) (length-skip_string quote s r h))

-- code that closes this many braces more than it opens, and never more than these
abbrev pub Closes : ℕ → Text → Type 0
Closes zero s = Balanced s
Closes (suc d) s = (a : Text) × (b : Text) × (s ≡ a ++ close_brace ∷ b) × Balanced a × Closes d b

-- what may stand before balanced code may stand before this
pub Closes-before :
    (p : Text)
    → ((s : Text) → Balanced s → Balanced (p ++ s))
    → (d : ℕ) (s : Text) → Closes d s
    → Closes d (p ++ s)
Closes-before p before zero s h = before s h
Closes-before p before (suc d) s (a, b, e, ha, hb) =
    (p ++ a, b, ap (λ t. p ++ t) e ∙ sym (append_assoc p a _), before a ha, hb)

pub Closes-open : (d : ℕ) (s : Text) → Closes (suc d) s → Closes d (open_brace ∷ s)
Closes-open d s (a, b, e, ha, hb) =
    subst (Closes d) (ap (λ t. open_brace ∷ t) (append_assoc a (close_brace ∷ []) b ∙ sym e)) (
      Closes-before (open_brace ∷ a ++ close_brace ∷ [])
        (λ t ht.
          subst Balanced (ap (λ u. open_brace ∷ u) (sym (append_assoc a (close_brace ∷ []) t)))
            (group a t ha ht))
        d b hb)
