-- ===== src/SourceScan/Mask/Rounds.antt =====
-- source-scan.js, maskComments: what one iteration does.
use db_migrate.SourceScan.{
  Lang, sql, js, newline, is_quote, skip_string, blank, Piece, copied, blanked, spaces, emit, size,
  piece, mask, line_comment, block_comment, to_newline, to_close,
}
use db_migrate.SourceScan.Braces.Nested.{Literal, skip_string-Literal, length-skip_string}
use db_migrate.SourceScan.Mask.Comments.{
  LineStart, line_comment-LineStart, no_line, block_comment-BlockStart, no_block, to_newline-clear,
  to_newline-end, to_newline-within, index_of-Block, Block-index_of,
}
use db_migrate.SourceScan.Mask.Grammar.{
  hidden, space_for, Masked, code, literal, last_literal, line, block, open_block,
}
use db_migrate.Base.{
  ℕ, zero, suc, ◌+◌, ◌-◌, ◌≤◌, ◌≡◌, refl, sym, ap, ◌∙◌, ◌≢◌, inl, inr, Bool, true, false, Option,
  none, some, [], ◌∷◌, ◌++◌, map, append-nil, arith, if◌then◌else◌, length, take, drop,
  take-append-drop, All, Text, codes, index_of, pred, drop-length_append, subst,
}

map-blank : (b : Text) → map blank b ≡ map hidden b
unfolding blank
map-blank [] = refl
map-blank (c ∷ b) = ap (λ t. hidden c ∷ t) (map-blank b)

blank-clear : (b : Text) → All (λ d. d ≢ newline) b → map blank b ≡ map space_for b
unfolding blank
blank-clear [] h = refl
blank-clear (c ∷ b) (ne, h) = ground (arith, ne, blank-clear b h)

no_spaces : (n m : ℕ) → n ≤ m → spaces (n - m) ≡ []
unfolding spaces
no_spaces n m h = let e : n - m ≡ 0 = omega arith in rw e refl

drop-past : (n : ℕ) (s : Text) → length s ≤ n → drop n s ≡ []
drop-past zero [] h = refl
drop-past zero (c ∷ s) h = absurd (omega arith)
drop-past (suc n) [] h = refl
drop-past (suc n) (c ∷ s) h = drop-past n s (omega arith)

-- a blanked range that ends within the text
emit-within :
    (n c : ℕ) (s : Text) → n ≤ length s → emit (blanked n) c s ≡ blank c ∷ map blank (take n s)
unfolding emit
emit-within n c s h =
    ap (λ t. blank c ∷ t)
      (ap (λ t. map blank (take n s) ++ t) (no_spaces n (length s) h) ∙ append-nil _)

pub length-drop : (k : ℕ) (s : Text) → length (drop k s) ≤ length s
length-drop zero s = omega arith
length-drop (suc k) [] = omega arith
length-drop (suc k) (c ∷ s) = omega (arith, length-drop k s)

first_blank : Text → ℕ
first_blank [] = b' '
first_blank (c ∷ s) = blank c

blank-LineStart : (lang : Lang) (s : Text) → LineStart lang s → first_blank s ≡ b' '
unfolding first_blank blank
blank-LineStart js s (r, e) = ap first_blank e
blank-LineStart sql s (inl (r, e)) = ap first_blank e
blank-LineStart sql s (inr (inl e)) = ap first_blank e
blank-LineStart sql s (inr (inr (d, r, e, space))) = ap first_blank e

mask-nil : (fuel : ℕ) (lang : Lang) → mask fuel lang [] ≡ []
unfolding mask
mask-nil zero lang = refl
mask-nil (suc fuel) lang = refl

module _ (lang : Lang) (fuel : ℕ)
    (ih : (r : Text) → length r ≤ fuel → Masked lang r (mask fuel lang r)) where
  -- what an iteration over this piece, and the later ones, give
  abbrev pub Round : Piece → ℕ → Text → Type 0
  Round p c s = Masked lang (c ∷ s) (emit p c s ++ mask fuel lang (drop (size p) s))

  rest : (n : ℕ) (s : Text) → length s ≤ fuel → Masked lang (drop n s) (mask fuel lang (drop n s))
  rest n s h = ih (drop n s) (omega (arith, length-drop n s))

  ends_text : (n : ℕ) (s : Text) → drop n s ≡ [] → take n s ++ mask fuel lang (drop n s) ≡ s
  ends_text n s e =
      ap (λ t. take n s ++ t) (ap (mask fuel lang) e ∙ mask-nil fuel lang ∙ sym e)
      ∙ take-append-drop n s

  literal-Round :
      (c : ℕ) (s : Text)
      → length s ≤ fuel
      → is_quote c ≡ true
      → Round (copied (skip_string c s)) c s
  unfolding emit size
  literal-Round c s h q = go (drop n s) refl
    where
      n : ℕ
      n = skip_string c s

      shorter : (b r : Text) → s ≡ b ++ r → Literal c b → r ≡ drop n s
      shorter b r e l =
          let size_b : n ≡ length b = ap (skip_string c) e ∙ length-skip_string c b r l in
          sym (drop-length_append b r)
          ∙ ap (drop (length b)) (sym e)
          ∙ ap (λ k. drop k s) (sym size_b)

      go :
          (r : Text)
          → drop n s ≡ r
          → Masked lang (c ∷ s) (c ∷ take n s ++ mask fuel lang (drop n s))
      go [] e =
          subst (λ t. Masked lang (c ∷ s) (c ∷ t)) (sym (ends_text n s e))
            (last_literal c s q λ b r e' l. shorter b r e' l ∙ e)
      go (x ∷ y) e =
          subst (λ t. Masked lang (c ∷ t) (c ∷ take n s ++ mask fuel lang (drop n s)))
            (take-append-drop n s)
            (literal c (take n s) (drop n s) (mask fuel lang (drop n s)) q
              (skip_string-Literal c s x y e) (rest n s h))

  line-Round :
      (c : ℕ) (s : Text)
      → length s ≤ fuel
      → blank c ≡ b' '
      → LineStart lang (c ∷ s)
      → Round (blanked (to_newline s)) c s
  unfolding size
  line-Round c s h white start =
      let n = to_newline s in
      let masked =
        line c (take n s) (drop n s) (mask fuel lang (drop n s))
          (subst (λ t. LineStart lang (c ∷ t)) (sym (take-append-drop n s)) start)
          (to_newline-clear s) (to_newline-end s) (rest n s h) in
      let shown : emit (blanked n) c s ≡ b' ' ∷ map space_for (take n s) =
        emit-within n c s (to_newline-within s)
        ∙ ap (λ d. d ∷ map blank (take n s)) white
        ∙ ap (λ t. b' ' ∷ t) (blank-clear (take n s) (to_newline-clear s)) in
      subst (λ t. Masked lang (c ∷ t) (emit (blanked n) c s ++ mask fuel lang (drop n s)))
        (take-append-drop n s)
        (subst (λ t. Masked lang (c ∷ take n s ++ drop n s) (t ++ mask fuel lang (drop n s)))
          (sym shown) masked)

  -- what a blanked block comment gives, that ends `n` characters behind its opening
  block-shown :
      (n : ℕ) (s : Text)
      → n ≤ length s
      → emit (blanked (suc n)) b'/' (b'*' ∷ s) ≡ b' ' ∷ b' ' ∷ map hidden (take n s)
  unfolding blank
  block-shown n s h =
      emit-within (suc n) b'/' (b'*' ∷ s) (omega arith)
      ∙ ap (λ t. b' ' ∷ b' ' ∷ t) (map-blank (take n s))

  block-Round : (s : Text) → length s ≤ fuel → Round (blanked (to_close (b'*' ∷ s))) b'/' (b'*' ∷ s)
  unfolding size to_close
  block-Round s h = go (index_of (codes "*/") s) refl
    where
      go :
          (o : Option ℕ)
          → index_of (codes "*/") s ≡ o
          → Round (blanked (elim o [ none ↦ length (b'*' ∷ s) | some i ↦ i + 3 ])) b'/' (b'*' ∷ s)
      go none e =
          let n = length s in
          let gone = drop-past n s (omega arith) in
          let whole : take n s ≡ s =
            sym (append-nil (take n s))
            ∙ ap (λ t. take n s ++ t) (sym gone)
            ∙ take-append-drop n s in
          let nothing_left = ap (mask fuel lang) gone ∙ mask-nil fuel lang in
          subst (Masked lang (b'/' ∷ b'*' ∷ s))
            (sym (
              ap (λ t. t ++ mask fuel lang (drop n s)) (block-shown n s (omega arith))
              ∙ ap (λ t. (b' ' ∷ b' ' ∷ map hidden (take n s)) ++ t) nothing_left
              ∙ append-nil _
              ∙ ap (λ t. b' ' ∷ b' ' ∷ map hidden t) whole))
            (open_block s
              λ b r e' k. Block-index_of b r k (ap (index_of (codes "*/")) (sym e') ∙ e))
      go (some i) e =
          let n = suc (suc i) in
          let (closed, within) = index_of-Block s i e in
          let by : i + 3 ≡ suc n = omega arith in
          subst (λ k. Round (blanked k) b'/' (b'*' ∷ s)) (sym by)
            (subst
              (λ t.
                Masked lang (b'/' ∷ b'*' ∷ t)
                  (emit (blanked (suc n)) b'/' (b'*' ∷ s) ++ mask fuel lang (drop n s)))
              (take-append-drop n s)
              (subst
                (λ t.
                  Masked lang (b'/' ∷ b'*' ∷ take n s ++ drop n s) (t ++ mask fuel lang (drop n s)))
                (sym (block-shown n s within))
                (block (take n s) (drop n s) (mask fuel lang (drop n s)) closed (rest n s h))))

  abbrev AtHead : Text → Type 0
  AtHead [] = Unit
  AtHead (c ∷ s) = Round (blanked (to_close s)) c s

  pub piece-Round : (c : ℕ) (s : Text) → length s ≤ fuel → Round (piece lang c s) c s
  unfolding piece first_blank
  piece-Round c s h = go (is_quote c) refl (line_comment lang c s) refl (block_comment c s) refl
    where
      go :
          (q : Bool)
          → is_quote c ≡ q
          → (l : Bool) → line_comment lang c s ≡ l
          → (b : Bool) → block_comment c s ≡ b
          → Round
              (if q
                then copied (skip_string c s)
                else if l
                then blanked (to_newline s)
                else if b
                then blanked (to_close s)
                else copied 0)
              c
              s
      go true e l e' b e'' = literal-Round c s h e
      go false e true e' b e'' =
          let start = line_comment-LineStart lang c s e' in
          line-Round c s h (blank-LineStart lang (c ∷ s) start) start
      go false e false e' true e'' =
          let (r, same) = block_comment-BlockStart c s e'' in
          let fits : length s ≡ suc (length r) = ap pred (ap length same) in
          subst AtHead (sym same) (block-Round r (omega arith))
      go false e false e' false e'' =
          unfold emit size in
          code c s (mask fuel lang s) e (no_line lang c s e') (no_block c s e'') (ih s h)
