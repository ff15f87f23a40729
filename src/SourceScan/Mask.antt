-- ===== src/SourceScan/Mask.antt =====
-- source-scan.js, maskComments: what is masked is the comments, and nothing else.
pub mod Comments
pub mod Grammar
pub mod Rounds
use db_migrate.SourceScan.{Lang, emit, size, piece, mask, mask_comments}
use db_migrate.SourceScan.Mask.Grammar.{Masked, nothing}
use db_migrate.SourceScan.Mask.Rounds.{length-drop, piece-Round}
use db_migrate.Base.{
  ℕ, zero, suc, ◌+◌, ◌-◌, ◌≤◌, ◌≡◌, refl, ap, [], ◌∷◌, ◌++◌, arith, length, drop, Text,
}

mask-Masked :
    (fuel : ℕ) (lang : Lang) (s : Text) → length s ≤ fuel → Masked lang s (mask fuel lang s)
unfolding mask
mask-Masked zero lang [] h = nothing
mask-Masked zero lang (c ∷ s) h = absurd (omega arith)
mask-Masked (suc fuel) lang [] h = nothing
mask-Masked (suc fuel) lang (c ∷ s) h =
    piece-Round lang fuel (mask-Masked fuel lang) c s (omega arith)

-- Masking a text of either language replaces its comments and nothing else: what stands outside of
-- comments and the literals, with their escapes, are kept, also where a literal contains the opening
-- of a comment or a comment a quote. A comment to the end of its line is replaced by as many spaces,
-- up to the newline; a block comment, up to its first closing or the end of the text, by spaces for
-- all but its newlines.
pub mask_comments-Masked :
    (content : Text) (lang : Lang) → Masked lang content (mask_comments content lang)
unfolding mask_comments
mask_comments-Masked content lang = mask-Masked (length content) lang content (omega arith)

mask_enough :
    (m n : ℕ) (lang : Lang) (s : Text) → length s ≤ m → length s ≤ n → mask m lang s ≡ mask n lang s
unfolding mask
mask_enough zero zero lang s h k = refl
mask_enough zero (suc n) lang [] h k = refl
mask_enough (suc m) zero lang [] h k = refl
mask_enough zero (suc n) lang (c ∷ s) h k = absurd (omega arith)
mask_enough (suc m) zero lang (c ∷ s) h k = absurd (omega arith)
mask_enough (suc m) (suc n) lang [] h k = refl
mask_enough (suc m) (suc n) lang (c ∷ s) h k =
    let p = piece lang c s in
    let short = length-drop (size p) s in
    ap (λ t. emit p c s ++ t)
      (mask_enough m n lang (drop (size p) s) (omega (arith, short)) (omega (arith, short)))

-- The loop of maskComments ends within as many rounds as the text has characters: with more fuel
-- than that, the result is the same.
pub mask_comments-eq-mask :
    (content : Text) (lang : Lang) (more : ℕ)
    → mask_comments content lang ≡ mask (length content + more) lang content
unfolding mask_comments
mask_comments-eq-mask content lang more =
    mask_enough (length content) (length content + more) lang content (omega arith) (omega arith)
