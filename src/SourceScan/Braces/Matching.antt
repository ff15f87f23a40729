-- ===== src/SourceScan/Braces/Matching.antt =====
-- source-scan.js: findMatchingBrace finds the brace that matches, and every one that does.
use db_migrate.SourceScan.{js, mask_comments}
use db_migrate.SourceScan.Braces.{open_brace, close_brace, shift, brace_loop, find_matching_brace}
use db_migrate.SourceScan.Braces.Nested.{Balanced}
use db_migrate.SourceScan.Braces.Steps.{open-step, found-step, shift-some}
use db_migrate.SourceScan.Braces.Found.{loop-Found}
use db_migrate.SourceScan.Braces.Passes.{Passes, Balanced-Passes}
use db_migrate.Base.{
  ℕ, zero, suc, ◌+◌, ◌≤◌, ◌<◌, ◌≡◌, refl, sym, ap, ◌∙◌, ◌↔◌, some, [], ◌∷◌, ◌++◌, arith, length,
  drop, length-append, Text,
}

-- The brace at `i` matches the one at `open_index`, which `s` stands behind.
pub record Matches (open_index : ℕ) (s : Text) (i : ℕ) : Type 0 where
  pub inside : Text
  pub rest : Text
  pub split : s ≡ inside ++ close_brace ∷ rest
  pub balanced : Balanced inside
  pub at : i ≡ open_index + (1 + length inside)

length-drop-le : (n : ℕ) (s : Text) → length (drop n s) ≤ length s
length-drop-le zero s = omega arith
length-drop-le (suc n) [] = omega arith
length-drop-le (suc n) (c ∷ s) = omega (arith, length-drop-le n s)

loop-Matches :
    (fuel open_index : ℕ) (s : Text) (i : ℕ)
    → shift open_index (brace_loop fuel 0 0 (open_brace ∷ s)) ≡ some i
    → Matches open_index s i
loop-Matches zero open_index s i h = absurd (unfold brace_loop shift in cc)
loop-Matches (suc fuel) open_index s i h =
    let (k, h1, e1) = shift-some open_index i _ h in
    let (j, h2, e2) = shift-some 1 k _ (sym (open-step fuel 0 0 s) ∙ h1) in
    let found = loop-Found fuel 1 0 0 s j (omega arith) h2 in
    record {
      inside = found.inside;
      rest = found.rest;
      split = found.split;
      balanced = found.closes;
      at = omega (arith, e1, e2, found.at);
    }

Matches-loop :
    (fuel open_index : ℕ) (s : Text) (i : ℕ)
    → length s < fuel
    → Matches open_index s i
    → shift open_index (brace_loop fuel 0 0 (open_brace ∷ s)) ≡ some i
Matches-loop zero open_index s i le m = absurd (omega arith)
Matches-loop (suc fuel) open_index s i le m =
    let size : length s ≡ length m.inside + (1 + length m.rest) =
      ap length m.split ∙ length-append m.inside (close_brace ∷ m.rest) ∙ omega arith in
    go (
      Balanced-Passes fuel 1 0 0 (close_brace ∷ m.rest) m.balanced (omega (arith, size))
        (omega arith))
  where
    go :
        Passes fuel 1 0 0 m.inside (close_brace ∷ m.rest)
        → shift open_index (brace_loop (suc fuel) 0 0 (open_brace ∷ s)) ≡ some i
    go h = last h.fuel' refl
      where
        last :
            (f : ℕ)
            → h.fuel' ≡ f
            → shift open_index (brace_loop (suc fuel) 0 0 (open_brace ∷ s)) ≡ some i
        last zero e = absurd (omega (arith, h.enough, e))
        last (suc f) e =
            ap (shift open_index) (
              open-step fuel 0 0 s
              ∙ ap (shift 1) (
                  ap (brace_loop fuel 1 0) m.split
                  ∙ h.passes
                  ∙ ap (shift (length m.inside)) (
                      ap (λ n. brace_loop n h.o' h.l' (close_brace ∷ m.rest)) e
                      ∙ found-step f h.o' h.l' m.rest (omega (arith, h.depth)))))
            ∙ unfold shift in ap some (omega (arith, m.at))

-- From an opening brace in the text without its comments, the search finds an index exactly if what
-- stands between the two is balanced and a closing brace stands at the index: of plain characters,
-- of literals with their escapes, and of groups in braces that are balanced in turn.
pub find_matching_brace-Matches :
    (source : Text) (open_index i : ℕ) (s : Text)
    → drop open_index (mask_comments source js) ≡ open_brace ∷ s
    → (find_matching_brace source open_index ≡ some i) ↔ Matches open_index s i
unfolding find_matching_brace
find_matching_brace-Matches source open_index i s e =
    let code = mask_comments source js in
    let start : find_matching_brace source open_index
        ≡ shift open_index (brace_loop (length code) 0 0 (open_brace ∷ s)) =
      ap (λ t. shift open_index (brace_loop (length code) 0 0 t)) e in
    let enough : length s < length code =
      omega (arith, length-drop-le open_index code, ap length e) in
    (
      λ h. loop-Matches (length code) open_index s i (sym start ∙ h),
      λ m. start ∙ Matches-loop (length code) open_index s i enough m,
    )
