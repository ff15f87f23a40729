-- ===== src/SourceScan/Mask/Grammar.antt =====
-- source-scan.js, maskComments: the grammar of a text and its masked form.
use db_migrate.SourceScan.{Lang, newline, is_quote}
use db_migrate.SourceScan.Braces.Nested.{Literal}
use db_migrate.SourceScan.Mask.Comments.{LineStart, BlockStart, Block}
use db_migrate.Base.{
  ℕ, ◌≡◌, ◌≢◌, ◌⊎◌, true, false, [], ◌∷◌, ◌++◌, map, ◌==◌, if◌then◌else◌, All, Text,
}

-- what stands for a character of a block comment
abbrev pub hidden : ℕ → ℕ
hidden d = if d == newline then newline else b' '

abbrev pub space_for : ℕ → ℕ
space_for d = b' '

-- A text and what it is when its comments are masked.
pub data Masked (lang : Lang) : Text → Text → Type 0 where
  nothing : Masked lang [] []
  code :
      (c : ℕ) (s t : Text)
      → is_quote c ≡ false
      → (LineStart lang (c ∷ s) → ⊥)
      → (BlockStart (c ∷ s) → ⊥)
      → Masked lang s t
      → Masked lang (c ∷ s) (c ∷ t)
  literal :
      (c : ℕ) (b s t : Text)
      → is_quote c ≡ true
      → Literal c b
      → Masked lang s t
      → Masked lang (c ∷ b ++ s) (c ∷ b ++ t)
  last_literal :
      (c : ℕ) (s : Text)
      → is_quote c ≡ true
      → ((b r : Text) → s ≡ b ++ r → Literal c b → r ≡ [])
      → Masked lang (c ∷ s) (c ∷ s)
  line :
      (c : ℕ) (b s t : Text)
      → LineStart lang (c ∷ b ++ s)
      → All (λ d. d ≢ newline) b
      → (s ≡ []) ⊎ ((r : Text) × (s ≡ newline ∷ r))
      → Masked lang s t
      → Masked lang (c ∷ b ++ s) (b' ' ∷ map space_for b ++ t)
  block :
      (b s t : Text)
      → Block b
      → Masked lang s t
      → Masked lang (b'/' ∷ b'*' ∷ b ++ s) (b' ' ∷ b' ' ∷ map hidden b ++ t)
  open_block :
      (s : Text)
      → ((b r : Text) → s ≡ b ++ r → Block b → ⊥)
      → Masked lang (b'/' ∷ b'*' ∷ s) (b' ' ∷ b' ' ∷ map hidden s)
