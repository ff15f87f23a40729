-- ===== src/MariaDb/Status/Edited.antt =====
-- status of both adapters: when the text of an applied file was edited, without reference to the
-- comparison that the code makes.
use db_migrate.MariaDb.{Result, ok, err}
use db_migrate.MariaDb.Status.{Verdict, mismatch, baseline, compare_checksum}
use db_migrate.Base.{
  ◌≡◌, refl, Bool, true, false, not, ◌&&◌, Option, none, some, arith, Text, text_eq,
}

-- A checksum is recorded, the file can be read, and its hash is another one.
unfoldable pub differs : (Text → Text) → Option Text → Result Text → Bool
unfolding text_eq
differs sha256 (some sum) (ok content) = not (text_eq sum (sha256 content))
differs sha256 (some sum) (err e) = false
differs sha256 none file = false

-- No checksum is recorded, and the file can be read.
unfoldable pub lacks : Option Text → Result Text → Bool
lacks none (ok content) = true
lacks none (err e) = false
lacks (some sum) file = false

abbrev pub is_mismatch : Verdict → Bool
is_mismatch v = elim v [ mismatch ↦ true | _ ↦ false ]

abbrev pub is_baseline : Verdict → Bool
is_baseline v = elim v [ baseline sum ↦ true | _ ↦ false ]

module _ (sha256 : Text → Text) (read_only : Bool) where
  -- what the code compares
  abbrev pub judged : Option Text → Result Text → Verdict
  judged sum file =
      compare_checksum read_only sum
        (elim file [ ok content ↦ some (sha256 content) | err e ↦ none ])

  pub mismatch_differs :
      (sum : Option Text) (file : Result Text)
      → is_mismatch (judged sum file) ≡ differs sha256 sum file
  unfolding compare_checksum differs
  mismatch_differs none (ok content) = ground arith
  mismatch_differs none (err e) = refl
  mismatch_differs (some sum) (ok content) = ground arith
  mismatch_differs (some sum) (err e) = refl

  pub baseline_lacks :
      (sum : Option Text) (file : Result Text)
      → is_baseline (judged sum file) ≡ (not read_only && lacks sum file)
  unfolding compare_checksum lacks
  baseline_lacks none (ok content) = ground arith
  baseline_lacks none (err e) = ground arith
  baseline_lacks (some sum) (ok content) = ground arith
  baseline_lacks (some sum) (err e) = ground arith
