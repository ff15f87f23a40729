-- ===== src/MongoDb/Annotations/Bounds.antt =====
-- mongodb-adapter.js, resolveOperationTimeout: which limits it gives.
use db_migrate.MariaDb.{Result, ok}
use db_migrate.MariaDb.Files.Annotations.{parse_whole_number}
use db_migrate.MongoDb.Annotations.{
  OperationTimeout, TimeoutSource, of_annotation, of_config, unless_zero, get_operation_timeout_ms,
  timeout_of_config, timeout_of_annotation, resolve_operation_timeout, parse_file_annotations,
}
use db_migrate.Base.{
  ℕ, zero, suc, ◌<◌, ◌≡◌, refl, ap, ◌⊎◌, inl, inr, Option, none, some, arith, Text, subst,
}

-- what a limit was written as
abbrev pub written : Option (Option ℕ) → Text → TimeoutSource → Option ℕ
written config content of_annotation =
    elim ((parse_file_annotations content).operation_timeout_ms) [
      | none ↦ none
      | some raw ↦ parse_whole_number raw
    ]
written config content of_config = elim config [ none ↦ none | some value ↦ value ]

-- A limit is positive and is the number written in its source; where there is none, no number is
-- written there, or 0.
abbrev pub IsLimit : Option (Option ℕ) → Text → OperationTimeout → Type 0
IsLimit config content t = elim t.timeout_ms [
  | none ↦ (written config content t.source ≡ none) ⊎ (written config content t.source ≡ some 0)
  | some n ↦ (0 < n) × (written config content t.source ≡ some n)
]

module _ (config : Option (Option ℕ)) (content : Text) where
  unless_zero-IsLimit :
      (value : ℕ) (source : TimeoutSource)
      → written config content source ≡ some value
      → IsLimit config content (record { timeout_ms = unless_zero value; source = source })
  unfolding unless_zero
  unless_zero-IsLimit zero source w = inr w
  unless_zero-IsLimit (suc n) source w = (omega arith, w)

  same-IsLimit :
      (t t' : OperationTimeout)
      → (Path (Result OperationTimeout) (ok t) (ok t'))
      → IsLimit config content t
      → IsLimit config content t'
  same-IsLimit t t' e h = let same : t ≡ t' = cc in subst (IsLimit config content) same h

  annotation-IsLimit :
      (o : Option ℕ) (t : OperationTimeout)
      → written config content of_annotation ≡ o
      → timeout_of_annotation o ≡ ok t
      → IsLimit config content t
  unfolding timeout_of_annotation
  annotation-IsLimit none t w e = absurd (cc)
  annotation-IsLimit (some value) t w e =
      same-IsLimit _ t e (unless_zero-IsLimit value of_annotation w)

  unset-IsLimit :
      config ≡ none → IsLimit config content (record { timeout_ms = none; source = of_config })
  unset-IsLimit w = inl (ground (arith, w))

  config-IsLimit :
      (c : Option (Option ℕ)) (t : OperationTimeout)
      → config ≡ c
      → timeout_of_config (get_operation_timeout_ms c) ≡ ok t
      → IsLimit config content t
  unfolding timeout_of_config get_operation_timeout_ms
  config-IsLimit none t w e = same-IsLimit _ t e (unset-IsLimit w)
  config-IsLimit (some none) t w e = absurd (cc)
  config-IsLimit (some (some value)) t w e =
      same-IsLimit _ t e (unless_zero-IsLimit value of_config (ground (arith, w)))

  -- A time limit that a migration file and the config give is a positive number of milliseconds,
  -- the one written in the source that it names; where they give none, that source holds no number,
  -- or 0.
  pub resolve-IsLimit :
      (t : OperationTimeout)
      → resolve_operation_timeout config content ≡ ok t
      → IsLimit config content t
  unfolding resolve_operation_timeout
  resolve-IsLimit t e = go ((parse_file_annotations content).operation_timeout_ms) refl e
    where
      go :
          (raw : Option Text)
          → (parse_file_annotations content).operation_timeout_ms ≡ raw
          → elim raw [
            | some r ↦ timeout_of_annotation (parse_whole_number r)
            | none ↦ timeout_of_config (get_operation_timeout_ms config)
          ]
            ≡ ok t
          → IsLimit config content t
      go none h k = config-IsLimit config t refl k
      go (some r) h k =
          annotation-IsLimit (parse_whole_number r) t
            (ap (λ o. elim o [ none ↦ none | some x ↦ parse_whole_number x ]) h) k
