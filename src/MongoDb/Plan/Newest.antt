-- ===== src/MongoDb/Plan/Newest.antt =====
-- mongodb-adapter.js, rollbackPlan: the order in which applied migrations are rolled back.
use db_migrate.MongoDb.Status.{AppliedFile, MongoStatus}
use db_migrate.MongoDb.Plan.{not_older, rank, name_of, newest_first, planned, plan}
use db_migrate.Base.{
  ℕ, ◌≤◌, ◌<◌, ◌≡◌, refl, ◌⊎◌, inl, inr, Bool, true, false, none, List, [], ◌∷◌, map, arith, ltb,
  Bool-cases, length, take, filter, All, Text, All-map, sort_by, Ordered, sort_by-count,
  sort_by-Ordered,
}

-- `b` was applied before `a`, or at the same time and comes no later in the directory.
abbrev pub NotOlder : List Text → AppliedFile → AppliedFile → Type 0
NotOlder files a b =
    (b.applied_at < a.applied_at) ⊎ ((a.applied_at ≡ b.applied_at) × (rank files b ≤ rank files a))

total :
    (files : List Text) (a b : AppliedFile)
    → not_older files a b ≡ false
    → not_older files b a ≡ true
unfolding not_older
total files a b h = ground arith

trans :
    (files : List Text) (a b c : AppliedFile)
    → not_older files a b ≡ true
    → not_older files b c ≡ true
    → not_older files a c ≡ true
unfolding not_older
trans files a b c h k = ground arith

-- each was applied no earlier than all behind it
abbrev pub Falling : List Text → List AppliedFile → Type 0
Falling files [] = Unit
Falling files (a ∷ rest) = All (NotOlder files a) rest × Falling files rest

not_older-true :
    (files : List Text) (a b : AppliedFile) → not_older files a b ≡ true → NotOlder files a b
unfolding not_older
not_older-true files a b h = elim (Bool-cases (ltb b.applied_at a.applied_at)) [
  | inl later ↦ inl (ground arith)
  | inr other ↦ inr (ground arith, ground arith)
]

Ordered-Falling :
    (files : List Text) (l : List AppliedFile) → Ordered (not_older files) l → Falling files l
Ordered-Falling files [] h = tt
Ordered-Falling files (a ∷ l) (h, k) =
    (All-map (λ b e. not_older-true files a b e) l h, Ordered-Falling files l k)

-- names picked from the applied files, newest first: the first `count` of an order of all of them
pub record PicksNewest (files : List Text) (applied : List AppliedFile) (count : ℕ)
    (picked : List Text) : Type 0 where
  pub order : List AppliedFile
  pub falling : Falling files order
  pub same : (p : AppliedFile → Bool) → length (filter p order) ≡ length (filter p applied)
  pub first : picked ≡ take count (map name_of order)

-- A rollback of a number of migrations picks that many from the front of an order of all applied
-- migrations, each as often as it is applied, in which none stands before one that was applied
-- later, or at the same time from a file further down the directory.
pub plan-PicksNewest :
    (count : ℕ) (files : List Text) (status : MongoStatus)
    → PicksNewest files status.applied count (plan count none files status).files
unfolding plan planned newest_first
plan-PicksNewest count files status = record {
  order = sort_by (not_older files) status.applied;
  falling =
      Ordered-Falling files _
        (sort_by-Ordered (not_older files) (total files) (trans files) status.applied);
  same = λ p. sort_by-count (not_older files) p status.applied;
  first = refl;
}
