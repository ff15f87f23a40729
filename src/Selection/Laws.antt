-- ===== src/Selection/Laws.antt =====
-- What selectPendingMigrations selects.
use db_migrate.Base.{
  ℕ, ◌+◌, ◌≡◌, sym, ap, ◌∙◌, ◌⊎◌, inl, inr, true, false, none, some, List, [], ◌∷◌, ◌++◌, arith,
  Option-cases, length, take, drop, any, find_index, All, Text, includes, find_index-some,
  find_index-none, take-length_append, drop-length_append, subst, find_index_of_any,
}
use db_migrate.Selection.{names, find_pending, select_pending_migrations}

-- The file that a name on the command line stands for: the first file of that name, with or
-- without its extension, or, if there is none, the first that has the name as a part.
abbrev pub Denotes : Text → List Text → Text → List Text → Type 0
Denotes needle before f rest =
    ((names needle f ≡ true) × All (λ g. names needle g ≡ false) before)
    ⊎ ((includes f needle ≡ true)
        × All (λ g. includes g needle ≡ false) before
        × All (λ g. names needle g ≡ false) (before ++ f ∷ rest))

pub record Found (needle : Text) (list : List Text) (i : ℕ) : Type 0 where
  pub before : List Text
  pub hit : Text
  pub after : List Text
  pub cut : list ≡ before ++ hit ∷ after
  pub position : length before ≡ i
  pub denotes : Denotes needle before hit after

find_pending-some :
    (list : List Text) (needle : Text) (i : ℕ)
    → find_pending list needle ≡ some i
    → Found needle list i
unfolding find_pending
find_pending-some list needle i e = elim (Option-cases (find_index (names needle) list)) [
  | inl missing ↦
      let r = find_index-some (λ f. includes f needle) list i (ground arith) in
      record {
        before = r.before;
        hit = r.hit;
        after = r.after;
        cut = r.cut;
        position = r.position;
        denotes = inr (
          r.passes,
          r.first,
          subst (All (λ g. names needle g ≡ false)) r.cut
              (find_index-none (names needle) list missing),
        );
      }
  | inr (k, exact) ↦
      let r = find_index-some (names needle) list k exact in
      record {
        before = r.before;
        hit = r.hit;
        after = r.after;
        cut = r.cut;
        position = ground (arith, r.position);
        denotes = inl (r.passes, r.first);
      }
]

find_pending_of_any :
    (list : List Text) (needle : Text)
    → any (λ f. includes f needle) list ≡ true
    → (i : ℕ) × (find_pending list needle ≡ some i)
unfolding find_pending
find_pending_of_any list needle h = elim (Option-cases (find_index (names needle) list)) [
  | inl missing ↦
      let (i, e) = find_index_of_any (λ f. includes f needle) list h in (i, ground (arith, e))
  | inr (k, exact) ↦ (k, ground arith)
]

take-Found :
    {needle : Text} {list : List Text} {i : ℕ} (r : Found needle list i)
    → take (i + 1) list ≡ r.before ++ r.hit ∷ []
take-Found {list} {i} r =
    ap (take (i + 1)) r.cut
    ∙ ap (λ k. take (k + 1) (r.before ++ r.hit ∷ r.after)) (sym r.position)
    ∙ take-length_append r.before r.hit r.after

drop-Found :
    {needle : Text} {list : List Text} {i : ℕ} (r : Found needle list i)
    → drop i list ≡ r.hit ∷ r.after
drop-Found {list} {i} r =
    ap (drop i) r.cut
    ∙ ap (λ k. drop k (r.before ++ r.hit ∷ r.after)) (sym r.position)
    ∙ drop-length_append r.before (r.hit ∷ r.after)

-- With --target alone, and a target that is a part of some pending file's name, the run executes
-- the pending files up to and including the one that the target denotes, in order: the first file
-- of that name, with or without extension, and else the first that has the target as a part.
pub select-target :
    (pending : List Text) (c : ℕ) (s : Text)
    → any (λ f. includes f (c ∷ s)) pending ≡ true
    → (before : List Text) × (f : Text) × (after : List Text) × (pending ≡ before ++ f ∷ after)
      × Denotes (c ∷ s) before f after
      × (select_pending_migrations pending (record { target = some (c ∷ s); only = none })
          ≡ record { selected = before ++ f ∷ []; error = none })
unfolding select_pending_migrations
select-target pending c s h =
    let (i, e) = find_pending_of_any pending (c ∷ s) h in
    let r = find_pending-some pending (c ∷ s) i e in
    (r.before, r.hit, r.after, r.cut, r.denotes, ground (arith, e, take-Found r))

-- With --only alone, and a text that is a part of some pending file's name, the run executes the one
-- file that it denotes: the first file of that name, with or without extension, and else the first
-- that has the text as a part.
pub select-only :
    (pending : List Text) (c : ℕ) (s : Text)
    → any (λ f. includes f (c ∷ s)) pending ≡ true
    → (before : List Text) × (f : Text) × (after : List Text) × (pending ≡ before ++ f ∷ after)
      × Denotes (c ∷ s) before f after
      × (select_pending_migrations pending (record { target = none; only = some (c ∷ s) })
          ≡ record { selected = f ∷ []; error = none })
unfolding select_pending_migrations
select-only pending c s h =
    let (i, e) = find_pending_of_any pending (c ∷ s) h in
    let r = find_pending-some pending (c ∷ s) i e in
    (r.before, r.hit, r.after, r.cut, r.denotes, ground (arith, e, drop-Found r))
