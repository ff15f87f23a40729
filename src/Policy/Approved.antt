-- ===== src/Policy/Approved.antt =====
-- base-adapter.js, applyApproval: no forbidden operation passes without a name.
use db_migrate.Policy.{
  Item, Findings, Approval, is_released, approve, approver_required, release, release_any,
  apply_approval,
}
use db_migrate.Base.{
  ℕ, ◌+◌, ◌≡◌, refl, ap, inl, inr, Bool, true, false, not, Option, some, List, [], ◌∷◌, map, arith,
  if◌then◌else◌, Bool-cases, or_default, length, filter, length-append, All, Text, trim, subst,
  length-map,
}

-- A warning that a forbidden operation was released has an approver, whose name is not empty.
abbrev pub IsApproved : Item → Type 0
IsApproved w = is_released w ≡ true → (c : ℕ) × (s : Text) × (w.approved_by ≡ some (c ∷ s))

none_released : (ws : List Item) → filter is_released ws ≡ [] → All IsApproved ws
none_released [] e = tt
none_released (w ∷ ws) e = elim (Bool-cases (is_released w)) [
  | inl is ↦ absurd (ground (arith, e))
  | inr other ↦ ((λ is. absurd (cc)), none_released ws (ground (arith, e)))
]

approve-Approved : (c : ℕ) (s : Text) (w : Item) → IsApproved (approve (c ∷ s) w)
approve-Approved c s w = go (is_released w) refl
  where
    go :
        (b : Bool)
        → is_released w ≡ b
        → IsApproved (if b then record w { approved_by = some (c ∷ s) } else w)
    go true e = λ is. (c, s, refl)
    go false e = λ is. absurd (cc)

map-Approved : (c : ℕ) (s : Text) (ws : List Item) → All IsApproved (map (approve (c ∷ s)) ws)
map-Approved c s [] = tt
map-Approved c s (w ∷ ws) = (approve-Approved c s w, map-Approved c s ws)

unreleased-Approved : (ws : List Item) → All IsApproved (filter (λ w. not (is_released w)) ws)
unreleased-Approved [] = tt
unreleased-Approved (w ∷ ws) = go (unreleased-Approved ws) (is_released w) refl
  where
    go :
        All IsApproved (filter (λ w. not (is_released w)) ws)
        → (b : Bool) → is_released w ≡ b
        → All IsApproved (
            if not b
            then w ∷ filter (λ w. not (is_released w)) ws
            else filter (λ w. not (is_released w)) ws)
    go rest true e = rest
    go rest false e = ((λ is. absurd (cc)), rest)

abbrev releases : List Item → ℕ
releases ws = length (filter is_released ws)

releases-approve :
    (c : ℕ) (s : Text) (ws : List Item) → releases (map (approve (c ∷ s)) ws) ≡ releases ws
unfolding is_released
releases-approve c s [] = refl
releases-approve c s (w ∷ ws) = ground (arith, releases-approve c s ws)

releases-unreleased : (ws : List Item) → releases (filter (λ w. not (is_released w)) ws) ≡ 0
releases-unreleased [] = refl
releases-unreleased (w ∷ ws) = ground (arith, releases-unreleased ws)

-- How an outcome of applyApproval relates to the findings: every release that is left is approved,
-- and no forbidden operation is lost.
abbrev pub Checked : Findings → Findings × Option Approval → Type 0
Checked f out =
    All IsApproved out.0.warnings
    × (length out.0.forbidden_ops + releases out.0.warnings
        ≡ length f.forbidden_ops + releases f.warnings)

release-Checked :
    (name : Text) (f : Findings) → Checked f (release true name (filter is_released f.warnings) f)
unfolding release
release-Checked [] f = (
  unreleased-Approved f.warnings,
  omega (
    arith,
    length-append f.forbidden_ops (map approver_required (filter is_released f.warnings)),
    length-map approver_required (filter is_released f.warnings),
    releases-unreleased f.warnings,
  ),
)
release-Checked (c ∷ name) f = (
  map-Approved c name f.warnings,
  ap (λ n. length f.forbidden_ops + n) (releases-approve c name f.warnings),
)

release_any-Checked :
    (name : Text) (f : Findings)
    → Checked f (release_any true name (filter is_released f.warnings) f)
unfolding release_any
release_any-Checked name f = go (filter is_released f.warnings) refl (release-Checked name f)
  where
    go :
        (released : List Item)
        → filter is_released f.warnings ≡ released
        → Checked f (release true name (filter is_released f.warnings) f)
        → Checked f (release_any true name released f)
    go [] e h = (none_released f.warnings e, refl)
    go (w ∷ released) e h = subst (λ l. Checked f (release true name l f)) e h

-- With validation.requireApprover on, whoever is named as approver: each warning that a forbidden
-- operation was released carries an approver whose name is not empty, and the releases that remain
-- and the forbidden operations are together as many as before, so a release without an approver
-- has become a forbidden operation.
pub apply_approval-Checked :
    (approved_by : Option Text) (f : Findings) → Checked f (apply_approval true approved_by f)
unfolding apply_approval
apply_approval-Checked approved_by f = release_any-Checked (trim (or_default approved_by [])) f
