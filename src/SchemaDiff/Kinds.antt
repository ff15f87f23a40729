-- ===== src/SchemaDiff/Kinds.antt =====
-- schema-diff.js: which containers are new, changed and unchanged.
use db_migrate.SchemaDiff.Maps.{new_map, get, has, Match, new_map-own}
use db_migrate.SchemaDiff.{
  Field, Container, ContainerChange, SchemaDiff, field_name, container_name, is_different,
  text_differs, bool_differs, place_field, scan_fields, diff_fields, no_fields, place_container,
  scan_containers, diff_schema_snapshots,
}
use db_migrate.SchemaDiff.Empty.{SameField, SameFields, diff_fields-Same}
use db_migrate.Base.{
  ℕ, ◌+◌, ◌≡◌, refl, sym, ap, ◌∙◌, inl, inr, Bool, true, false, not, Option, none, some, List, [],
  ◌∷◌, arith, Bool-cases, is_some, filter, All, Text, text_eq_refl, subst, All-map,
}

-- The containers of the second snapshot, one after the other, and what the diff makes of each: new,
-- if the first has none of that name; counted as unchanged, if it has one with the same fields;
-- otherwise changed, with the diff of the fields.
pub data Kinds (before : List Container)
    : List Container → List Container → List ContainerChange → ℕ → Type 0 where
  nothing : Kinds before [] [] [] 0
  new :
      (c : Container) (cs added : List Container) (changed : List ContainerChange) (unchanged : ℕ)
      → get container_name c.name before ≡ none
      → Kinds before cs added changed unchanged
      → Kinds before (c ∷ cs) (c ∷ added) changed unchanged
  same :
      (b c : Container) (cs added : List Container) (changed : List ContainerChange) (unchanged : ℕ)
      → get container_name c.name before ≡ some b
      → SameFields b.fields c.fields
      → Kinds before cs added changed unchanged
      → Kinds before (c ∷ cs) added changed (unchanged + 1)
  differs :
      (b c : Container) (cs added : List Container) (changed : List ContainerChange) (unchanged : ℕ)
      → get container_name c.name before ≡ some b
      → (SameFields b.fields c.fields → ⊥)
      → Kinds before cs added changed unchanged
      → Kinds before
          (c ∷ cs)
          added
          (record { name = c.name; diff = diff_fields b.fields c.fields } ∷ changed)
          unchanged

text-agrees : (s : Option Text) → text_differs s s ≡ false
unfolding text_differs
text-agrees none = refl
text-agrees (some s) = rw (text_eq_refl s) refl

bool-agrees : (b : Option Bool) → bool_differs b b ≡ false
unfolding bool_differs
bool-agrees none = refl
bool-agrees (some true) = refl
bool-agrees (some false) = refl

SameField-agrees : (b f : Field) → SameField b f → is_different b f ≡ false
unfolding is_different
SameField-agrees b f h =
    let t = ap (text_differs b.type) (sym h.type) ∙ text-agrees b.type in
    let n = ap (bool_differs b.nullable) (sym h.nullable) ∙ bool-agrees b.nullable in
    let k = ap (text_differs b.key) (sym h.key) ∙ text-agrees b.key in ground (arith, t, n, k)

abbrev Kept : List Field → Field → Type 0
Kept before f = (b : Field) × (get field_name f.name before ≡ some b) × SameField b f

scan_fields-Kept :
    (before fs : List Field)
    → All (Kept before) fs
    → scan_fields before fs ≡ record { added_fields = []; removed_fields = []; changed_fields = [] }
unfolding scan_fields place_field
scan_fields-Kept before [] h = refl
scan_fields-Kept before (f ∷ fs) ((b, e, agrees), h) =
    let ih = scan_fields-Kept before fs h in rw (e, SameField-agrees b f agrees) ih

-- from what two maps have under the name of an entry
Kept-of :
    (before : List Field) (f : Field) (o : Option Field)
    → get field_name f.name before ≡ o
    → Match field_name SameField o (some f)
    → Kept before f
Kept-of before f none e m = absurd (cc)
Kept-of before f (some b) e m = (b, e, m)

has-of : (f : Field) (o : Option Field) → Match field_name SameField (some f) o → is_some o ≡ true
has-of f none m = absurd (cc)
has-of f (some a) m = refl

filter-none :
    {A : Type 0} (p : A → Bool) (xs : List A)
    → All (λ x. p x ≡ true) xs
    → filter (λ x. not (p x)) xs ≡ []
filter-none p [] h = refl
filter-none p (x ∷ xs) (e, h) = rw e (filter-none p xs h)

Same-no_fields :
    (before after : List Field)
    → SameFields before after
    → no_fields (diff_fields before after) ≡ true
unfolding no_fields diff_fields has
Same-no_fields before after h =
    let b = new_map field_name before in
    let a = new_map field_name after in
    let kept =
      All-map
        (λ f own.
          Kept-of b f (get field_name f.name b) refl
            (subst (λ o. Match field_name SameField (get field_name f.name b) o) own (h f.name)))
        a (new_map-own field_name after) in
    let there =
      All-map
        (λ f own.
          has-of f (get field_name f.name a)
            (subst (λ o. Match field_name SameField o (get field_name f.name a)) own (h f.name)))
        b (new_map-own field_name before) in
    rw (scan_fields-Kept b a kept, filter-none (λ f. has field_name f.name a) b there) refl

scan_containers-Kinds :
    (before cs : List Container)
    → Kinds before cs
        (scan_containers before cs).added
        (scan_containers before cs).changed
        (scan_containers before cs).unchanged_count
unfolding scan_containers place_container
scan_containers-Kinds before [] = nothing
scan_containers-Kinds before (c ∷ cs) =
    go (get container_name c.name before) refl (scan_containers-Kinds before cs)
  where
    d : SchemaDiff
    d = scan_containers before cs

    go :
        (o : Option Container)
        → get container_name c.name before ≡ o
        → Kinds before cs d.added d.changed d.unchanged_count
        → Kinds before
            (c ∷ cs)
            (place_container c o d).added
            (place_container c o d).changed
            (place_container c o d).unchanged_count
    go none e ih = new c cs d.added d.changed d.unchanged_count e ih
    go (some b) e ih = elim (Bool-cases (no_fields (diff_fields b.fields c.fields))) [
      | inl empty ↦ rw empty (
          same b c cs d.added d.changed d.unchanged_count e
            (diff_fields-Same b.fields c.fields empty) ih)
      | inr full ↦ rw full (
          differs b c cs d.added d.changed d.unchanged_count e
            (λ h. let empty = Same-no_fields b.fields c.fields h in cc) ih)
    ]

-- For every two snapshots, a container of the second is listed as new exactly if the first has none
-- of its name, is counted as unchanged exactly if the first has one with the same fields, of the same
-- types, nullabilities and keys, and is otherwise listed as changed, with the diff of its fields, all
-- in the order of the second; and those of the first whose names the second does not have are listed
-- as removed.
pub diff_schema_snapshots-Kinds :
    (before after : List Container)
    → Kinds
        (new_map container_name before)
        (new_map container_name after)
        (diff_schema_snapshots before after).added
        (diff_schema_snapshots before after).changed
        (diff_schema_snapshots before after).unchanged_count
      × ((diff_schema_snapshots before after).removed
          ≡ filter
              (λ c. not (is_some (get container_name c.name (new_map container_name after))))
              (new_map container_name before))
unfolding diff_schema_snapshots has
diff_schema_snapshots-Kinds before after =
    (scan_containers-Kinds (new_map container_name before) (new_map container_name after), refl)
