-- ===== src/SchemaDiff/Empty.antt =====
-- schema-diff.js: what an empty diff says.
use db_migrate.SchemaDiff.Maps.{new_map, get, has, Match, maps-Match}
use db_migrate.SchemaDiff.{
  Field, Container, field_name, container_name, is_different, text_differs, bool_differs,
  place_field, scan_fields, diff_fields, no_fields, place_container, scan_containers,
  diff_schema_snapshots, is_diff_empty,
}
use db_migrate.Base.{
  ◌≡◌, refl, ap, inl, inr, Bool, true, false, not, ◌&&◌, Option, none, some, List, [], ◌∷◌, arith,
  ◌==◌, Bool-cases, and-true, length, filter, All, Text, text_eq_iff,
}

-- a list whose elements all fail a test
filter-nil :
    {A : Type 0} (p : A → Bool) (xs : List A)
    → filter (λ x. not (p x)) xs ≡ []
    → All (λ x. p x ≡ true) xs
filter-nil p [] e = tt
filter-nil p (x ∷ xs) e = elim (Bool-cases (p x)) [
  | inl passes ↦ (passes, filter-nil p xs (ground (arith, e)))
  | inr fails ↦ absurd (ground (arith, e))
]

-- the same type, nullability and key, a property being absent in both or the same
pub record SameField (before after : Field) : Type 0 where
  pub type : before.type ≡ after.type
  pub nullable : before.nullable ≡ after.nullable
  pub key : before.key ≡ after.key

text-same : (s t : Option Text) → text_differs s t ≡ false → s ≡ t
unfolding text_differs
text-same none none e = refl
text-same none (some t) e = absurd (cc)
text-same (some s) none e = absurd (cc)
text-same (some s) (some t) e = ap some ((text_eq_iff s t).0 (ground (arith, e)))

bool-same : (a b : Option Bool) → bool_differs a b ≡ false → a ≡ b
unfolding bool_differs
bool-same none none e = refl
bool-same none (some b) e = absurd (cc)
bool-same (some true) none e = absurd (cc)
bool-same (some false) none e = absurd (cc)
bool-same (some true) (some true) e = refl
bool-same (some false) (some false) e = refl
bool-same (some true) (some false) e = absurd (cc)
bool-same (some false) (some true) e = absurd (cc)

not_different-SameField :
    (before after : Field) → is_different before after ≡ false → SameField before after
unfolding is_different
not_different-SameField before after e = record {
  type = text-same before.type after.type (ground (arith, e));
  nullable = bool-same before.nullable after.nullable (ground (arith, e));
  key = text-same before.key after.key (ground (arith, e));
}

-- Under every name, both lists have a field and the two agree, or neither has one.
abbrev pub SameFields : List Field → List Field → Type 0
SameFields before after =
    (name : Text)
    → Match field_name SameField (get field_name name (new_map field_name before))
        (get field_name name (new_map field_name after))

abbrev pub SameContainer : Container → Container → Type 0
SameContainer before after = SameFields before.fields after.fields

scan_fields-nil :
    (before fs : List Field)
    → (scan_fields before fs).added_fields ≡ []
    → (scan_fields before fs).changed_fields ≡ []
    → All (λ f. (b : Field) × (get field_name f.name before ≡ some b) × SameField b f) fs
unfolding scan_fields place_field
scan_fields-nil before [] added changed = tt
scan_fields-nil before (f ∷ fs) added changed =
    go (scan_fields-nil before fs) (get field_name f.name before) refl added changed
  where
    go :
        ((scan_fields before fs).added_fields ≡ []
          → (scan_fields before fs).changed_fields ≡ []
          → All (λ f. (b : Field) × (get field_name f.name before ≡ some b) × SameField b f) fs)
        → (o : Option Field) → get field_name f.name before ≡ o
        → (place_field f o (scan_fields before fs)).added_fields ≡ []
        → (place_field f o (scan_fields before fs)).changed_fields ≡ []
        → ((b : Field) × (get field_name f.name before ≡ some b) × SameField b f)
          × All (λ f. (b : Field) × (get field_name f.name before ≡ some b) × SameField b f) fs
    go ih none e added changed = absurd (cc)
    go ih (some b) e added changed = elim (Bool-cases (is_different b f)) [
      | inl differs ↦ absurd (ground (arith, changed))
      | inr same ↦ (
        (b, e, not_different-SameField b f same),
        ih (ground (arith, added)) (ground (arith, changed)),
      )
    ]

length-zero : {A : Type 0} (xs : List A) → (length xs == 0) ≡ true → xs ≡ []
length-zero [] e = refl
length-zero (x ∷ xs) e = absurd (ground (arith, e))

all-zero :
    {A B C : Type 0} (xs : List A) (bs : List B) (cs : List C)
    → (length xs == 0 && length bs == 0 && length cs == 0) ≡ true
    → (xs ≡ []) × (bs ≡ []) × (cs ≡ [])
all-zero xs bs cs e =
    let (ab, c) = and-true (length xs == 0 && length bs == 0) (length cs == 0) e in
    let (a, b) = and-true (length xs == 0) (length bs == 0) ab in
    (length-zero xs a, length-zero bs b, length-zero cs c)

pub diff_fields-Same :
    (before after : List Field)
    → no_fields (diff_fields before after) ≡ true
    → SameFields before after
unfolding diff_fields no_fields
diff_fields-Same before after e =
    let b = new_map field_name before in
    let a = new_map field_name after in
    let d = scan_fields b a in
    let (added, removed, changed) =
      all-zero d.added_fields (filter (λ f. not (has field_name f.name a)) b) d.changed_fields e in
    maps-Match field_name SameField b a (scan_fields-nil b a added changed)
      (filter-nil (λ f. has field_name f.name a) b removed)

scan_containers-nil :
    (before cs : List Container)
    → (scan_containers before cs).added ≡ []
    → (scan_containers before cs).changed ≡ []
    → All
        (λ c. (b : Container) × (get container_name c.name before ≡ some b) × SameContainer b c)
        cs
unfolding scan_containers place_container
scan_containers-nil before [] added changed = tt
scan_containers-nil before (c ∷ cs) added changed =
    go (scan_containers-nil before cs) (get container_name c.name before) refl added changed
  where
    go :
        ((scan_containers before cs).added ≡ []
          → (scan_containers before cs).changed ≡ []
          → All
              (λ c.
                (b : Container) × (get container_name c.name before ≡ some b) × SameContainer b c)
              cs)
        → (o : Option Container) → get container_name c.name before ≡ o
        → (place_container c o (scan_containers before cs)).added ≡ []
        → (place_container c o (scan_containers before cs)).changed ≡ []
        → ((b : Container) × (get container_name c.name before ≡ some b) × SameContainer b c)
          × All
              (λ c.
                (b : Container) × (get container_name c.name before ≡ some b) × SameContainer b c)
              cs
    go ih none e added changed = absurd (cc)
    go ih (some b) e added changed = elim (Bool-cases (no_fields (diff_fields b.fields c.fields))) [
      | inl same ↦ (
        (b, e, diff_fields-Same b.fields c.fields same),
        ih (ground (arith, added)) (ground (arith, changed)),
      )
      | inr differs ↦ absurd (ground (arith, changed))
    ]

-- If the diff of two snapshots is empty, they have the same containers by name, and under every name
-- two containers with the same fields by name, which have the same type, nullability and key.
pub is_diff_empty-SameContainer :
    (before after : List Container)
    → is_diff_empty (diff_schema_snapshots before after) ≡ true
    → (name : Text)
    → Match container_name SameContainer
        (get container_name name (new_map container_name before))
        (get container_name name (new_map container_name after))
unfolding is_diff_empty diff_schema_snapshots
is_diff_empty-SameContainer before after e =
    let b = new_map container_name before in
    let a = new_map container_name after in
    let d = scan_containers b a in
    let (added, removed, changed) =
      all-zero d.added (filter (λ c. not (has container_name c.name a)) b) d.changed e in
    maps-Match container_name SameContainer b a (scan_containers-nil b a added changed)
      (filter-nil (λ c. has container_name c.name a) b removed)
