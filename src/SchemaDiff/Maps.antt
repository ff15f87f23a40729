-- ===== src/SchemaDiff/Maps.antt =====
-- `new Map(list.map(x => [key(x), x]))`, its `get` and `has`.
use db_migrate.Base.{
  ◌≡◌, refl, sym, ap, ◌∙◌, inl, inr, Bool, true, false, Option, none, some, List, [], ◌∷◌, arith,
  if◌then◌else◌, Bool-cases, is_some, All, Text, text_eq, text_eq_iff, text_eq_refl, subst, All-map,
}

module _ {A : Type 0} (key : A → Text) where
  -- `set`: an entry of that key keeps its place
  set : A → List A → List A
  set a [] = a ∷ []
  set a (b ∷ m) = if text_eq (key b) (key a) then a ∷ m else b ∷ set a m

  set_all : List A → List A → List A
  unfolding set
  set_all m [] = m
  set_all m (x ∷ xs) = set_all (set x m) xs

  unfoldable pub new_map : List A → List A
  unfolding set_all
  new_map xs = set_all [] xs

  unfoldable pub get : Text → List A → Option A
  get name [] = none
  get name (a ∷ m) = if text_eq (key a) name then some a else get name m

  unfoldable pub has : Text → List A → Bool
  has name m = is_some (get name m)

  -- What a map gives under a name has that name, and what all entries have.
  pub get-All :
      (P : A → Type 0) (m : List A) (name : Text) (a : A)
      → All P m
      → get name m ≡ some a
      → P a × (key a ≡ name)
  unfolding get
  get-All P [] name a h e = absurd (cc)
  get-All P (b ∷ m) name a h e = elim (Bool-cases (text_eq (key b) name)) [
    | inl found ↦
        let hit : some b ≡ some a = ground (arith, e) in
        let same : b ≡ a = cc in
        (subst P same h.0, ap key (sym same) ∙ (text_eq_iff (key b) name).0 found)
    | inr other ↦ get-All P m name a h.1 (ground arith)
  ]

  -- What two maps have under a name: nothing, or two entries that agree.
  abbrev pub Match : (A → A → Type 0) → Option A → Option A → Type 0
  Match Good none none = Unit
  Match Good (some b) (some a) = Good b a
  Match Good _ _ = true ≡ false

  pub maps-Match :
      (Good : A → A → Type 0) (before after : List A)
      → All (λ a. (b : A) × (get (key a) before ≡ some b) × Good b a) after
      → All (λ b. has (key b) after ≡ true) before
      → (name : Text) → Match Good (get name before) (get name after)
  unfolding has
  maps-Match Good before after found kept name = go (get name before) (get name after) refl refl
    where
      go : (b a : Option A) → get name before ≡ b → get name after ≡ a → Match Good b a
      go none none e e' = tt
      go (some b) (some a) e e' =
          let ((c, at_key, good), named) = get-All _ after name a found e' in
          let hit : some c ≡ some b = sym at_key ∙ ap (λ n. get n before) named ∙ e in
          let same : c ≡ b = cc in subst (λ x. Good x a) same good
      go none (some a) e e' =
          let ((c, at_key, _), named) = get-All _ after name a found e' in
          let hit : some c ≡ none = sym at_key ∙ ap (λ n. get n before) named ∙ e in absurd (cc)
      go (some b) none e e' =
          let (there, named) = get-All _ before name b kept e in
          sym there ∙ ap (λ n. has n after) named ∙ ap is_some e'

  -- Every key stands once.
  Distinct : List A → Type 0
  Distinct [] = Unit
  Distinct (a ∷ m) = (get (key a) m ≡ none) × Distinct m

  get-set-none :
      (a : A) (m : List A) (name : Text)
      → text_eq (key a) name ≡ false
      → get name m ≡ none
      → get name (set a m) ≡ none
  unfolding get set
  get-set-none a [] name other e = rw other refl
  get-set-none a (b ∷ m) name other e = elim (Bool-cases (text_eq (key b) (key a))) [
    | inl same ↦
        let same_key = ap (λ k. text_eq k name) ((text_eq_iff (key b) (key a)).0 same) ∙ other in
        ground (arith, e, other, same, same_key)
    | inr differs ↦ elim (Bool-cases (text_eq (key b) name)) [
      | inl hit ↦ absurd (ground (arith, e, hit))
      | inr miss ↦
          let later = get-set-none a m name other (ground (arith, e, miss)) in
          ground (arith, differs, miss, later)
    ]
  ]

  flip_apart : (s t : Text) → text_eq s t ≡ false → text_eq t s ≡ false
  flip_apart s t e = elim (Bool-cases (text_eq t s)) [
    | inl same ↦
        let back : text_eq s t ≡ true = (text_eq_iff s t).1 (sym ((text_eq_iff t s).0 same)) in
        absurd (cc)
    | inr other ↦ other
  ]

  set-Distinct : (a : A) (m : List A) → Distinct m → Distinct (set a m)
  unfolding set Distinct
  set-Distinct a [] h = (unfold get in refl, tt)
  set-Distinct a (b ∷ m) (once, h) = elim (Bool-cases (text_eq (key b) (key a))) [
    | inl same ↦ rw same (ap (λ n. get n m) (sym ((text_eq_iff (key b) (key a)).0 same)) ∙ once, h)
    | inr differs ↦
        rw differs
          (get-set-none a m (key b) (flip_apart (key b) (key a) differs) once, set-Distinct a m h)
  ]

  set_all-Distinct : (m xs : List A) → Distinct m → Distinct (set_all m xs)
  unfolding set_all
  set_all-Distinct m [] h = h
  set_all-Distinct m (x ∷ xs) h = set_all-Distinct (set x m) xs (set-Distinct x m h)

  Distinct-own : (m : List A) → Distinct m → All (λ a. get (key a) m ≡ some a) m
  unfolding Distinct get
  Distinct-own [] h = tt
  Distinct-own (a ∷ m) (once, h) = (
    rw (text_eq_refl (key a)) refl,
    All-map
        (λ x own. elim (Bool-cases (text_eq (key a) (key x))) [
          | inl same ↦
              let gone : get (key x) m ≡ none =
                ap (λ n. get n m) (sym ((text_eq_iff (key a) (key x)).0 same)) ∙ once in
              absurd (cc)
          | inr other ↦ rw other own
        ])
        m (Distinct-own m h),
  )

  -- What a map has under the key of an entry is that entry.
  pub new_map-own : (xs : List A) → All (λ a. get (key a) (new_map xs) ≡ some a) (new_map xs)
  unfolding new_map Distinct
  new_map-own xs = Distinct-own (set_all [] xs) (set_all-Distinct [] xs tt)
