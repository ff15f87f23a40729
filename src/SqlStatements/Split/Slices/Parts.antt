-- ===== src/SqlStatements/Split/Slices/Parts.antt =====
-- sql-statements.js: parts of a script that stand in it one behind the other.
use mathlib.Core.List.{reverse-append, reverse-reverse}
use db_migrate.SqlStatements.{Scan, slice, add_statement}
use db_migrate.Base.{
  ℕ, zero, suc, ◌-◌, ◌≤◌, ◌≡◌, refl, sym, ap, ◌∙◌, ◌≢◌, inl, inr, none, List, [], ◌∷◌, ◌++◌,
  append_assoc, arith, Bool-cases, length, get_elem?, take, Text, is_space, trim_start, trim,
  reverse, subst,
}

-- The non-empty texts stand in `x` one behind the other, with any text before, between and behind.
abbrev pub Spells : List Text → Text → Type 0
Spells [] x = Unit
Spells (t ∷ ts) x =
    (t ≢ []) × ((gap : Text) × (rest : Text) × (x ≡ gap ++ (t ++ rest)) × Spells ts rest)

Spells-append : (ts : List Text) (x y : Text) → Spells ts x → Spells ts (x ++ y)
Spells-append [] x y h = tt
Spells-append (t ∷ ts) x y (ne, (gap, rest, e, h)) =
    (ne, (gap, rest ++ y, rw (e, append_assoc, append_assoc) refl, Spells-append ts rest y h))

Spells-snoc :
    (ts : List Text) (t x gap rest : Text)
    → t ≢ []
    → Spells ts x
    → Spells (ts ++ t ∷ []) (x ++ (gap ++ (t ++ rest)))
Spells-snoc [] t x gap rest ne h = (ne, (x ++ gap, rest, sym (append_assoc x gap (t ++ rest)), tt))
Spells-snoc (u ∷ ts) t x gap rest ne (ne', (g, r, e, h)) = (
  ne',
  (
    g,
    r ++ (gap ++ (t ++ rest)),
    rw (e, append_assoc, append_assoc) refl,
    Spells-snoc ts t r gap rest ne h,
  ),
)

take-le : (m n : ℕ) (x : Text) → m ≤ n → (y : Text) × (take n x ≡ take m x ++ y)
take-le zero n x h = (take n x, refl)
take-le (suc m) zero x h = absurd (omega arith)
take-le (suc m) (suc n) [] h = ([], refl)
take-le (suc m) (suc n) (c ∷ x) h =
    let (y, e) = take-le m n x (omega arith) in (y, ap (λ z. c ∷ z) e)

pub Spells-take :
    (ts : List Text) (m n : ℕ) (x : Text) → m ≤ n → Spells ts (take m x) → Spells ts (take n x)
Spells-take ts m n x h k =
    let (y, e) = take-le m n x h in subst (Spells ts) (sym e) (Spells-append ts (take m x) y k)

trim_start-suffix : (s : Text) → (g : Text) × (s ≡ g ++ trim_start s)
unfolding trim_start
trim_start-suffix [] = ([], refl)
trim_start-suffix (c ∷ s) = elim (Bool-cases (is_space c)) [
  | inl e ↦ let (g, h) = trim_start-suffix s in (c ∷ g, rw e (ap (λ r. c ∷ r) h))
  | inr e ↦ ([], rw e)
]

pub trim-part : (s : Text) → (g : Text) × (r : Text) × (s ≡ g ++ (trim s ++ r))
unfolding trim
trim-part s =
    let (g, e) = trim_start-suffix s in
    let (h, e') = trim_start-suffix (reverse (trim_start s)) in
    (g, reverse h, e ∙ ap (λ y. g ++ y) (body h e'))
  where
    body :
        (h : Text)
        → reverse (trim_start s) ≡ h ++ trim_start (reverse (trim_start s))
        → trim_start s ≡ trim s ++ reverse h
    body h e' = sym (reverse-reverse (trim_start s)) ∙ ap reverse e' ∙ reverse-append h _

take-nil : (n : ℕ) → take {A = ℕ} n [] ≡ []
take-nil zero = refl
take-nil (suc n) = refl

sub-zero : (i : ℕ) → i - 0 ≡ i
sub-zero i = omega arith

suc-sub-suc : (k i : ℕ) → suc i - suc k ≡ i - k
suc-sub-suc k i = omega arith

take-slice : (k i : ℕ) (sql : Text) → k ≤ i → take i sql ≡ take k sql ++ slice sql k i
take-slice zero i sql h = rw (sub-zero i)
take-slice (suc k) zero sql h = absurd (omega arith)
take-slice (suc k) (suc i) [] h = sym (take-nil (suc i - suc k))
take-slice (suc k) (suc i) (c ∷ sql) h =
    rw (suc-sub-suc k i) (ap (λ z. c ∷ z) (take-slice k i sql (omega arith)))

pub Spells-add :
    (sql text : Text) (k i : ℕ) (s : Scan)
    → k ≤ i
    → Spells s.statements (take k sql)
    → (g : Text) (r : Text) → slice sql k i ≡ g ++ (text ++ r)
    → Spells (add_statement text s).statements (take i sql)
Spells-add sql [] k i s h sp g r e = Spells-take s.statements k i sql h sp
Spells-add sql (c ∷ text) k i s h sp g r e =
    rw (take-slice k i sql h, e) (Spells-snoc s.statements (c ∷ text) (take k sql) g r (cc) sp)

pub take-all : (n : ℕ) (x : Text) → length x ≤ n → take n x ≡ x
take-all zero [] h = refl
take-all zero (c ∷ x) h = absurd (omega arith)
take-all (suc n) [] h = refl
take-all (suc n) (c ∷ x) h = ap (λ r. c ∷ r) (take-all n x (omega arith))

pub length-le_of_none : (x : Text) (i : ℕ) → get_elem? x i ≡ none → length x ≤ i
length-le_of_none [] i h = omega arith
length-le_of_none (c ∷ x) zero h = cc
length-le_of_none (c ∷ x) (suc i) h = omega (arith, length-le_of_none x i h)

pub slice-nil : (sql : Text) (k n : ℕ) → n ≤ k → slice sql k n ≡ []
slice-nil sql k n h = let e : n - k ≡ 0 = omega arith in rw e
