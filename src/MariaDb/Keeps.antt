-- ===== src/MariaDb/Keeps.antt =====
-- What an action does to one observation of the server's state, for the functions of the adapter
-- that are built from calls of the server by sequence, `try` and `catch`.
use db_migrate.Base.{◌≡◌, refl, ◌∙◌, Bool, true, false, if◌then◌else◌, subst}
use db_migrate.MariaDb.{Result, ok, err, Error, Exec, pure, ◌>>=◌, catch, resume, rescue}

module _ {W V : Type 0} (f : W → V) where
  -- The action leaves the observation, however it ends.
  abbrev pub Keeps : {A : Type 0} → Exec W A → Type 0
  Keeps m = (w : W) → f (m w).1 ≡ f w

  -- An action that succeeds changes the observation by `g`, one that fails leaves it.
  abbrev pub After : (V → V) → V → Result (Unit {0}) × W → Type 0
  After g b (ok a, w) = f w ≡ g b
  After g b (err e, w) = f w ≡ b

  abbrev pub Sets : (V → V) → Exec W (Unit {0}) → Type 0
  Sets g m = (w : W) → After g (f w) (m w)

  pub resume-Keeps :
      {A B : Type 0} (k : A → Exec W B) (b : V) (out : Result A × W)
      → f out.1 ≡ b
      → ((a : A) → Keeps (k a))
      → f (resume k out).1 ≡ b
  resume-Keeps k b (ok a, w) h hk = hk a w ∙ h
  resume-Keeps k b (err e, w) h hk = h

  pub >>=-Keeps :
      {A B : Type 0} (m : Exec W A) (k : A → Exec W B)
      → Keeps m
      → ((a : A) → Keeps (k a))
      → Keeps (m >>= k)
  >>=-Keeps m k h hk w = resume-Keeps k (f w) (m w) (h w) hk

  pub rescue-Keeps :
      {A : Type 0} (handler : Error → Exec W A) (b : V) (out : Result A × W)
      → f out.1 ≡ b
      → ((e : Error) → Keeps (handler e))
      → f (rescue handler out).1 ≡ b
  rescue-Keeps handler b (ok a, w) h hk = h
  rescue-Keeps handler b (err e, w) h hk = hk e w ∙ h

  pub catch-Keeps :
      {A : Type 0} (m : Exec W A) (handler : Error → Exec W A)
      → Keeps m
      → ((e : Error) → Keeps (handler e))
      → Keeps (catch m handler)
  catch-Keeps m handler h hk w = rescue-Keeps handler (f w) (m w) (h w) hk

  pub if-Keeps :
      {A : Type 0} (b : Bool) (m k : Exec W A) → Keeps m → Keeps k → Keeps (if b then m else k)
  if-Keeps true m k h hk = h
  if-Keeps false m k h hk = hk

  pub pure-Keeps : {A : Type 0} (a : A) → Keeps (pure a)
  pure-Keeps a w = refl

  pub resume-After :
      {A : Type 0} (g : V → V) (k : A → Exec W (Unit {0})) (b : V) (out : Result A × W)
      → f out.1 ≡ b
      → ((a : A) → Sets g (k a))
      → After g b (resume k out)
  resume-After g k b (ok a, w) h hk = subst (λ c. After g c (k a w)) h (hk a w)
  resume-After g k b (err e, w) h hk = h

  -- an action that leaves the observation, before one that changes it
  pub >>=-Sets :
      {A : Type 0} (g : V → V) (m : Exec W A) (k : A → Exec W (Unit {0}))
      → Keeps m
      → ((a : A) → Sets g (k a))
      → Sets g (m >>= k)
  >>=-Sets g m k h hk w = resume-After g k (f w) (m w) (h w) hk

  -- from what the two ways to end show
  pub After-intro :
      (g : V → V) (b : V) (out : Result (Unit {0}) × W)
      → ((w : W) → out ≡ (ok tt, w) → f w ≡ g b)
      → ((e : Error) (w : W) → out ≡ (err e, w) → f w ≡ b)
      → After g b out
  After-intro g b (ok tt, w) h k = h w refl
  After-intro g b (err e, w) h k = k e w refl
