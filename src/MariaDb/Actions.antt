-- ===== src/MariaDb/Actions.antt =====
-- How the actions over the server end.
use db_migrate.Base.{◌≡◌, refl}
use db_migrate.MariaDb.{Error, Result, ok, err, Exec, ◌>>=◌, resume}

resume-eq-ok :
    {W A B : Type 0} (f : A → Exec W B) (out : Result A × W) (b : B) (w' : W)
    → resume f out ≡ (ok b, w')
    → (a : A) × (v : W) × (out ≡ (ok a, v)) × (f a v ≡ (ok b, w'))
resume-eq-ok f (ok a, v) b w' e = (a, v, refl, e)
resume-eq-ok f (err x, v) b w' e = absurd (cc)

-- A sequence succeeds only if both of its parts do.
pub >>=-eq-ok :
    {W A B : Type 0} (m : Exec W A) (f : A → Exec W B) (w : W) (b : B) (w' : W)
    → (m >>= f) w ≡ (ok b, w')
    → (a : A) × (v : W) × (m w ≡ (ok a, v)) × (f a v ≡ (ok b, w'))
>>=-eq-ok m f w b w' e = resume-eq-ok f (m w) b w' e

-- How an action ended.
pub data Ended {W A : Type 0} (m : Result A × W) : Type 0 where
  returned : (a : A) (w : W) → m ≡ (ok a, w) → Ended m
  threw : (e : Error) (w : W) → m ≡ (err e, w) → Ended m

pub ended : {W A : Type 0} (m : Result A × W) → Ended m
ended (ok a, w) = returned a w refl
ended (err e, w) = threw e w refl
