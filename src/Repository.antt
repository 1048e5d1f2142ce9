-- ===== src/Repository.antt =====
-- internal/repository/errors.go: what a repository operation returns. The two sentinel errors are what
-- callers test by errors.Is; any other failure carries its text.
pub mod Filters
use log_integrity.Prelude.{◌≡◌, refl, Bool, true, false, Text}

pub data Error : Type 0 where
  not_found conflict : Error
  failed : Text → Error

pub data Result (A : Type 0) : Type 0 where
  ok : A → Result A
  err : Error → Result A

infixl 5 ◌>>=◌ ◌>>◌
abbrev pub ◌>>=◌ : {A B : Type 0} → Result A → (A → Result B) → Result B
ok a >>= f = f a
err e >>= f = err e

abbrev pub ◌>>◌ : {B : Type 0} → Result (Unit {0}) → Result B → Result B
m >> k = m >>= λ _. k

-- An early return with an error if the test holds.
abbrev pub fail_if : Bool → Error → Result (Unit {0})
fail_if true e = err e
fail_if false e = ok tt

-- A property of a step on a result from the property of each of its cases.
pub Result-elim {κ} :
    {A B : Type 0} (P : B → Type κ) (r : Result A) (bad : Error → B) (good : A → B)
    → ((x : Error) → r ≡ err x → P (bad x))
    → ((a : A) → r ≡ ok a → P (good a))
    → P (elim r [ err x ↦ bad x | ok a ↦ good a ])
Result-elim P (ok a) bad good f g = g a refl
Result-elim P (err x) bad good f g = f x refl
