-- ===== src/Prelude/Results.antt =====
-- Go's results: a value, a non-nil error, or a run-time panic (an index or a slice out of range, a nil
-- pointer). `E` is the caller's type of errors.
use mathlib.Core.Path.{◌≡◌, refl}
use mathlib.Core.Logic.{◌≢◌}
use mathlib.Core.Bool.{Bool, true, false}

pub data Outcome {ℓ} (E : Type 0) (A : Type ℓ) : Type ℓ where
  ok : A → Outcome E A
  err : E → Outcome E A
  panic : Outcome E A

-- `if !test { return err }`
abbrev pub guard : {E : Type 0} → Bool → E → Outcome E (Unit {0})
guard test e = elim test [ true ↦ ok tt | false ↦ err e ]

infixl 5 ◌>>=◌
abbrev pub ◌>>=◌ {ℓ κ} :
    {E : Type 0} {A : Type ℓ} {B : Type κ} → Outcome E A → (A → Outcome E B) → Outcome E B
panic >>= next = panic
err e >>= next = err e
ok a >>= next = next a

-- What follows a call that returns only an error.
infixl 5 ◌>>◌
abbrev pub ◌>>◌ {ℓ} : {E : Type 0} {B : Type ℓ} → Outcome E (Unit {0}) → Outcome E B → Outcome E B
call >> after = call >>= λ _. after

-- A bind gives an error only from one of its parts.
pub >>=-ne-err {ℓ κ} :
    {E : Type 0} {A : Type ℓ} {B : Type κ} (m : Outcome E A) (f : A → Outcome E B) (e : E)
    → m ≢ err e
    → ((a : A) → m ≡ ok a → f a ≢ err e)
    → (m >>= f) ≢ err e
>>=-ne-err (ok a) f e h k = k a refl
>>=-ne-err (err x) f e h k = λ p. h (cc)
>>=-ne-err panic f e h k = λ p. cc

-- To go on with the value of a first part that succeeds.
pub >>=-of-ok {ℓ κ} :
    {E : Type 0} {A : Type ℓ} {B : Type κ} (m : Outcome E A) (f : A → Outcome E B) {a : A}
    {r : Outcome E B}
    → m ≡ ok a
    → f a ≡ r
    → (m >>= f) ≡ r
>>=-of-ok m f e h = rw e h
