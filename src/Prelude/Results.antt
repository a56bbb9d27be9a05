-- ===== src/Prelude/Results.antt =====
-- Go's `(value, error)` results: the value, or the error that was returned in its place.
use mathlib.Core.Path.{◌≡◌, refl}
use mathlib.Core.Logic.{◌⊎◌, inl, inr}
use mathlib.Core.Bool.{Bool, true, false}

pub data Result {ℓ} (F V : Type ℓ) : Type ℓ where
  err : F → Result F V
  ok : V → Result F V

-- A returned error, or a value, for proofs by cases.
pub Result-cases {ℓ} :
    {F V : Type ℓ} (r : Result F V) → ((f : F) × (r ≡ err f)) ⊎ ((v : V) × (r ≡ ok v))
Result-cases (err f) = inl (f, refl)
Result-cases (ok v) = inr (v, refl)

-- An early return of an error where the test does not pass.
abbrev pub guard {ℓ} : {F : Type ℓ} → Bool → F → Result F (Unit {ℓ})
guard false f = err f
guard true f = ok tt

infixl 5 ◌>>=◌
abbrev pub ◌>>=◌ {ℓ} : {F V W : Type ℓ} → Result F V → (V → Result F W) → Result F W
err f >>= next = err f
ok v >>= next = next v

-- What a chain that ends with a value went through: each step with its own value.
pub >>=-eq-ok {ℓ} :
    {F V W : Type ℓ} (r : Result F V) (next : V → Result F W) {w : W}
    → (r >>= next) ≡ ok w
    → (v : V) × (r ≡ ok v) × (next v ≡ ok w)
>>=-eq-ok (err f) next h = cc
>>=-eq-ok (ok v) next h = (v, refl, h)

infixl 5 ◌>>◌
abbrev pub ◌>>◌ {ℓ} : {F W : Type ℓ} → Result F (Unit {ℓ}) → Result F W → Result F W
check >> rest = check >>= λ _. rest

pub >>-eq-ok {ℓ} :
    {F W : Type ℓ} (check : Result F (Unit {ℓ})) (rest : Result F W) {w : W}
    → (check >> rest) ≡ ok w
    → (check ≡ ok tt) × (rest ≡ ok w)
>>-eq-ok (err f) rest h = cc
>>-eq-ok (ok tt) rest h = (refl, h)

pub guard-eq-ok {ℓ} :
    {F W : Type ℓ} (test : Bool) (f : F) (rest : Result F W) {w : W}
    → (guard test f >> rest) ≡ ok w
    → (test ≡ true) × (rest ≡ ok w)
guard-eq-ok false f rest h = cc
guard-eq-ok true f rest h = (refl, h)
