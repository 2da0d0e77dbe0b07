-- ===== src/Prelude/Results.antt =====
-- Python exceptions as values, by the class that is raised.
use mathlib.Core.Path.{◌≡◌, refl}
use mathlib.Core.Logic.{◌⊎◌, inl, inr}
use mathlib.Core.Bool.{Bool, true, false}

pub data Error : Type 0 where
  assertion_error type_error attribute_error key_error index_error value_error os_error
        zero_division_error :
      Error

-- What a call gives: the exception that it raises, or its value.
pub data Result {ℓ} (Value : Type ℓ) : Type ℓ where
  raise : Error → Result Value
  ok : Value → Result Value

-- `assert(test)`
abbrev pub assert : Bool → Result (Unit {0})
assert test = elim test [ false ↦ raise assertion_error | true ↦ ok tt ]

-- The rest of a body after a call: it is skipped when the call raises.
infixl 5 ◌>>=◌
abbrev pub ◌>>=◌ {ℓ κ} :
    {Value : Type ℓ} {Next : Type κ} → Result Value → (Value → Result Next) → Result Next
raise e >>= rest = raise e
ok v >>= rest = rest v

infixl 5 ◌>>◌
abbrev pub ◌>>◌ {κ} : {Next : Type κ} → Result (Unit {0}) → Result Next → Result Next
call >> rest = call >>= λ done. rest

-- A body that returned got a value from the call and returned from the rest.
pub >>=-ok {ℓ κ} :
    {Value : Type ℓ} {Next : Type κ} (call : Result Value) {rest : Value → Result Next} {w : Next}
    → (call >>= rest) ≡ ok w
    → (v : Value) × (call ≡ ok v) × (rest v ≡ ok w)
>>=-ok (raise e) h = cc
>>=-ok (ok v) h = (v, refl, h)

abbrev pub is_ok {ℓ} : {A : Type ℓ} → Result A → Bool
is_ok (ok a) = true
is_ok (raise e) = false

pub is_ok-eq {ℓ} : {A : Type ℓ} (m : Result A) → is_ok m ≡ true → (a : A) × (m ≡ ok a)
is_ok-eq (ok a) h = (a, refl)
is_ok-eq (raise e) h = cc

pub Result-cases {ℓ} :
    {A : Type ℓ} (m : Result A) → ((a : A) × (m ≡ ok a)) ⊎ ((e : Error) × (m ≡ raise e))
Result-cases (ok a) = inl (a, refl)
Result-cases (raise e) = inr (e, refl)
