-- ===== src/Common/Errors.antt =====
-- What a Python call that may raise returns.
use mathlib.Core.Bool.{Bool, true, false}

pub data Error : Type 0 where
  value_error key_error index_error zero_division_error type_error os_error : Error

pub data Result {ℓ} (A : Type ℓ) : Type ℓ where
  ok : A → Result A
  raise : Error → Result A

infixl 5 ◌>>=◌
abbrev pub ◌>>=◌ {ℓ κ} : {A : Type ℓ} {B : Type κ} → Result A → (A → Result B) → Result B
ok a >>= f = f a
raise e >>= f = raise e

-- Whether a call returns.
abbrev pub is_ok {ℓ} : {A : Type ℓ} → Result A → Bool
is_ok (ok a) = true
is_ok (raise e) = false
