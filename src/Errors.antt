-- ===== src/Errors.antt =====
-- core/errors.py: the exception classes, and the result of code that may raise.
use null.Prelude.{ℕ, String, ◌≡◌, ◌⊎◌, inl, inr, refl, Bool, true, false, Option}

-- The classes of core/errors.py, and those of Python that the modelled code raises or tells apart.
pub data ErrorClass : Type 0 where
  cti_error transient_error permanent_error circuit_open plugin_error : ErrorClass
  plugin_config_error plugin_load_error egress_blocked tlp_violation watermark_conflict : ErrorClass
  rate_limited : Option ℕ → ErrorClass
  value_error type_error key_error overflow_error cancelled other_error : ErrorClass

-- `isinstance(e, TransientError)`
abbrev pub is_transient : ErrorClass → Bool
is_transient transient_error = true
is_transient (rate_limited _) = true
is_transient circuit_open = true
is_transient _ = false

-- `isinstance(e, PermanentError)`
abbrev pub is_permanent : ErrorClass → Bool
is_permanent permanent_error = true
is_permanent plugin_config_error = true
is_permanent egress_blocked = true
is_permanent tlp_violation = true
is_permanent _ = false

-- `isinstance(e, CTIError)`
abbrev pub is_cti_error : ErrorClass → Bool
is_cti_error value_error = false
is_cti_error type_error = false
is_cti_error key_error = false
is_cti_error overflow_error = false
is_cti_error cancelled = false
is_cti_error other_error = false
is_cti_error _ = true

-- `isinstance(e, Exception)`: `CancelledError` derives from `BaseException` alone.
abbrev pub is_exception : ErrorClass → Bool
is_exception cancelled = false
is_exception _ = true

pub record Error : Type 0 where
  pub cls : ErrorClass
  pub message : String

-- What a call that may raise has come to.
pub data Result {ℓ} (A : Type ℓ) : Type ℓ where
  ok : A → Result A
  err : Error → Result A

-- An exception ends a chain of calls.
module _ {ℓ κ} {A : Type ℓ} {B : Type κ} where
  infixl 5 ◌>>=◌
  abbrev pub ◌>>=◌ : Result A → (A → Result B) → Result B
  err raised >>= next = err raised
  ok value >>= next = next value

  -- A chain that has come to a value came to one in its first call.
  pub >>=-eq-ok :
      (first : Result A) (next : A → Result B) {y : B}
      → (first >>= next) ≡ ok y
      → (value : A) × (first ≡ ok value) × (next value ≡ ok y)
  >>=-eq-ok (err raised) next chain = cc
  >>=-eq-ok (ok value) next chain = (value, refl, chain)

pub Result-cases {ℓ} :
    {A : Type ℓ} (r : Result A) → ((a : A) × (r ≡ ok a)) ⊎ ((e : Error) × (r ≡ err e))
Result-cases (ok a) = inl (a, refl)
Result-cases (err e) = inr (e, refl)
