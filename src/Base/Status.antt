-- ===== src/Base/Status.antt =====
-- arrow::Status and arrow::Result, as far as the program reads them: a code and a message.
use lab_cpp.Base.Text.{Text}

pub data StatusCode : Type 0 where
  io_error execution_error unknown_error out_of_memory invalid : StatusCode

pub data Status : Type 0 where
  success : Status
  failure : StatusCode → Text → Status

pub data Result {ℓ} (A : Type ℓ) : Type ℓ where
  ok : A → Result A
  err : StatusCode → Text → Result A

-- RETURN_NOT_OK and ARROW_ASSIGN_OR_RAISE: go on with the value, or return the error.
infixl 5 ◌>>=◌
abbrev pub ◌>>=◌ {ℓ κ} : {A : Type ℓ} {B : Type κ} → Result A → (A → Result B) → Result B
ok a >>= f = f a
err c m >>= f = err c m

-- What a call does that may throw: the exceptions of the standard library's conversions, or a text.
pub data Exception : Type 0 where
  invalid_argument out_of_range : Exception
  thrown_text : Text → Exception

pub data Outcome {ℓ} (A : Type ℓ) : Type ℓ where
  returns : A → Outcome A
  throws : Exception → Outcome A
