-- ===== src/Errors.antt =====
-- include/modbuscpp/modbuscpp/exception.hpp: exceptions as values, and the ways a call can end.
use modbus_cpp.Prelude.{ℕ, Bool, true, false, Option, none, some}
use modbus_cpp.Types.{Header}
use modbus_cpp.Constants.ExceptionCode as Code

-- What a `throw` throws. `std_exception` is a plain `std::exception`.
pub data Exception : Type 0 where
  specification : ℕ → ℕ → Header → Exception
  internal : ℕ → Exception
  out_of_range : Exception
  std_exception : Exception

-- How a call ends. `undefined` is undefined behaviour: a read outside of a vector.
pub data Result {ℓ} (A : Type ℓ) : Type ℓ where
  ok : A → Result A
  throw : Exception → Result A
  undefined : Result A

abbrev pub bad_data : Exception
bad_data = internal Code.bad_data

abbrev pub bad_data_size : Exception
bad_data_size = internal Code.bad_data_size

abbrev pub bad_exception : Exception
bad_exception = internal Code.bad_exception

abbrev pub illegal_function : ℕ → Header → Exception
illegal_function = specification Code.illegal_function

abbrev pub illegal_data_address : ℕ → Header → Exception
illegal_data_address = specification Code.illegal_data_address

abbrev pub illegal_data_value : ℕ → Header → Exception
illegal_data_value = specification Code.illegal_data_value

abbrev pub server_device_failure : ℕ → Header → Exception
server_device_failure = specification Code.server_device_failure

infixl 5 ◌>>=◌
abbrev pub ◌>>=◌ {ℓ κ} : {A : Type ℓ} {B : Type κ} → Result A → (A → Result B) → Result B
ok a >>= f = f a
throw e >>= f = throw e
undefined >>= f = undefined

-- `if (failed) throw e;`
abbrev pub or_throw {ℓ} : {A : Type ℓ} → Bool → Exception → Result A → Result A
or_throw true e r = throw e
or_throw false e r = r

-- `vector::at`, which throws, and `vector::operator[]`, which does not look.
abbrev pub at_result {ℓ} : {A : Type ℓ} → Option A → Result A
at_result none = throw out_of_range
at_result (some a) = ok a

abbrev pub index_result {ℓ} : {A : Type ℓ} → Option A → Result A
index_result none = undefined
index_result (some a) = ok a
