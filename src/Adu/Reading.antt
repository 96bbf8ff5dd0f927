-- ===== src/Adu/Reading.antt =====
-- Reads of the function code and of the header, which are defined on packets that have them.
use modbus_cpp.Prelude.{ℕ, ◌<◌, ◌≢◌, Option, none, some, length}
use modbus_cpp.Types.{Packet}
use modbus_cpp.Errors.{at_result, undefined}
use modbus_cpp.Actions.Gives.{Returning, Any, Gives, Gives-then, Gives-result}
use modbus_cpp.Struc.{Struc, IsBigEndian, unpack_at}
use modbus_cpp.Struc.Numbers.{Found, unpack_at-Found}
use modbus_cpp.Adu.{Adu, header_func_format, decode_header}

pub at_defined : (o : Option ℕ) → at_result o ≢ undefined
at_defined none e = cc
at_defined (some n) e = cc

module _ (s : Struc) (laws : IsBigEndian s) where
  pub header-Returning :
      (U : Type 0) (p : Packet) (adu : Adu)
      → (length p < 8 → U)
      → Returning U Any (decode_header s p adu).0
  unfolding decode_header
  header-Returning U p adu lacks =
      let decoded : Gives U {A = Unit {0}} Any Any (decode_header s p adu) =
        Gives-then (Found header_func_format p) Any Any (unpack_at s header_func_format p 0, adu) _
          (Gives-result (Found header_func_format p) Any _ adu
            (unpack_at-Found s laws U header_func_format p 0 lacks) tt)
          λ _ _ _ _. record { value = tt; left = tt } in
      decoded.value
