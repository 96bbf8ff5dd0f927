-- ===== src/Adu.antt =====
-- include/modbuscpp/modbuscpp/adu.hpp and source/adu.cpp: the header and function code that every
-- request and response carries.
pub mod Reading
pub mod Wire
use modbus_cpp.Prelude.{
  ℕ, ◌+◌, Bool, true, false, ◌&&◌, not, ltb, ◌==◌, u16, if◌then◌else◌, [], ◌∷◌,
}
use modbus_cpp.Constants.{check_function, tcp_protocol, max_adu_length}
use modbus_cpp.Types.{Header, Packet}
use modbus_cpp.Struc.{Struc, Format, Args, short, byte, unpack_at}
use modbus_cpp.Actions.{Action, lift, modify, ◌>>=◌, ◌>>◌}

-- The fields of `adu`.
pub record Adu : Type 0 where
  pub function : ℕ
  pub function_code : ℕ
  pub transaction : ℕ
  pub length : ℕ
  pub unit : ℕ

abbrev pub header_length : ℕ
header_length = 7

abbrev pub protocol : ℕ
protocol = tcp_protocol

-- `header_func_format`, "HHHBB"
abbrev pub header_func_format : Format
header_func_format = short ∷ short ∷ short ∷ byte ∷ byte ∷ []

-- `adu(constants::function_code, transaction, unit)`
abbrev pub make : ℕ → ℕ → ℕ → Adu
make function transaction unit = record {
  function = function;
  function_code = function;
  transaction = transaction;
  length = 0x00;
  unit = unit;
}

-- The other constructors. A field that a constructor does not set has whatever value was there: that is
-- `unset`, from which the model takes it. `adu()`
abbrev pub make_empty : Adu → Adu
make_empty unset = record unset { function_code = 0x00 }

-- `if (check_function(function_code_)) { function_ = …; }`
abbrev pub function_of : ℕ → ℕ → ℕ
function_of function_code function =
    if check_function function_code then function_code else function

-- `adu(std::uint8_t, transaction, unit)`
abbrev pub make_code : Adu → ℕ → ℕ → ℕ → Adu
make_code unset function_code transaction unit = record {
  function = function_of function_code unset.function;
  function_code = function_code;
  transaction = transaction;
  length = 0x00;
  unit = unit;
}

-- `adu::initializer_t`
pub record Initializer : Type 0 where
  pub transaction : ℕ
  pub unit : ℕ

-- `adu(constants::function_code, initializer)`
abbrev pub make_initialized : ℕ → Initializer → Adu
make_initialized function initializer = record {
  function = function;
  function_code = function;
  transaction = initializer.transaction;
  length = 0x00;
  unit = initializer.unit;
}

-- `adu(std::uint8_t, initializer)`
abbrev pub make_code_initialized : Adu → ℕ → Initializer → Adu
make_code_initialized unset function_code initializer = record {
  function = function_of function_code unset.function;
  function_code = function_code;
  transaction = initializer.transaction;
  length = 0x00;
  unit = initializer.unit;
}

-- `adu(constants::function_code, header)`
abbrev pub make_with_header : ℕ → Header → Adu
make_with_header function h = record {
  function = function;
  function_code = function;
  transaction = h.transaction;
  length = h.length;
  unit = h.unit;
}

-- `adu(std::uint8_t, header)`
abbrev pub make_code_with_header : Adu → ℕ → Header → Adu
make_code_with_header unset function_code h = record {
  function = function_of function_code unset.function;
  function_code = function_code;
  transaction = h.transaction;
  length = h.length;
  unit = h.unit;
}

-- `header()`
abbrev pub header : Adu → Header
header adu = record { transaction = adu.transaction; length = adu.length; unit = adu.unit }

-- `header(m_header)`
abbrev pub set_header : Header → Adu → Adu
set_header h adu = record adu { transaction = h.transaction; length = h.length; unit = h.unit }

-- `initialize({transaction, unit})`
abbrev pub initialize : ℕ → ℕ → Adu → Adu
initialize transaction unit adu = record adu {
  transaction = transaction;
  length = 0x00;
  unit = unit;
}

abbrev pub set_transaction : ℕ → Adu → Adu
set_transaction new_transaction adu = record adu { transaction = new_transaction }

-- `calc_length`: unit id, function code and the PDU.
abbrev pub calc_length : ℕ → Adu → Adu
calc_length pdu_length adu = record adu { length = u16 (1 + 1 + pdu_length) }

abbrev pub set_length : ℕ → Adu → Adu
set_length new_length adu = record adu { length = new_length }

abbrev pub set_unit : ℕ → Adu → Adu
set_unit new_unit adu = record adu { unit = new_unit }

-- `calc_adu_length`: the sum is converted to `std::uint16_t`.
abbrev pub calc_adu_length : ℕ → ℕ
calc_adu_length data_length = u16 (header_length + 1 + data_length)

-- What `decode_header` stores; `function_` keeps its value if the code is not a function.
abbrev pub store_header : Args header_func_format → Adu → Adu
store_header (transaction, (temp, (length, (unit, (function_code, _))))) adu = record {
  function = if check_function function_code then function_code else adu.function;
  function_code = function_code;
  transaction = transaction;
  length = length;
  unit = unit;
}

-- `decode(std::string_view)`: the characters are copied into a packet, for the class's own `decode`.
abbrev pub decode_view :
    {S : Type 0} → (Packet → Action S (Unit {0})) → Packet → Action S (Unit {0})
decode_view decode packet = decode packet

-- `adu::operator==` as it stands: both transactions are nonzero.
abbrev pub eq : Adu → Adu → Bool
eq a b = not (a.transaction == 0) && not (b.transaction == 0)

-- `adu::operator<` and `adu::operator>`
abbrev pub lt : Adu → Adu → Bool
lt a b = ltb a.transaction b.transaction

abbrev pub gt : Adu → Adu → Bool
gt a b = ltb b.transaction a.transaction

module _ (s : Struc) where
  unfoldable pub decode_header : Packet → Action Adu (Unit {0})
  decode_header packet = do
    a ← lift (unpack_at s header_func_format packet 0)
    modify (store_header a)

  abbrev pub header_packet : Adu → Packet
  header_packet adu =
      s.pack header_func_format
        (adu.transaction, (protocol, (adu.length, (adu.unit, (adu.function_code, tt)))))
