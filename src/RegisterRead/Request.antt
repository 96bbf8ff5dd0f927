-- ===== src/RegisterRead/Request.antt =====
-- `request::base_read_registers<function_code>`, for its two function codes.
use modbus_cpp.Prelude.{ℕ, ◌+◌, ◌*◌, Bool, ◌||◌, not, ◌==◌, u16, [], ◌∷◌, ◌++◌, get_elem?}
use modbus_cpp.Constants.FunctionCode as Code
use modbus_cpp.Types.{Packet, validate}
use modbus_cpp.Errors.{bad_data, server_device_failure, at_result}
use modbus_cpp.Actions.{
  Action, lift, gets, modify, throw_if, try_catch, rethrow_all, focus, ◌>>=◌, ◌>>◌,
}
use modbus_cpp.Struc.{Struc, Format, Args, short, unpack_at}
use modbus_cpp.Adu
use modbus_cpp.Adu.{
  Adu, header_length, header, calc_length, calc_adu_length, decode_header, header_packet,
}
use modbus_cpp.Table.{Table}
use modbus_cpp.Block.{Block}

-- The two instances of the template.
pub data Kind : Type 0 where
  read_holding_registers : Kind
  read_input_registers : Kind

abbrev pub code : Kind → ℕ
code read_holding_registers = Code.read_holding_registers
code read_input_registers = Code.read_input_registers

-- The block that an instance reads.
abbrev pub block : Kind → Table → Block ℕ
block read_holding_registers t = t.holding_registers
block read_input_registers t = t.input_registers

pub record ReadRegisters : Type 0 where
  pub adu : Adu
  pub address : ℕ
  pub count : ℕ

-- `base_read_registers(address, count)`
abbrev pub make : Kind → ℕ → ℕ → ReadRegisters
make kind address count = record {
  adu = Adu.make (code kind) 0x00 0x00;
  address = address;
  count = count;
}

abbrev pub data_length : ℕ
data_length = 4

-- The format "HH"
abbrev pub format : Format
format = short ∷ short ∷ []

-- `count_.validate()`, the inherited member.
abbrev pub validate_count : ReadRegisters → Bool
validate_count r = validate r.count

abbrev pub with_adu : Adu → ReadRegisters → ReadRegisters
with_adu a r = record r { adu = a }

abbrev pub on_adu {ℓ} : {A : Type ℓ} → Action Adu A → Action ReadRegisters A
on_adu = focus (λ r. r.adu) with_adu

abbrev pub byte_count : ReadRegisters → ℕ
byte_count r = u16 (r.count * 2)

abbrev pub response_size : ReadRegisters → ℕ
response_size r = calc_adu_length (1 + byte_count r)

abbrev pub store : Args format → ReadRegisters → ReadRegisters
store (address, (count, _)) r = record r { address = address; count = count }

module _ (s : Struc) where
  unfoldable pub encode : Action ReadRegisters Packet
  encode = do
    throw_if (λ r. not (validate r.address) || not (validate_count r)) (λ _. bad_data)
    on_adu (modify (calc_length data_length))
    gets (λ r. header_packet s r.adu ++ s.pack format (r.address, (r.count, tt)))

  unfoldable pub decode : Kind → Packet → Action ReadRegisters (Unit {0})
  decode kind packet =
      try_catch
        (do
          c ← lift (at_result (get_elem? packet header_length))
          throw_if (λ _. not (c == code kind)) (λ _. bad_data)
          on_adu (decode_header s packet)
          a ← lift (unpack_at s format packet (header_length + 1))
          modify (store a))
        (rethrow_all λ r. server_device_failure r.adu.function (header r.adu))
