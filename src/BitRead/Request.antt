-- ===== src/BitRead/Request.antt =====
-- `request::base_read_bits<function_code>`, for its two function codes.
use modbus_cpp.Prelude.{
  ℕ, ◌+◌, ◌/◌, ◌%◌, Bool, ◌||◌, not, ◌==◌, u16, if◌then◌else◌, [], ◌∷◌, ◌++◌, get_elem?,
}
use modbus_cpp.Constants.FunctionCode as Code
use modbus_cpp.Types.{Packet, validate}
use modbus_cpp.Errors.{bad_data, server_device_failure, at_result}
use modbus_cpp.Actions.{
  Action, lift, gets, modify, throw_if, try_catch, rethrow_all, focus, ◌>>=◌, ◌>>◌,
}
use modbus_cpp.Struc.{Struc, Format, Args, short, unpack_at}
use modbus_cpp.Adu
use modbus_cpp.Adu.{
  Adu, header_length, header, calc_length, calc_adu_length, decode_header, header_packet,
}
use modbus_cpp.Table.{Table}
use modbus_cpp.Block.{Block}

-- The two instances of the template.
pub data Kind : Type 0 where
  read_coils : Kind
  read_discrete_inputs : Kind

abbrev pub code : Kind → ℕ
code read_coils = Code.read_coils
code read_discrete_inputs = Code.read_discrete_inputs

-- The block that an instance reads.
abbrev pub block : Kind → Table → Block Bool
block read_coils t = t.coils
block read_discrete_inputs t = t.discrete_inputs

pub record ReadBits : Type 0 where
  pub adu : Adu
  pub address : ℕ
  pub count : ℕ

-- `base_read_bits(address, count)`
abbrev pub make : Kind → ℕ → ℕ → ReadBits
make kind address count = record {
  adu = Adu.make (code kind) 0x00 0x00;
  address = address;
  count = count;
}

abbrev pub data_length : ℕ
data_length = 4

-- The format "HH"
abbrev pub format : Format
format = short ∷ short ∷ []

-- `count_.validate()`, the inherited member.
abbrev pub validate_count : ReadBits → Bool
validate_count r = validate r.count

abbrev pub with_adu : Adu → ReadBits → ReadBits
with_adu a r = record r { adu = a }

abbrev pub on_adu {ℓ} : {A : Type ℓ} → Action Adu A → Action ReadBits A
on_adu = focus (λ r. r.adu) with_adu

abbrev pub byte_count : ReadBits → ℕ
byte_count r =
    let bytes : ℕ = u16 r.count / 8 in
    let remainder : ℕ = u16 r.count % 8 in if not (remainder == 0) then u16 (bytes + 1) else bytes

abbrev pub response_size : ReadBits → ℕ
response_size r = calc_adu_length (1 + byte_count r)

abbrev pub store : Args format → ReadBits → ReadBits
store (address, (count, _)) r = record r { address = address; count = count }

module _ (s : Struc) where
  unfoldable pub encode : Action ReadBits Packet
  encode = do
    throw_if (λ r. not (validate r.address) || not (validate_count r)) (λ _. bad_data)
    on_adu (modify (calc_length data_length))
    gets (λ r. header_packet s r.adu ++ s.pack format (r.address, (r.count, tt)))

  unfoldable pub decode : Kind → Packet → Action ReadBits (Unit {0})
  decode kind packet =
      try_catch
        (do
          c ← lift (at_result (get_elem? packet header_length))
          throw_if (λ _. not (c == code kind)) (λ _. bad_data)
          on_adu (decode_header s packet)
          a ← lift (unpack_at s format packet (header_length + 1))
          modify (store a))
        (rethrow_all λ r. server_device_failure r.adu.function (header r.adu))
