-- ===== src/BitWrite/SingleCoil/Serve.antt =====
-- What the server does with a request to write one coil.
use modbus_cpp.Prelude.{ℕ, ◌≡◌, refl, Bool, true, false, if◌then◌else◌, [], arith}
use modbus_cpp.Types.{Packet, IsU16}
use modbus_cpp.Errors.{ok, throw, illegal_data_address}
use modbus_cpp.Adu.Wire.{header_packet_lem}
use modbus_cpp.Struc.{Struc, IsBigEndian}
use modbus_cpp.Frame
use modbus_cpp.Block
use modbus_cpp.Block.{Block}
use modbus_cpp.Table.{Table, with_coils}
use modbus_cpp.BitWrite.SingleCoil.Request.{WriteCoil, decode, make}
use modbus_cpp.BitWrite.SingleCoil.Response.{execute, encode}
use modbus_cpp.BitWrite.SingleCoil.Response as Response
use modbus_cpp.Constants.{bits_on, bits_off}
use modbus_cpp.Frame.{Mbap, frame, reply, word, decode_header-frame, unpack_two, header_of}

abbrev pub bits_value : Bool → ℕ
bits_value on = if on then bits_on else bits_off

-- The request that a frame holds.
abbrev pub request : Mbap → ℕ → Bool → WriteCoil
request m address on = record {
  adu = record {
    function = 5;
    function_code = 5;
    transaction = m.transaction;
    length = m.length;
    unit = m.unit;
  };
  address = address;
  value = bits_value on;
}

abbrev pub request_frame : Mbap → ℕ → Bool → Packet → Packet
request_frame m address on rest = frame m 5 (word address (word (bits_value on) rest))

module _ (s : Struc) (laws : IsBigEndian s) where
  pub decode_lem :
      (m : Mbap) (address : ℕ) (on : Bool) (a v : ℕ) (rest : Packet)
      → decode s (request_frame m address on rest) (make a v) ≡ (ok tt, request m address on)
  unfolding decode
  decode_lem m address true a v rest = rw (decode_header-frame s laws, unpack_two s laws)
  decode_lem m address false a v rest = rw (decode_header-frame s laws, unpack_two s laws)

  -- The answer holds the value that the coil had before.
  pub encode_lem :
      (m : Mbap) (address : ℕ) (on old : Bool) (t : Table) (b : Block Bool)
      → Frame.IsValid m
      → IsU16 address
      → Block.get t.coils address ≡ ok old
      → Block.set_value t.coils address on ≡ ok b
      → let (p, (r, t')) = encode s (Response.make (request m address on), t) in
        (p ≡ ok (request_frame (reply m 6) address old [])) × (t' ≡ with_coils b t)
  unfolding encode
  encode_lem m address true true t b v h g e =
      rw (g, header_packet_lem s laws, laws.pack_short, laws.pack_short, laws.pack_nil, e)
        (ground arith, refl)
  encode_lem m address true false t b v h g e =
      rw (g, header_packet_lem s laws, laws.pack_short, laws.pack_short, laws.pack_nil, e)
        (ground arith, refl)
  encode_lem m address false true t b v h g e =
      rw (g, header_packet_lem s laws, laws.pack_short, laws.pack_short, laws.pack_nil, e)
        (ground arith, refl)
  encode_lem m address false false t b v h g e =
      rw (g, header_packet_lem s laws, laws.pack_short, laws.pack_short, laws.pack_nil, e)
        (ground arith, refl)

  pub execute_in :
      (m : Mbap) (address : ℕ) (on : Bool) (t : Table)
      → Block.validate t.coils address ≡ ok true
      → execute (request m address on) t ≡ ok (Response.make (request m address on))
  unfolding execute
  execute_in m address true t e = rw e
  execute_in m address false t e = rw e

  pub execute_out :
      (m : Mbap) (address : ℕ) (on : Bool) (t : Table)
      → Block.validate t.coils address ≡ ok false
      → execute (request m address on) t ≡ throw (illegal_data_address 5 (header_of m))
  unfolding execute
  execute_out m address true t e = rw e
  execute_out m address false t e = rw e
