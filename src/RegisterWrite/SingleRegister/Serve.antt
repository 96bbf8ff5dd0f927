-- ===== src/RegisterWrite/SingleRegister/Serve.antt =====
-- What the server does with a request to write one register.
use modbus_cpp.Prelude.{ℕ, ◌≡◌, refl, true, false, [], arith}
use modbus_cpp.Types.{Packet, IsU16}
use modbus_cpp.Errors.{ok, throw, illegal_data_address}
use modbus_cpp.Adu.Wire.{header_packet_lem}
use modbus_cpp.Struc.{Struc, IsBigEndian}
use modbus_cpp.Frame
use modbus_cpp.Block
use modbus_cpp.Block.{Block}
use modbus_cpp.Table.{Table, with_holding_registers}
use modbus_cpp.RegisterWrite.SingleRegister.Request.{WriteRegister, decode, make}
use modbus_cpp.RegisterWrite.SingleRegister.Response.{execute, encode}
use modbus_cpp.RegisterWrite.SingleRegister.Response as Response
use modbus_cpp.Frame.{Mbap, frame, reply, word, decode_header-frame, unpack_two, header_of}

-- The request that a frame holds.
abbrev pub request : Mbap → ℕ → ℕ → WriteRegister
request m address value = record {
  adu = record {
    function = 6;
    function_code = 6;
    transaction = m.transaction;
    length = m.length;
    unit = m.unit;
  };
  address = address;
  value = value;
}

abbrev pub request_frame : Mbap → ℕ → ℕ → Packet → Packet
request_frame m address value rest = frame m 6 (word address (word value rest))

module _ (s : Struc) (laws : IsBigEndian s) where
  pub decode_lem :
      (m : Mbap) (address value a v : ℕ) (rest : Packet)
      → decode s (request_frame m address value rest) (make a v) ≡ (ok tt, request m address value)
  unfolding decode
  decode_lem m address value a v rest = rw (decode_header-frame s laws, unpack_two s laws)

  -- The answer repeats the request.
  pub encode_lem :
      (m : Mbap) (address value : ℕ) (t : Table) (b : Block ℕ)
      → Frame.IsValid m
      → IsU16 address
      → IsU16 value
      → Block.set_value t.holding_registers address value ≡ ok b
      → let (p, (r, t')) = encode s (Response.make (request m address value), t) in
        (p ≡ ok (request_frame (reply m 6) address value [])) × (t' ≡ with_holding_registers b t)
  unfolding encode
  encode_lem m address value t b v h k e =
      rw (header_packet_lem s laws, laws.pack_short, laws.pack_short, laws.pack_nil, e)
        (ground arith, refl)

  pub execute_in :
      (m : Mbap) (address value : ℕ) (t : Table)
      → IsU16 value
      → Block.validate t.holding_registers address ≡ ok true
      → execute (request m address value) t ≡ ok (Response.make (request m address value))
  unfolding execute
  execute_in m address value t h e = rw e (ground arith)

  pub execute_out :
      (m : Mbap) (address value : ℕ) (t : Table)
      → IsU16 value
      → Block.validate t.holding_registers address ≡ ok false
      → execute (request m address value) t ≡ throw (illegal_data_address 6 (header_of m))
  unfolding execute
  execute_out m address value t h e = rw e (ground arith)
