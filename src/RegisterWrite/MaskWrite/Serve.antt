-- ===== src/RegisterWrite/MaskWrite/Serve.antt =====
-- What the server does with a request to mask a register.
use modbus_cpp.Prelude.{ℕ, ◌≡◌, refl, true, false, [], arith, u16, bit_and, bit_or}
use modbus_cpp.Types.{Packet, IsU16}
use modbus_cpp.Errors.{ok, throw, illegal_data_address}
use modbus_cpp.Adu.Wire.{header_packet_lem}
use modbus_cpp.Struc.{Struc, IsBigEndian}
use modbus_cpp.Frame
use modbus_cpp.Block
use modbus_cpp.Block.{Block}
use modbus_cpp.Table.{Table, with_holding_registers}
use modbus_cpp.RegisterWrite.MaskWrite.Request.{MaskWrite, decode, make}
use modbus_cpp.RegisterWrite.MaskWrite.Response.{execute, encode}
use modbus_cpp.RegisterWrite.MaskWrite.Response as Response
use modbus_cpp.Frame.{Mbap, frame, reply, word, decode_header-frame, unpack_three, header_of}

-- The request that a frame holds.
abbrev pub request : Mbap → ℕ → ℕ → ℕ → MaskWrite
request m address and_mask or_mask = record {
  adu = record {
    function = 22;
    function_code = 22;
    transaction = m.transaction;
    length = m.length;
    unit = m.unit;
  };
  address = address;
  and_mask = and_mask;
  or_mask = or_mask;
}

abbrev pub request_frame : Mbap → ℕ → ℕ → ℕ → Packet → Packet
request_frame m address and_mask or_mask rest =
    frame m 22 (word address (word and_mask (word or_mask rest)))

module _ (s : Struc) (laws : IsBigEndian s) where
  pub decode_lem :
      (m : Mbap) (address and_mask or_mask a x y : ℕ) (rest : Packet)
      → decode s (request_frame m address and_mask or_mask rest) (make a x y)
        ≡ (ok tt, request m address and_mask or_mask)
  unfolding decode
  decode_lem m address and_mask or_mask a x y rest =
      rw (decode_header-frame s laws, unpack_three s laws)

  -- The answer repeats the request.
  pub encode_lem :
      (m : Mbap) (address and_mask or_mask old : ℕ) (t : Table) (b : Block ℕ)
      → Frame.IsValid m
      → IsU16 address
      → IsU16 and_mask
      → IsU16 or_mask
      → Block.get t.holding_registers address ≡ ok old
      → Block.set_value t.holding_registers address (u16 (bit_or (bit_and old and_mask) or_mask))
        ≡ ok b
      → let (p, (r, t')) = encode s (Response.make (request m address and_mask or_mask), t) in
        (p ≡ ok (request_frame (reply m 8) address and_mask or_mask []))
        × (t' ≡ with_holding_registers b t)
  unfolding encode
  encode_lem m address and_mask or_mask old t b v h k l g e =
      rw
        (
          header_packet_lem s laws,
          laws.pack_short,
          laws.pack_short,
          laws.pack_short,
          laws.pack_nil,
          g,
          e,
        )
        (ground arith, refl)

  pub execute_in :
      (m : Mbap) (address and_mask or_mask : ℕ) (t : Table)
      → IsU16 and_mask
      → IsU16 or_mask
      → Block.validate t.holding_registers address ≡ ok true
      → execute (request m address and_mask or_mask) t
        ≡ ok (Response.make (request m address and_mask or_mask))
  unfolding execute
  execute_in m address and_mask or_mask t h k e = rw e (ground arith)

  pub execute_out :
      (m : Mbap) (address and_mask or_mask : ℕ) (t : Table)
      → IsU16 and_mask
      → IsU16 or_mask
      → Block.validate t.holding_registers address ≡ ok false
      → execute (request m address and_mask or_mask) t
        ≡ throw (illegal_data_address 22 (header_of m))
  unfolding execute
  execute_out m address and_mask or_mask t h k e = rw e (ground arith)
