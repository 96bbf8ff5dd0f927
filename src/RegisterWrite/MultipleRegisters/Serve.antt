-- ===== src/RegisterWrite/MultipleRegisters/Serve.antt =====
-- What the server does with a request to write several registers.
use modbus_cpp.Prelude.{ℕ, ◌*◌, ◌≤◌, ◌≡◌, refl, true, false, [], ◌∷◌, ◌++◌, List, length, arith, u8}
use modbus_cpp.Types.{Packet, IsU16}
use modbus_cpp.Errors.{ok, throw, illegal_data_address}
use modbus_cpp.Adu.Wire.{header_packet_lem}
use modbus_cpp.Struc.{Struc, IsBigEndian}
use modbus_cpp.Frame
use modbus_cpp.Block
use modbus_cpp.Block.{Block}
use modbus_cpp.Table.{Table, with_holding_registers, write_num_regs}
use modbus_cpp.RegisterWrite.MultipleRegisters.Request.{WriteRegisters, decode, make}
use modbus_cpp.RegisterWrite.MultipleRegisters.Response.{execute, encode}
use modbus_cpp.RegisterWrite.MultipleRegisters.Response as Response
use modbus_cpp.Prelude.{resize-length, ◌==◌}
use modbus_cpp.Registers.{rounds}
use modbus_cpp.Frame.{
  Mbap, frame, reply, word, words, decode_header-frame, unpack_count, unpack_registers-words,
  header_of,
}

-- The request that a frame holds.
abbrev pub request : Mbap → ℕ → List ℕ → WriteRegisters
request m address values = record {
  adu = record {
    function = 16;
    function_code = 16;
    transaction = m.transaction;
    length = m.length;
    unit = m.unit;
  };
  address = address;
  count = length values;
  values = values;
}

abbrev pub request_frame : Mbap → ℕ → List ℕ → Packet → Packet
request_frame m address values rest =
    frame m 16 (word address (word (length values) (2 * length values ∷ (words values ++ rest))))

module _ (s : Struc) (laws : IsBigEndian s) where
  pub decode_lem :
      (m : Mbap) (address a c : ℕ) (values old : List ℕ) (rest : Packet)
      → length values ≤ 127
      → decode s (request_frame m address values rest) (make a c old)
        ≡ (ok tt, request m address values)
  unfolding decode
  decode_lem m address a c values old rest h = rw (
    decode_header-frame s laws,
    unpack_count s laws,
    even (length values) h,
    halved (length values) h,
    unpack_registers-words s laws (request_frame m address values rest) 13 values rest refl,
    resize-length 0 values,
  )
    where
      even : (n : ℕ) → n ≤ 127 → (u8 (n * 2) == 2 * n) ≡ true
      even n k = ground arith

      halved : (n : ℕ) → n ≤ 127 → rounds (u8 (n * 2)) ≡ n
      halved n k = omega arith

  -- The answer repeats the address and the count.
  pub encode_lem :
      (m : Mbap) (address : ℕ) (values : List ℕ) (t : Table) (b : Block ℕ)
      → Frame.IsValid m
      → IsU16 address
      → length values ≤ 127
      → Block.set_slice t.holding_registers address values ≡ ok b
      → let (p, (r, t')) = encode s (Response.make (request m address values), t) in
        (p ≡ ok (frame (reply m 6) 16 (word address (word (length values) []))))
        × (t' ≡ with_holding_registers b t)
  unfolding encode
  encode_lem m address values t b v h k e =
      rw (e, header_packet_lem s laws, laws.pack_short, laws.pack_short, laws.pack_nil)
        (ground arith, refl)

  pub execute_in :
      (m : Mbap) (address : ℕ) (values : List ℕ) (t : Table)
      → length values ≤ 127
      → Block.validate_count write_num_regs t.holding_registers address (length values) ≡ ok true
      → execute (request m address values) t ≡ ok (Response.make (request m address values))
  unfolding execute
  execute_in m address values t h e = rw e (ground arith)

  pub execute_out :
      (m : Mbap) (address : ℕ) (values : List ℕ) (t : Table)
      → length values ≤ 127
      → Block.validate_count write_num_regs t.holding_registers address (length values) ≡ ok false
      → execute (request m address values) t ≡ throw (illegal_data_address 16 (header_of m))
  unfolding execute
  execute_out m address values t h e = rw e (ground arith)
