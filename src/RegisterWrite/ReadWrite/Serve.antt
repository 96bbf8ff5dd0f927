-- ===== src/RegisterWrite/ReadWrite/Serve.antt =====
-- What the server does with a request to write registers and then read some.
use modbus_cpp.Prelude.{
  Bool, false, ◌&&◌, ℕ, ◌+◌, ◌*◌, ◌≤◌, ◌≡◌, refl, true, ◌∷◌, ◌++◌, List, length, arith, All, u8,
}
use modbus_cpp.Types.{Packet, IsU16}
use modbus_cpp.Errors.{ok, throw, illegal_data_address}
use modbus_cpp.Adu.Wire.{header_packet_lem}
use modbus_cpp.Struc.{Struc, IsBigEndian}
use modbus_cpp.Frame
use modbus_cpp.Block
use modbus_cpp.Block.{Block}
use modbus_cpp.Table.{Table, with_holding_registers, read_num_regs, write_num_regs}
use modbus_cpp.RegisterWrite.ReadWrite.Request.{ReadWrite, decode, make}
use modbus_cpp.RegisterWrite.ReadWrite.Response.{execute, encode}
use modbus_cpp.RegisterWrite.ReadWrite.Response as Response
use modbus_cpp.Prelude.{resize-length, ◌==◌}
use modbus_cpp.Registers.{rounds}
use modbus_cpp.Frame.{
  Mbap, frame, reply, word, words, length-words, decode_header-frame, unpack_four,
  unpack_registers-words, pack_registers-words, header_of,
}

-- The request that a frame holds.
abbrev pub request : Mbap → ℕ → ℕ → ℕ → List ℕ → ReadWrite
request m read_address read_count write_address values = record {
  adu = record {
    function = 23;
    function_code = 23;
    transaction = m.transaction;
    length = m.length;
    unit = m.unit;
  };
  read_address = read_address;
  read_count = read_count;
  write_address = write_address;
  write_count = length values;
  values = values;
}

abbrev pub request_frame : Mbap → ℕ → ℕ → ℕ → List ℕ → Packet → Packet
request_frame m read_address read_count write_address values rest = frame m 23 (
    word read_address (
      word read_count
        (word write_address (word (length values) (2 * length values ∷ (words values ++ rest))))))

abbrev pub answer_frame : Mbap → List ℕ → Packet
answer_frame m ns = frame (reply m (3 + 2 * length ns)) 23 (2 * length ns ∷ words ns)

module _ (s : Struc) (laws : IsBigEndian s) where
  pub decode_lem :
      (m : Mbap) (read_address read_count write_address a c x y : ℕ) (values old : List ℕ)
      (rest : Packet)
      → length values ≤ 127
      → decode s
          (request_frame m read_address read_count write_address values rest)
          (make a c x y old)
        ≡ (ok tt, request m read_address read_count write_address values)
  unfolding decode
  decode_lem m read_address read_count write_address a c x y values old rest h = rw (
    decode_header-frame s laws,
    unpack_four s laws,
    even (length values) h,
    halved (length values) h,
    unpack_registers-words s laws
        (request_frame m read_address read_count write_address values rest) 17 values rest refl,
    resize-length 0 values,
  )
    where
      even : (n : ℕ) → n ≤ 127 → (u8 (n * 2) == 2 * n) ≡ true
      even n k = ground arith

      halved : (n : ℕ) → n ≤ 127 → rounds (u8 (n * 2)) ≡ n
      halved n k = omega arith

  -- The answer holds the registers as they are after the write.
  pub encode_lem :
      (m : Mbap) (read_address read_count write_address : ℕ) (values xs : List ℕ) (t : Table)
      (b : Block ℕ)
      → Frame.IsValid m
      → All IsU16 xs
      → length xs ≤ 125
      → length xs ≡ read_count
      → Block.set_slice t.holding_registers write_address values ≡ ok b
      → Block.get_slice read_num_regs b read_address read_count ≡ ok xs
      → let (p, (r, t')) =
          encode s (Response.make (request m read_address read_count write_address values), t) in
        (p ≡ ok (answer_frame m xs)) × (t' ≡ with_holding_registers b t)
  unfolding encode
  encode_lem m read_address read_count write_address values xs t b v w l n e g =
      rw
        (
          e,
          g,
          header_packet_lem s laws,
          laws.pack_byte,
          laws.pack_nil,
          pack_registers-words s laws xs w,
        )
        (ground (arith, length-words xs), ground (arith, length-words xs))

  pub execute_in :
      (m : Mbap) (read_address read_count write_address : ℕ) (values : List ℕ) (t : Table)
      → IsU16 read_address
      → IsU16 read_count
      → IsU16 write_address
      → length values ≤ 127
      → Block.validate_count read_num_regs t.holding_registers read_address read_count ≡ ok true
      → Block.validate_count write_num_regs t.holding_registers write_address (length values)
        ≡ ok true
      → execute (request m read_address read_count write_address values) t
        ≡ ok (Response.make (request m read_address read_count write_address values))
  unfolding execute
  execute_in m read_address read_count write_address values t h k l n e f = rw (e, f) (ground arith)

  -- Registers that cannot be read, or else cannot be written.
  pub execute_out :
      (m : Mbap) (read_address read_count write_address : ℕ) (values : List ℕ) (t : Table)
      (readable writable : Bool)
      → IsU16 read_address
      → IsU16 read_count
      → IsU16 write_address
      → length values ≤ 127
      → Block.validate_count read_num_regs t.holding_registers read_address read_count ≡ ok readable
      → Block.validate_count write_num_regs t.holding_registers write_address (length values)
        ≡ ok writable
      → (readable && writable) ≡ false
      → execute (request m read_address read_count write_address values) t
        ≡ throw (illegal_data_address 23 (header_of m))
  unfolding execute
  execute_out m read_address read_count write_address values t true true h k l n e f out =
      absurd (cc)
  execute_out m read_address read_count write_address values t true false h k l n e f out =
      rw (e, f) (ground arith)
  execute_out m read_address read_count write_address values t false writable h k l n e f out =
      rw e (ground arith)
