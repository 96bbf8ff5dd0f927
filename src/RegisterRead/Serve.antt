-- ===== src/RegisterRead/Serve.antt =====
-- What the server does with a request to read registers.
use modbus_cpp.Prelude.{ℕ, ◌+◌, ◌*◌, ◌≤◌, ◌≡◌, true, false, ◌∷◌, List, length, arith, All}
use modbus_cpp.Types.{Packet, IsU16}
use modbus_cpp.Errors.{ok, throw, illegal_data_address}
use modbus_cpp.Adu.Wire.{header_packet_lem}
use modbus_cpp.Struc.{Struc, IsBigEndian}
use modbus_cpp.Frame
use modbus_cpp.Frame.{
  Mbap, frame, reply, word, words, length-words, decode_header-frame, unpack_two, header_of,
  pack_registers-words,
}
use modbus_cpp.Table.{Table, read_num_regs}
use modbus_cpp.Block
use modbus_cpp.RegisterRead.Request.{
  ReadRegisters, Kind, code, block, decode, read_holding_registers, read_input_registers,
}
use modbus_cpp.RegisterRead.Response.{execute, encode}
use modbus_cpp.RegisterRead.Response as Response

-- The request that a frame holds.
abbrev pub request : Kind → Mbap → ℕ → ℕ → ReadRegisters
request kind m address count = record {
  adu = record {
    function = code kind;
    function_code = code kind;
    transaction = m.transaction;
    length = m.length;
    unit = m.unit;
  };
  address = address;
  count = count;
}

abbrev pub request_frame : Kind → Mbap → ℕ → ℕ → Packet → Packet
request_frame kind m address count rest = frame m (code kind) (word address (word count rest))

abbrev pub answer_frame : Kind → Mbap → List ℕ → Packet
answer_frame kind m ns = frame (reply m (3 + 2 * length ns)) (code kind) (2 * length ns ∷ words ns)

module _ (s : Struc) (laws : IsBigEndian s) where
  pub decode_lem :
      (kind : Kind) (m : Mbap) (address count : ℕ) (rest : Packet) (r : ReadRegisters)
      → decode s kind (request_frame kind m address count rest) r
        ≡ (ok tt, request kind m address count)
  unfolding decode
  decode_lem read_holding_registers m address count rest r =
      rw (decode_header-frame s laws, unpack_two s laws)
  decode_lem read_input_registers m address count rest r =
      rw (decode_header-frame s laws, unpack_two s laws)

  pub encode_lem :
      (kind : Kind) (m : Mbap) (address count : ℕ) (t : Table) (xs : List ℕ)
      → Frame.IsValid m
      → All IsU16 xs
      → length xs ≤ 125
      → length xs ≡ count
      → Block.get_slice read_num_regs (block kind t) address count ≡ ok xs
      → (encode s kind t (Response.make kind (request kind m address count))).0
        ≡ ok (answer_frame kind m xs)
  unfolding encode
  encode_lem read_holding_registers m address count t xs v w l n e =
      rw
        (
          e,
          header_packet_lem s laws,
          laws.pack_byte,
          laws.pack_nil,
          pack_registers-words s laws xs w,
        )
        (ground (arith, length-words xs))
  encode_lem read_input_registers m address count t xs v w l n e =
      rw
        (
          e,
          header_packet_lem s laws,
          laws.pack_byte,
          laws.pack_nil,
          pack_registers-words s laws xs w,
        )
        (ground (arith, length-words xs))

  pub execute_in :
      (kind : Kind) (m : Mbap) (address count : ℕ) (t : Table)
      → IsU16 count
      → Block.validate_count read_num_regs (block kind t) address count ≡ ok true
      → execute kind (request kind m address count) t
        ≡ ok (Response.make kind (request kind m address count))
  unfolding execute
  execute_in kind m address count t h e = rw e (ground arith)

  pub execute_out :
      (kind : Kind) (m : Mbap) (address count : ℕ) (t : Table)
      → IsU16 count
      → Block.validate_count read_num_regs (block kind t) address count ≡ ok false
      → execute kind (request kind m address count) t
        ≡ throw (illegal_data_address (code kind) (header_of m))
  unfolding execute
  execute_out kind m address count t h e = rw e (ground arith)
