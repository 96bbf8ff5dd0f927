-- ===== src/BitRead/Serve.antt =====
-- What the server does with a request to read coils or discrete inputs.
use modbus_cpp.Prelude.{ℕ, ◌+◌, ◌/◌, ◌≤◌, ◌≡◌, Bool, true, false, ◌∷◌, List, length, arith}
use modbus_cpp.Types.{Packet, IsU16}
use modbus_cpp.Errors.{ok, throw, illegal_data_address}
use modbus_cpp.Adu.Wire.{header_packet_lem}
use modbus_cpp.Struc.{Struc, IsBigEndian}
use modbus_cpp.Operation.{pack_bits}
use modbus_cpp.Operation.Packing.{length-pack_bits}
use modbus_cpp.Frame
use modbus_cpp.Frame.{Mbap, frame, reply, word, decode_header-frame, unpack_two, header_of}
use modbus_cpp.Table.{Table, read_num_bits}
use modbus_cpp.Block
use modbus_cpp.BitRead.Request.{
  ReadBits, Kind, code, block, decode, read_coils, read_discrete_inputs,
}
use modbus_cpp.BitRead.Response.{execute, encode}
use modbus_cpp.BitRead.Response as Response

-- The request that a frame holds.
abbrev pub request : Kind → Mbap → ℕ → ℕ → ReadBits
request kind m address count = record {
  adu = record {
    function = code kind;
    function_code = code kind;
    transaction = m.transaction;
    length = m.length;
    unit = m.unit;
  };
  address = address;
  count = count;
}

abbrev pub request_frame : Kind → Mbap → ℕ → ℕ → Packet → Packet
request_frame kind m address count rest = frame m (code kind) (word address (word count rest))

abbrev pub answer_frame : Kind → Mbap → List Bool → Packet
answer_frame kind m bits =
    let bytes = (length bits + 7) / 8 in
    frame (reply m (3 + bytes)) (code kind) (bytes ∷ pack_bits bits)

module _ (s : Struc) (laws : IsBigEndian s) where
  pub decode_lem :
      (kind : Kind) (m : Mbap) (address count : ℕ) (rest : Packet) (r : ReadBits)
      → decode s kind (request_frame kind m address count rest) r
        ≡ (ok tt, request kind m address count)
  unfolding decode
  decode_lem read_coils m address count rest r = rw (decode_header-frame s laws, unpack_two s laws)
  decode_lem read_discrete_inputs m address count rest r =
      rw (decode_header-frame s laws, unpack_two s laws)

  pub encode_lem :
      (kind : Kind) (m : Mbap) (address count : ℕ) (t : Table) (xs : List Bool)
      → Frame.IsValid m
      → length xs ≤ 2000
      → length xs ≡ count
      → Block.get_slice read_num_bits (block kind t) address count ≡ ok xs
      → (encode s kind t (Response.make kind (request kind m address count))).0
        ≡ ok (answer_frame kind m xs)
  unfolding encode
  encode_lem read_coils m address count t xs v l n e =
      rw (e, header_packet_lem s laws, laws.pack_byte, laws.pack_nil)
        (ground (arith, length-pack_bits xs))
  encode_lem read_discrete_inputs m address count t xs v l n e =
      rw (e, header_packet_lem s laws, laws.pack_byte, laws.pack_nil)
        (ground (arith, length-pack_bits xs))

  pub execute_in :
      (kind : Kind) (m : Mbap) (address count : ℕ) (t : Table)
      → IsU16 count
      → Block.validate_count read_num_bits (block kind t) address count ≡ ok true
      → execute kind (request kind m address count) t
        ≡ ok (Response.make kind (request kind m address count))
  unfolding execute
  execute_in kind m address count t h e = rw e (ground arith)

  pub execute_out :
      (kind : Kind) (m : Mbap) (address count : ℕ) (t : Table)
      → IsU16 count
      → Block.validate_count read_num_bits (block kind t) address count ≡ ok false
      → execute kind (request kind m address count) t
        ≡ throw (illegal_data_address (code kind) (header_of m))
  unfolding execute
  execute_out kind m address count t h e = rw e (ground arith)
