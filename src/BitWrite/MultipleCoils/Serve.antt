-- ===== src/BitWrite/MultipleCoils/Serve.antt =====
-- What the server does with a request to write several coils.
use modbus_cpp.Prelude.{ℕ, ◌≡◌, refl, Bool, true, false, [], ◌∷◌, List, arith, resize}
use modbus_cpp.Types.{Packet, IsU16}
use modbus_cpp.Errors.{ok, throw, illegal_data_address}
use modbus_cpp.Adu.Wire.{header_packet_lem}
use modbus_cpp.Struc.{Struc, IsBigEndian}
use modbus_cpp.Frame
use modbus_cpp.Block
use modbus_cpp.Block.{Block}
use modbus_cpp.Table.{Table, with_coils, write_num_bits}
use modbus_cpp.BitWrite.MultipleCoils.Request.{WriteCoils, decode, make}
use modbus_cpp.BitWrite.MultipleCoils.Response.{execute, encode}
use modbus_cpp.BitWrite.MultipleCoils.Response as Response
use modbus_cpp.Operation.{unpack_bits}
use modbus_cpp.Frame.{Mbap, frame, reply, word, decode_header-frame, unpack_count, header_of}

-- The request that a frame holds: the coils are the bits of the body, cut or filled up to the count.
abbrev pub request : Mbap → ℕ → ℕ → ℕ → Packet → WriteCoils
request m address count n body = record {
  adu = record {
    function = 15;
    function_code = 15;
    transaction = m.transaction;
    length = m.length;
    unit = m.unit;
  };
  address = address;
  count = count;
  values = resize count false (unpack_bits body);
  byte_count = n;
}

abbrev pub request_frame : Mbap → ℕ → ℕ → ℕ → Packet → Packet
request_frame m address count n body = frame m 15 (word address (word count (n ∷ body)))

module _ (s : Struc) (laws : IsBigEndian s) where
  pub decode_lem :
      (m : Mbap) (address count n a c : ℕ) (body : Packet) (values : List Bool)
      → decode s (request_frame m address count n body) (make a c values)
        ≡ (ok tt, request m address count n body)
  unfolding decode
  decode_lem m address count n a c body values =
      rw (decode_header-frame s laws, unpack_count s laws)

  -- The answer repeats the address and the count.
  pub encode_lem :
      (m : Mbap) (address count n : ℕ) (body : Packet) (t : Table) (b : Block Bool)
      → Frame.IsValid m
      → IsU16 address
      → IsU16 count
      → Block.set_slice t.coils address (resize count false (unpack_bits body)) ≡ ok b
      → let (p, (r, t')) = encode s (Response.make (request m address count n body), t) in
        (p ≡ ok (frame (reply m 6) 15 (word address (word count [])))) × (t' ≡ with_coils b t)
  unfolding encode
  encode_lem m address count n body t b v h k e =
      rw (e, header_packet_lem s laws, laws.pack_short, laws.pack_short, laws.pack_nil)
        (ground arith, refl)

  pub execute_in :
      (m : Mbap) (address count n : ℕ) (body : Packet) (t : Table)
      → IsU16 count
      → Block.validate_count write_num_bits t.coils address count ≡ ok true
      → execute (request m address count n body) t
        ≡ ok (Response.make (request m address count n body))
  unfolding execute
  execute_in m address count n body t h e = rw e (ground arith)

  pub execute_out :
      (m : Mbap) (address count n : ℕ) (body : Packet) (t : Table)
      → IsU16 count
      → Block.validate_count write_num_bits t.coils address count ≡ ok false
      → execute (request m address count n body) t ≡ throw (illegal_data_address 15 (header_of m))
  unfolding execute
  execute_out m address count n body t h e = rw e (ground arith)
