-- ===== src/Client/CoilsWriting.antt =====
-- Clients that write several coils.
use modbus_cpp.Prelude.{
  ℕ, ◌+◌, ◌/◌, ◌<◌, ◌≤◌, ◌≡◌, ◌⊎◌, refl, ap, ◌∙◌, Bool, true, ==-refl, [], List, length, arith,
}
use modbus_cpp.Types.{IsU16}
use modbus_cpp.Errors.{ok, throw, bad_data}
use modbus_cpp.Struc.{Struc, IsBigEndian}
use modbus_cpp.Adu
use modbus_cpp.Adu.Wire.{header_packet_lem}
use modbus_cpp.Operation.{pack_bits}
use modbus_cpp.Operation.Packing.{length-pack_bits, resize-unpack_bits}
use modbus_cpp.Frame
use modbus_cpp.Frame.{Mbap, frame, reply, word, decoded, unpack_two, validate_u16}
use modbus_cpp.Block
use modbus_cpp.Block.{Block}
use modbus_cpp.Block.Range.{IsValid, InRange}
use modbus_cpp.Table.{Table, with_coils, write_num_bits}
use modbus_cpp.BitWrite.MultipleCoils.Request.{WriteCoils, calc_byte_count}
use modbus_cpp.BitWrite.MultipleCoils.Request as Request
use modbus_cpp.BitWrite.MultipleCoils.Response.{WriteCoilsResponse, decode_passed, derived}
use modbus_cpp.BitWrite.MultipleCoils.Response as Response
use modbus_cpp.BitWrite.MultipleCoils.Serve.{request, request_frame}
use modbus_cpp.Response as Base
use modbus_cpp.Response.Decode.{decode-answer}
use modbus_cpp.RequestHandler.CoilWriting.{handle_write_coils}
use modbus_cpp.Client.{ask, ask_lem}

-- The request, with the transaction and unit that the client gives it.
abbrev pub asked : Mbap → ℕ → List Bool → WriteCoils
asked m address values =
    Request.with_adu (Adu.initialize m.transaction m.unit (Adu.make 15 0 0))
      (Request.make address (length values) values)

abbrev bytes : List Bool → ℕ
bytes values = (length values + 7) / 8

abbrev sent : Mbap → List Bool → Mbap
sent m values = reply m (7 + bytes values)

-- The response that the client ends up with.
abbrev filled : Mbap → ℕ → List Bool → WriteCoilsResponse
filled m address values =
    let start =
      Response.make (request m address (length values) (bytes values) (pack_bits values)) in
    Response.store (address, (length values, tt))
      (Response.with_base (Base.with_adu (decoded (reply m 6) 15 start.base.adu) start.base) start)

calc_byte_count_lem : (n : ℕ) → n < 256 → calc_byte_count n ≡ (n + 7) / 8
calc_byte_count_lem n h = ground arith

calc_byte_count-lt : (n : ℕ) → 256 ≤ n → n ≤ 1968 → calc_byte_count n < (n + 7) / 8
calc_byte_count-lt n h k = ground arith

module _ (s : Struc) (laws : IsBigEndian s) where
  encode_lem :
      (m : Mbap) (address : ℕ) (values : List Bool)
      → Frame.IsValid m
      → IsU16 address
      → length values < 256
      → Request.encode s (asked m address values) ≡ (
        ok (
            request_frame
              (sent m values)
              address
              (length values)
              (bytes values)
              (pack_bits values)),
        request (sent m values) address (length values) (bytes values) (pack_bits values),
      )
  unfolding Request.encode
  encode_lem m address values v h k =
      rw
        (
          validate_u16 address h,
          validate_u16 (length values) (omega arith),
          calc_byte_count_lem (length values) k,
          header_packet_lem s laws,
          laws.pack_short,
          laws.pack_short,
          laws.pack_byte,
          laws.pack_nil,
          resize-unpack_bits values,
        )
        (ground (arith, length-pack_bits values))

  -- The byte count of 256 coils or more does not fit their bytes: no such request can be made.
  -- Assumed: struc is big-endian, the address fits 16 bits and there are at most 1968 coils.
  pub encode-write_coils_refused :
      (m : Mbap) (address : ℕ) (values : List Bool)
      → IsU16 address
      → 256 ≤ length values
      → length values ≤ 1968
      → (Request.encode s (asked m address values)).0 ≡ throw bad_data
  unfolding Request.encode
  encode-write_coils_refused m address values h k l =
      rw
        (
          validate_u16 address h,
          validate_u16 (length values) (omega arith),
          header_packet_lem s laws,
          laws.pack_short,
          laws.pack_short,
          laws.pack_byte,
          laws.pack_nil,
        )
        (ground (arith, length-pack_bits values, calc_byte_count-lt (length values) k l))

  decode_passed_lem :
      (m : Mbap) (address : ℕ) (q : WriteCoils) (b : Base.Response) (x y : ℕ)
      → decode_passed s
          (frame (reply m 6) 15 (word address (word q.count [])))
          (record { base = b; request = record q { address = address }; address = x; count = y })
        ≡ (
          ok tt,
          record {
            base = b;
            request = record q { address = address };
            address = address;
            count = q.count;
          },
        )
  unfolding decode_passed
  decode_passed_lem m address q b x y =
      rw (unpack_two s laws (reply m 6), ==-refl address, ==-refl q.count)

  decode_lem :
      (m : Mbap) (address : ℕ) (values : List Bool)
      → Base.decode s
          (derived s)
          (frame (reply m 6) 15 (word address (word (length values) [])))
          (Response.make (request m address (length values) (bytes values) (pack_bits values)))
        ≡ (ok tt, filled m address values)
  decode_lem m address values =
      decode-answer s laws (derived s) m 6 15 (word address (word (length values) [])) _
        (record { transaction = refl; unit = refl }) refl refl
      ∙ rw (
          decode_passed_lem m address
            (request m address (length values) (bytes values) (pack_bits values)))

  -- A client that writes fewer than 256 coils of the server's block has their address and number
  -- acknowledged, under the transaction and unit of its request. They then read back, and no other
  -- changes. Assumed: struc is big-endian, the numbers of the request fit their types and the
  -- block has a cell for each of its addresses.
  pub ask-write_coils :
      (m : Mbap) (address : ℕ) (values : List Bool) (t : Table)
      → Frame.IsValid m
      → IsU16 address
      → length values < 256
      → IsValid t.coils
      → InRange t.coils address (length values)
      → (r : WriteCoilsResponse) × (b : Block Bool) × (ask s
            (derived s)
            Response.make
            (Request.encode s)
            (asked m address values)
            t
          ≡ (ok r, with_coils b t))
        × (r.address ≡ address)
        × (r.count ≡ length values)
        × (r.base.adu.transaction ≡ m.transaction)
        × (r.base.adu.unit ≡ m.unit)
        × (Block.get_slice write_num_bits b address (length values) ≡ ok values)
        × ((other : ℕ)
            → IsU16 other
            → (other < address) ⊎ (address + length values ≤ other)
            → Block.get b other ≡ Block.get t.coils other)
  ask-write_coils m address values t v h k w i =
      let n = 7 + bytes values in
      let c : write_num_bits (length values) ≡ true = ground (arith, i.some_cell) in
      let (b, e, w', f, kept) =
        handle_write_coils s laws (reply m n) address (length values) (bytes values)
          (pack_bits values) t (Frame.reply-IsValid m n v) h w c i in
      (
        filled (reply m n) address values,
        b,
        ask_lem s (derived s) Response.make (Request.encode s) _ _ _ _ _ t _
            (encode_lem m address values v h k) e (decode_lem (reply m n) address values),
        refl,
        refl,
        refl,
        refl,
        f ∙ ap ok (resize-unpack_bits values),
        kept,
      )
