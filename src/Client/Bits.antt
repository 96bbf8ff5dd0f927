-- ===== src/Client/Bits.antt =====
-- Clients that read coils or discrete inputs.
use modbus_cpp.Prelude.{
  ℕ, ◌+◌, ◌*◌, ◌/◌, ◌<◌, ◌≤◌, ◌≡◌, refl, ap, subst, ◌∙◌, Bool, true, false, ◌==◌, Bool-cases, inl,
  inr, [], ◌∷◌, List, length, take_exact-length, arith,
}
use modbus_cpp.Types.{IsU16, char_to_u16}
use modbus_cpp.Errors.{ok, throw, bad_data}
use modbus_cpp.Struc.{Struc, IsBigEndian}
use modbus_cpp.Adu
use modbus_cpp.Adu.Wire.{header_packet_lem}
use modbus_cpp.Operation.{pack_bits, unpack_bits}
use modbus_cpp.Operation.Packing.{length-pack_bits, length-unpack_bits}
use modbus_cpp.Frame
use modbus_cpp.Frame.{Mbap, frame, reply, decoded, validate_u16}
use modbus_cpp.Block.Range.{IsValid, InRange}
use modbus_cpp.Table.{Table, read_num_bits}
use modbus_cpp.BitRead.Request.{Kind, code, block, ReadBits, read_coils, read_discrete_inputs}
use modbus_cpp.BitRead.Request as Request
use modbus_cpp.BitRead.Response.{ReadBitsResponse, decode_passed, derived}
use modbus_cpp.BitRead.Response as Response
use modbus_cpp.BitRead.Serve.{request, request_frame, answer_frame}
use modbus_cpp.Response as Base
use modbus_cpp.Response.Decode.{decode-answer_bad}
use modbus_cpp.RequestHandler.BitReading.{handle_read_bits}
use modbus_cpp.Client.{ask, ask_throw}

-- The request, with the transaction and unit that the client gives it.
abbrev pub asked : Kind → Mbap → ℕ → ℕ → ReadBits
asked kind m address count =
    Request.with_adu (Adu.initialize m.transaction m.unit (Adu.make (code kind) 0 0))
      (Request.make kind address count)

-- A number of bytes that is also the number of their bits, and the number of bits that unpacking makes.
no_count :
    (signed : Bool) (n bits : ℕ)
    → 0 < n
    → n ≤ 2000
    → bits ≡ 8 * ((n + 7) / 8)
    → (char_to_u16 signed ((n + 7) / 8) == n) ≡ true
    → (bits == n) ≡ false
no_count true n bits h k e f = ground arith
no_count false n bits h k e f = ground arith

module _ (s : Struc) (laws : IsBigEndian s) where
  encode_lem :
      (kind : Kind) (m : Mbap) (address count : ℕ)
      → Frame.IsValid m
      → IsU16 address
      → IsU16 count
      → Request.encode s (asked kind m address count) ≡ (
        ok (request_frame kind (reply m 6) address count []),
        request kind (reply m 6) address count,
      )
  unfolding Request.encode
  encode_lem read_coils m address count v h k =
      rw
        (
          validate_u16 address h,
          validate_u16 count k,
          header_packet_lem s laws,
          laws.pack_short,
          laws.pack_short,
          laws.pack_nil,
        )
        (ground arith)
  encode_lem read_discrete_inputs m address count v h k =
      rw
        (
          validate_u16 address h,
          validate_u16 count k,
          header_packet_lem s laws,
          laws.pack_short,
          laws.pack_short,
          laws.pack_nil,
        )
        (ground arith)

  decode_passed_lem :
      (kind : Kind) (m : Mbap) (address : ℕ) (char_signed : Bool) (xs : List Bool)
      (b : Base.Response) (c : ℕ) (old : List Bool)
      → 0 < length xs
      → length xs ≤ 2000
      → (decode_passed char_signed (answer_frame kind m xs) (record {
        base = b;
        request = request kind m address (length xs);
        count = c;
        bits = old;
      })).0
        ≡ throw bad_data
  unfolding decode_passed
  decode_passed_lem kind m address char_signed xs b c old h k =
      elim (Bool-cases (
        length (answer_frame kind m xs)
        == Request.response_size (request kind m address (length xs)))) [
          | inr size ↦ rw size
          | inl size ↦
              elim (Bool-cases (char_to_u16 char_signed ((length xs + 7) / 8) == length xs)) [
                | inr first ↦ rw (size, first)
                | inl first ↦ rw (
                  size,
                  first,
                  no_count char_signed (length xs) (length (unpack_bits (pack_bits xs))) h k
                      (length-unpack_bits (pack_bits xs) ∙ ap (λ n. 8 * n) (length-pack_bits xs))
                      first,
                )
              ]
        ]

  decode_lem :
      (kind : Kind) (m : Mbap) (address : ℕ) (char_signed : Bool) (xs : List Bool)
      → 0 < length xs
      → length xs ≤ 2000
      → (Base.decode s
          (derived char_signed)
          (answer_frame kind m xs)
          (Response.make kind (request kind m address (length xs)))).0
        ≡ throw bad_data
  decode_lem read_coils m address char_signed xs h k =
      decode-answer_bad s laws (derived char_signed) m _ 1 ((length xs + 7) / 8 ∷ pack_bits xs)
        (Response.make read_coils (request read_coils m address (length xs)))
        (record { transaction = refl; unit = refl }) (omega (arith, length-pack_bits xs)) refl
        (decode_passed_lem read_coils m address char_signed xs _ _ _ h k)
  decode_lem read_discrete_inputs m address char_signed xs h k =
      decode-answer_bad s laws (derived char_signed) m _ 2 ((length xs + 7) / 8 ∷ pack_bits xs)
        (Response.make read_discrete_inputs (request read_discrete_inputs m address (length xs)))
        (record { transaction = refl; unit = refl }) (omega (arith, length-pack_bits xs)) refl
        (decode_passed_lem read_discrete_inputs m address char_signed xs _ _ _ h k)

  -- A client that asks for bits that the server's block holds takes the answer for bad data,
  -- whatever they are and however many. Assumed: struc is big-endian, the numbers of the request
  -- fit their types, the block has a cell for each of its addresses and the counts are within the
  -- limits of the protocol.
  pub ask-read_bits :
      (kind : Kind) (char_signed : Bool) (m : Mbap) (address count : ℕ) (t : Table)
      → Frame.IsValid m
      → IsU16 address
      → IsValid (block kind t)
      → read_num_bits count ≡ true
      → InRange (block kind t) address count
      → ask s
          (derived char_signed)
          (Response.make kind)
          (Request.encode s)
          (asked kind m address count)
          t
        ≡ (throw bad_data, t)
  ask-read_bits kind char_signed m address count t v h b c i =
      let (xs, e, f) =
        handle_read_bits s laws kind (reply m 6) address count [] t (Frame.reply-IsValid m 6 v) h b
          c i in
      let l = take_exact-length count _ xs e in
      ask_throw s (derived char_signed) (Response.make kind) (Request.encode s) _ _ _ _ _ t t
        (encode_lem kind m address count v h (ground arith)) f
        (subst
          (λ n.
            (Base.decode s (derived char_signed) (answer_frame kind (reply m 6) xs)
              (Response.make kind (request kind (reply m 6) address n))).0
            ≡ throw bad_data)
          l
          (decode_lem kind (reply m 6) address char_signed xs (omega (arith, i.some_cell))
            (ground arith)))
