-- ===== src/Client/CoilWriting.antt =====
-- Clients that write one coil.
use modbus_cpp.Prelude.{ℕ, ◌≡◌, ◌≢◌, refl, ◌∙◌, Bool, true, false, ==-refl, subst, sym, [], arith}
use modbus_cpp.Types.{IsU16}
use modbus_cpp.Errors.{ok, throw, bad_data}
use modbus_cpp.Struc.{Struc, IsBigEndian}
use modbus_cpp.Adu
use modbus_cpp.Adu.Wire.{header_packet_lem}
use modbus_cpp.Frame
use modbus_cpp.Frame.{Mbap, reply, word, decoded, unpack_two, validate_u16}
use modbus_cpp.Block
use modbus_cpp.Block.{Block}
use modbus_cpp.Block.Range.{IsValid, InRange}
use modbus_cpp.Table.{Table, with_coils}
use modbus_cpp.BitWrite.SingleCoil.Request.{WriteCoil}
use modbus_cpp.BitWrite.SingleCoil.Request as Request
use modbus_cpp.BitWrite.SingleCoil.Response.{WriteCoilResponse, decode_passed, derived}
use modbus_cpp.BitWrite.SingleCoil.Response as Response
use modbus_cpp.BitWrite.SingleCoil.Serve.{request, request_frame, bits_value}
use modbus_cpp.Response as Base
use modbus_cpp.Response.Decode.{decode-answer, decode-answer_bad}
use modbus_cpp.RequestHandler.CoilWriting.{handle_write_coil}
use modbus_cpp.Client.{ask, ask_lem, ask_throw}

-- The request, with the transaction and unit that the client gives it.
abbrev pub asked : Mbap → ℕ → Bool → WriteCoil
asked m address on =
    Request.with_adu (Adu.initialize m.transaction m.unit (Adu.make 5 0 0))
      (Request.make address (bits_value on))

-- The response that the client ends up with.
abbrev filled : Mbap → ℕ → Bool → WriteCoilResponse
filled m address on =
    let start = Response.make (request m address on) in
    Response.store_value (bits_value on)
      (Response.with_base (Base.with_adu (decoded (reply m 6) 5 start.base.adu) start.base) start)

module _ (s : Struc) (laws : IsBigEndian s) where
  encode_lem :
      (m : Mbap) (address : ℕ) (on : Bool)
      → Frame.IsValid m
      → IsU16 address
      → Request.encode s (asked m address on)
        ≡ (ok (request_frame (reply m 6) address on []), request (reply m 6) address on)
  unfolding Request.encode
  encode_lem m address true v h =
      rw
        (
          validate_u16 address h,
          header_packet_lem s laws,
          laws.pack_short,
          laws.pack_short,
          laws.pack_nil,
        )
        (ground arith)
  encode_lem m address false v h =
      rw
        (
          validate_u16 address h,
          header_packet_lem s laws,
          laws.pack_short,
          laws.pack_short,
          laws.pack_nil,
        )
        (ground arith)

  decode_passed_same :
      (m : Mbap) (address : ℕ) (on : Bool) (b : Base.Response) (x : ℕ)
      → decode_passed s
          (request_frame (reply m 6) address on [])
          (record { base = b; request = request m address on; value = x })
        ≡ (ok tt, record { base = b; request = request m address on; value = bits_value on })
  unfolding decode_passed
  decode_passed_same m address true b x = rw (unpack_two s laws (reply m 6), ==-refl address)
  decode_passed_same m address false b x = rw (unpack_two s laws (reply m 6), ==-refl address)

  decode_passed_changed :
      (m : Mbap) (address : ℕ) (on old : Bool) (b : Base.Response) (x : ℕ)
      → old ≢ on
      → (decode_passed s
          (request_frame (reply m 6) address old [])
          (record { base = b; request = request m address on; value = x })).0
        ≡ throw bad_data
  unfolding decode_passed
  decode_passed_changed m address true true b x h = absurd (h refl)
  decode_passed_changed m address true false b x h =
      rw (unpack_two s laws (reply m 6), ==-refl address)
  decode_passed_changed m address false true b x h =
      rw (unpack_two s laws (reply m 6), ==-refl address)
  decode_passed_changed m address false false b x h = absurd (h refl)

  decode_same :
      (m : Mbap) (address : ℕ) (on : Bool)
      → Base.decode s
          (derived s)
          (request_frame (reply m 6) address on [])
          (Response.make (request m address on))
        ≡ (ok tt, filled m address on)
  decode_same m address on =
      decode-answer s laws (derived s) m 6 5 (word address (word (bits_value on) [])) _
        (record { transaction = refl; unit = refl }) refl refl
      ∙ rw (decode_passed_same m address on)

  decode_changed :
      (m : Mbap) (address : ℕ) (on old : Bool)
      → old ≢ on
      → (Base.decode s
          (derived s)
          (request_frame (reply m 6) address old [])
          (Response.make (request m address on))).0
        ≡ throw bad_data
  decode_changed m address on old h =
      decode-answer_bad s laws (derived s) m 6 5 (word address (word (bits_value old) []))
        (Response.make (request m address on)) (record { transaction = refl; unit = refl }) refl
        refl (decode_passed_changed m address on old _ _ h)

  -- A client that writes a coil of the server's block has the value acknowledged if the coil had
  -- that value already; if the write changes the coil, the client takes the answer for bad data.
  -- The coil is written in both cases: it then reads back, and no other changes. Assumed: struc is
  -- big-endian, the numbers of the request fit their types and the block has a cell for each of
  -- its addresses.
  pub ask-write_coil :
      (m : Mbap) (address : ℕ) (on : Bool) (t : Table)
      → Frame.IsValid m
      → IsU16 address
      → IsValid t.coils
      → InRange t.coils address 1
      → (old : Bool) × (b : Block Bool) × (Block.get t.coils address ≡ ok old)
        × (old ≡ on
            → (r : WriteCoilResponse) × (ask s
                  (derived s)
                  Response.make
                  (Request.encode s)
                  (asked m address on)
                  t
                ≡ (ok r, with_coils b t))
              × (r.value ≡ bits_value on))
        × (old ≢ on
            → ask s (derived s) Response.make (Request.encode s) (asked m address on) t
              ≡ (throw bad_data, with_coils b t))
        × (Block.get b address ≡ ok on)
        × ((other : ℕ)
            → IsU16 other
            → other ≢ address
            → Block.get b other ≡ Block.get t.coils other)
  ask-write_coil m address on t v h w i =
      let (old, b, g, e, w', f, kept) =
        handle_write_coil s laws (reply m 6) address on [] t (Frame.reply-IsValid m 6 v) h w i in
      let unchanged : old ≡ on
          → Base.decode s (derived s) (request_frame (reply m 6) address old [])
              (Response.make (request (reply m 6) address on))
            ≡ (ok tt, filled (reply m 6) address on) =
        λ same.
          subst
            (λ z.
              Base.decode s (derived s) (request_frame (reply m 6) address z [])
                (Response.make (request (reply m 6) address on))
              ≡ (ok tt, filled (reply m 6) address on))
            (sym same) (decode_same (reply m 6) address on) in
      (
        old,
        b,
        g,
        (λ same. (
          filled (reply m 6) address on,
          ask_lem s (derived s) Response.make (Request.encode s) _ _ _ _ _ t _
              (encode_lem m address on v h) e (unchanged same),
          refl,
        )),
        (λ ne.
            ask_throw s (derived s) Response.make (Request.encode s) _ _ _ _ _ t _
              (encode_lem m address on v h) e (decode_changed (reply m 6) address on old ne)),
        f,
        kept,
      )
