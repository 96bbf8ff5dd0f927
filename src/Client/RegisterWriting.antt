-- ===== src/Client/RegisterWriting.antt =====
-- Clients that write one register.
use modbus_cpp.Prelude.{ℕ, ◌≡◌, ◌≢◌, refl, ◌∙◌, ==-refl, [], arith}
use modbus_cpp.Types.{IsU16}
use modbus_cpp.Errors.{ok}
use modbus_cpp.Struc.{Struc, IsBigEndian}
use modbus_cpp.Adu
use modbus_cpp.Adu.Wire.{header_packet_lem}
use modbus_cpp.Frame
use modbus_cpp.Frame.{Mbap, validate_u16, reply, word, decoded, unpack_two}
use modbus_cpp.Block
use modbus_cpp.Block.{Block}
use modbus_cpp.Block.Range.{IsValid, InRange}
use modbus_cpp.Table.{Table, with_holding_registers}
use modbus_cpp.RegisterWrite.SingleRegister.Request.{WriteRegister}
use modbus_cpp.RegisterWrite.SingleRegister.Request as Request
use modbus_cpp.RegisterWrite.SingleRegister.Response.{
  WriteRegisterResponse, decode_passed, derived, copy_request,
}
use modbus_cpp.RegisterWrite.SingleRegister.Response as Response
use modbus_cpp.RegisterWrite.SingleRegister.Serve.{request, request_frame}
use modbus_cpp.Response as Base
use modbus_cpp.Response.Decode.{decode-answer}
use modbus_cpp.RequestHandler.RegisterWriting.{handle_write_register}
use modbus_cpp.Client.{ask, ask_lem}

-- The request, with the transaction and unit that the client gives it.
abbrev pub asked : Mbap → ℕ → ℕ → WriteRegister
asked m address value =
    Request.with_adu (Adu.initialize m.transaction m.unit (Adu.make 6 0 0))
      (Request.make address value)

-- The response that the client ends up with.
abbrev filled : Mbap → ℕ → ℕ → WriteRegisterResponse
filled m address value =
    let start = Response.make (request m address value) in
    copy_request
      (Response.with_base (Base.with_adu (decoded (reply m 6) 6 start.base.adu) start.base) start)

module _ (s : Struc) (laws : IsBigEndian s) where
  encode_lem :
      (m : Mbap) (address value : ℕ)
      → Frame.IsValid m
      → IsU16 address
      → IsU16 value
      → Request.encode s (asked m address value)
        ≡ (ok (request_frame (reply m 6) address value []), request (reply m 6) address value)
  unfolding Request.encode
  encode_lem m address value v h k =
      rw
        (
          validate_u16 address h,
          header_packet_lem s laws,
          laws.pack_short,
          laws.pack_short,
          laws.pack_nil,
        )
        (ground arith)

  decode_passed_lem :
      (m : Mbap) (address value : ℕ) (b : Base.Response) (x y : ℕ)
      → decode_passed s
          (request_frame (reply m 6) address value [])
          (record { base = b; request = request m address value; address = x; value = y })
        ≡ (
          ok tt,
          record { base = b; request = request m address value; address = address; value = value },
        )
  unfolding decode_passed
  decode_passed_lem m address value b x y =
      rw (unpack_two s laws (reply m 6), ==-refl address, ==-refl value)

  decode_lem :
      (m : Mbap) (address value : ℕ)
      → Base.decode s
          (derived s)
          (request_frame (reply m 6) address value [])
          (Response.make (request m address value))
        ≡ (ok tt, filled m address value)
  decode_lem m address value =
      decode-answer s laws (derived s) m 6 6 (word address (word value [])) _
        (record { transaction = refl; unit = refl }) refl refl
      ∙ rw (decode_passed_lem m address value)

  -- A client that writes a register of the server's block has the value acknowledged, under the
  -- transaction and unit of its request. The register then reads back, and no other changes.
  -- Assumed: struc is big-endian, the numbers of the request fit their types and the block has a
  -- cell for each of its addresses.
  pub ask-write_register :
      (m : Mbap) (address value : ℕ) (t : Table)
      → Frame.IsValid m
      → IsU16 address
      → IsU16 value
      → IsValid t.holding_registers
      → InRange t.holding_registers address 1
      → (r : WriteRegisterResponse) × (b : Block ℕ) × (ask s
            (derived s)
            Response.make
            (Request.encode s)
            (asked m address value)
            t
          ≡ (ok r, with_holding_registers b t))
        × (r.address ≡ address)
        × (r.value ≡ value)
        × (r.base.adu.transaction ≡ m.transaction)
        × (r.base.adu.unit ≡ m.unit)
        × (Block.get b address ≡ ok value)
        × ((other : ℕ)
            → IsU16 other
            → other ≢ address
            → Block.get b other ≡ Block.get t.holding_registers other)
  ask-write_register m address value t v h k w i =
      let (b, e, w', f, kept) =
        handle_write_register s laws (reply m 6) address value [] t (Frame.reply-IsValid m 6 v) h k
          w i in
      (
        filled (reply m 6) address value,
        b,
        ask_lem s (derived s) Response.make (Request.encode s) _ _ _ _ _ t _
            (encode_lem m address value v h k) e (decode_lem (reply m 6) address value),
        refl,
        refl,
        refl,
        refl,
        f,
        kept,
      )
