-- ===== src/Client/MaskWriting.antt =====
-- Clients that mask a register.
use modbus_cpp.Prelude.{ℕ, ◌≡◌, refl, ◌∙◌, ==-refl, [], arith, u16, bit_and, bit_or}
use modbus_cpp.Types.{IsU16}
use modbus_cpp.Errors.{ok}
use modbus_cpp.Struc.{Struc, IsBigEndian}
use modbus_cpp.Adu
use modbus_cpp.Adu.Wire.{header_packet_lem}
use modbus_cpp.Frame
use modbus_cpp.Frame.{Mbap, validate_u16, reply, word, decoded, unpack_three}
use modbus_cpp.Block
use modbus_cpp.Block.{Block}
use modbus_cpp.Block.Range.{IsValid, InRange}
use modbus_cpp.Table.{Table, with_holding_registers}
use modbus_cpp.RegisterWrite.MaskWrite.Request.{MaskWrite}
use modbus_cpp.RegisterWrite.MaskWrite.Request as Request
use modbus_cpp.RegisterWrite.MaskWrite.Response.{
  MaskWriteResponse, decode_passed, derived, copy_request,
}
use modbus_cpp.RegisterWrite.MaskWrite.Response as Response
use modbus_cpp.RegisterWrite.MaskWrite.Serve.{request, request_frame}
use modbus_cpp.Response as Base
use modbus_cpp.Response.Decode.{decode-answer}
use modbus_cpp.RequestHandler.MaskWriting.{handle_mask_write}
use modbus_cpp.Client.{ask, ask_lem}

-- The request, with the transaction and unit that the client gives it.
abbrev pub asked : Mbap → ℕ → ℕ → ℕ → MaskWrite
asked m address and_mask or_mask =
    Request.with_adu (Adu.initialize m.transaction m.unit (Adu.make 22 0 0))
      (Request.make address and_mask or_mask)

-- The response that the client ends up with.
abbrev filled : Mbap → ℕ → ℕ → ℕ → MaskWriteResponse
filled m address and_mask or_mask =
    let start = Response.make (request m address and_mask or_mask) in
    copy_request
      (Response.with_base (Base.with_adu (decoded (reply m 8) 22 start.base.adu) start.base) start)

module _ (s : Struc) (laws : IsBigEndian s) where
  encode_lem :
      (m : Mbap) (address and_mask or_mask : ℕ)
      → Frame.IsValid m
      → IsU16 address
      → IsU16 and_mask
      → IsU16 or_mask
      → Request.encode s (asked m address and_mask or_mask) ≡ (
        ok (request_frame (reply m 8) address and_mask or_mask []),
        request (reply m 8) address and_mask or_mask,
      )
  unfolding Request.encode
  encode_lem m address and_mask or_mask v h k l =
      rw
        (
          validate_u16 address h,
          header_packet_lem s laws,
          laws.pack_short,
          laws.pack_short,
          laws.pack_short,
          laws.pack_nil,
        )
        (ground arith)

  decode_passed_lem :
      (m : Mbap) (address and_mask or_mask : ℕ) (b : Base.Response) (x y z : ℕ)
      → decode_passed s (request_frame (reply m 8) address and_mask or_mask []) (record {
        base = b;
        request = request m address and_mask or_mask;
        address = x;
        and_mask = y;
        or_mask = z;
      })
        ≡ (
          ok tt,
          record {
            base = b;
            request = request m address and_mask or_mask;
            address = address;
            and_mask = and_mask;
            or_mask = or_mask;
          },
        )
  unfolding decode_passed
  decode_passed_lem m address and_mask or_mask b x y z =
      rw (unpack_three s laws (reply m 8), ==-refl address, ==-refl and_mask, ==-refl or_mask)

  decode_lem :
      (m : Mbap) (address and_mask or_mask : ℕ)
      → Base.decode s
          (derived s)
          (request_frame (reply m 8) address and_mask or_mask [])
          (Response.make (request m address and_mask or_mask))
        ≡ (ok tt, filled m address and_mask or_mask)
  decode_lem m address and_mask or_mask =
      decode-answer s laws (derived s) m 8 22 (word address (word and_mask (word or_mask []))) _
        (record { transaction = refl; unit = refl }) refl refl
      ∙ rw (decode_passed_lem m address and_mask or_mask)

  -- A client that masks a register of the server's block has the masks acknowledged, under the
  -- transaction and unit of its request. The register becomes its old value AND the first mask, OR
  -- the second. Assumed: struc is big-endian, the numbers of the request fit their types and the
  -- block has a cell for each of its addresses.
  pub ask-mask_write :
      (m : Mbap) (address and_mask or_mask : ℕ) (t : Table)
      → Frame.IsValid m
      → IsU16 address
      → IsU16 and_mask
      → IsU16 or_mask
      → IsValid t.holding_registers
      → InRange t.holding_registers address 1
      → (r : MaskWriteResponse) × (old : ℕ) × (b : Block ℕ) × (ask s
            (derived s)
            Response.make
            (Request.encode s)
            (asked m address and_mask or_mask)
            t
          ≡ (ok r, with_holding_registers b t))
        × (r.address ≡ address)
        × (r.and_mask ≡ and_mask)
        × (r.or_mask ≡ or_mask)
        × (r.base.adu.transaction ≡ m.transaction)
        × (r.base.adu.unit ≡ m.unit)
        × (Block.get t.holding_registers address ≡ ok old)
        × (Block.get b address ≡ ok (u16 (bit_or (bit_and old and_mask) or_mask)))
  ask-mask_write m address and_mask or_mask t v h k l w i =
      let (old, b, g, e, w', f, kept) =
        handle_mask_write s laws (reply m 8) address and_mask or_mask [] t
          (Frame.reply-IsValid m 8 v) h k l w i in
      (
        filled (reply m 8) address and_mask or_mask,
        old,
        b,
        ask_lem s (derived s) Response.make (Request.encode s) _ _ _ _ _ t _
            (encode_lem m address and_mask or_mask v h k l) e
            (decode_lem (reply m 8) address and_mask or_mask),
        refl,
        refl,
        refl,
        refl,
        refl,
        g,
        f,
      )
