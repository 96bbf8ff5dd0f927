-- ===== src/Client/RegistersWriting.antt =====
-- Clients that write several registers.
use modbus_cpp.Prelude.{
  ℕ, ◌+◌, ◌*◌, ◌<◌, ◌≤◌, ◌≡◌, ◌⊎◌, refl, ◌∙◌, true, ==-refl, [], append-nil, List, length, All,
  arith,
}
use modbus_cpp.Types.{IsU16}
use modbus_cpp.Errors.{ok}
use modbus_cpp.Struc.{Struc, IsBigEndian}
use modbus_cpp.Adu
use modbus_cpp.Adu.Wire.{header_packet_lem}
use modbus_cpp.Frame
use modbus_cpp.Frame.{
  Mbap, frame, reply, word, words, decoded, unpack_two, pack_registers-words, length-words,
  validate_u16,
}
use modbus_cpp.Block
use modbus_cpp.Block.{Block}
use modbus_cpp.Block.Range.{IsValid, InRange}
use modbus_cpp.Table.{Table, with_holding_registers, write_num_regs}
use modbus_cpp.RegisterWrite.MultipleRegisters.Request.{WriteRegisters}
use modbus_cpp.RegisterWrite.MultipleRegisters.Request as Request
use modbus_cpp.RegisterWrite.MultipleRegisters.Response.{
  WriteRegistersResponse, decode_passed, derived,
}
use modbus_cpp.RegisterWrite.MultipleRegisters.Response as Response
use modbus_cpp.RegisterWrite.MultipleRegisters.Serve.{request, request_frame}
use modbus_cpp.Response as Base
use modbus_cpp.Response.Decode.{decode-answer}
use modbus_cpp.RequestHandler.RegisterWriting.{handle_write_registers}
use modbus_cpp.Client.{ask, ask_lem}

-- The request, with the transaction and unit that the client gives it.
abbrev pub asked : Mbap → ℕ → List ℕ → WriteRegisters
asked m address values =
    Request.with_adu (Adu.initialize m.transaction m.unit (Adu.make 16 0 0))
      (Request.make address (length values) values)

abbrev sent : Mbap → List ℕ → Mbap
sent m values = reply m (7 + 2 * length values)

-- The response that the client ends up with.
abbrev filled : Mbap → ℕ → List ℕ → WriteRegistersResponse
filled m address values =
    let start = Response.make (request m address values) in
    Response.store (address, (length values, tt))
      (Response.with_base (Base.with_adu (decoded (reply m 6) 16 start.base.adu) start.base) start)

module _ (s : Struc) (laws : IsBigEndian s) where
  pub encode_lem :
      (m : Mbap) (address : ℕ) (values : List ℕ)
      → Frame.IsValid m
      → IsU16 address
      → All IsU16 values
      → length values ≤ 123
      → Request.encode s (asked m address values) ≡ (
        ok (request_frame (sent m values) address values []),
        request (sent m values) address values,
      )
  unfolding Request.encode
  encode_lem m address values v h a k =
      rw
        (
          validate_u16 address h,
          validate_u16 (length values) (omega arith),
          header_packet_lem s laws,
          laws.pack_short,
          laws.pack_short,
          laws.pack_byte,
          laws.pack_nil,
          pack_registers-words s laws values a,
          append-nil,
        )
        (ground (arith, length-words values))

  decode_passed_lem :
      (m : Mbap) (address : ℕ) (values : List ℕ) (b : Base.Response) (x y : ℕ)
      → decode_passed s
          (frame (reply m 6) 16 (word address (word (length values) [])))
          (record { base = b; request = request m address values; address = x; count = y })
        ≡ (
          ok tt,
          record {
            base = b;
            request = request m address values;
            address = address;
            count = length values;
          },
        )
  unfolding decode_passed
  decode_passed_lem m address values b x y =
      rw (unpack_two s laws (reply m 6), ==-refl address, ==-refl (length values))

  decode_lem :
      (m : Mbap) (address : ℕ) (values : List ℕ)
      → Base.decode s
          (derived s)
          (frame (reply m 6) 16 (word address (word (length values) [])))
          (Response.make (request m address values))
        ≡ (ok tt, filled m address values)
  decode_lem m address values =
      decode-answer s laws (derived s) m 6 16 (word address (word (length values) [])) _
        (record { transaction = refl; unit = refl }) refl refl
      ∙ rw (decode_passed_lem m address values)

  -- A client that writes registers of the server's block has their address and number
  -- acknowledged, under the transaction and unit of its request. They then read back, and no other
  -- changes. Assumed: struc is big-endian, the numbers of the request fit their types, the block
  -- has a cell for each of its addresses and the counts are within the limits of the protocol.
  pub ask-write_registers :
      (m : Mbap) (address : ℕ) (values : List ℕ) (t : Table)
      → Frame.IsValid m
      → IsU16 address
      → All IsU16 values
      → IsValid t.holding_registers
      → write_num_regs (length values) ≡ true
      → InRange t.holding_registers address (length values)
      → (r : WriteRegistersResponse) × (b : Block ℕ) × (ask s
            (derived s)
            Response.make
            (Request.encode s)
            (asked m address values)
            t
          ≡ (ok r, with_holding_registers b t))
        × (r.address ≡ address)
        × (r.count ≡ length values)
        × (r.base.adu.transaction ≡ m.transaction)
        × (r.base.adu.unit ≡ m.unit)
        × (Block.get_slice write_num_regs b address (length values) ≡ ok values)
        × ((other : ℕ)
            → IsU16 other
            → (other < address) ⊎ (address + length values ≤ other)
            → Block.get b other ≡ Block.get t.holding_registers other)
  ask-write_registers m address values t v h a w c i =
      let n = 7 + 2 * length values in
      let (b, e, w', f, kept) =
        handle_write_registers s laws (reply m n) address values [] t (Frame.reply-IsValid m n v) h
          w c i in
      (
        filled (reply m n) address values,
        b,
        ask_lem s (derived s) Response.make (Request.encode s) _ _ _ _ _ t _
            (encode_lem m address values v h a (ground arith)) e
            (decode_lem (reply m n) address values),
        refl,
        refl,
        refl,
        refl,
        f,
        kept,
      )
