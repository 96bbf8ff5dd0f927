-- ===== src/Client/ReadWriting.antt =====
-- Clients that write registers and then read some.
use modbus_cpp.Prelude.{
  ℕ, ◌+◌, ◌*◌, ◌<◌, ◌≤◌, ◌≡◌, ◌⊎◌, refl, subst, ◌∙◌, true, ◌==◌, ==-refl, u8, u16, [], ◌∷◌,
  append-nil, List, length, All, arith,
}
use modbus_cpp.Types.{IsU16}
use modbus_cpp.Errors.{ok}
use modbus_cpp.Struc.{Struc, IsBigEndian}
use modbus_cpp.Adu
use modbus_cpp.Adu.Wire.{header_packet_lem}
use modbus_cpp.Registers.{rounds}
use modbus_cpp.Frame
use modbus_cpp.Frame.{
  Mbap, frame, reply, words, decoded, pack_registers-words, unpack_registers-words, length-words,
  validate_u16,
}
use modbus_cpp.Block
use modbus_cpp.Block.{Block}
use modbus_cpp.Block.Range.{IsValid, InRange}
use modbus_cpp.Block.Kept.{length-get_slice}
use modbus_cpp.Table.{Table, with_holding_registers, read_num_regs, write_num_regs}
use modbus_cpp.RegisterWrite.ReadWrite.Request.{ReadWrite}
use modbus_cpp.RegisterWrite.ReadWrite.Request as Request
use modbus_cpp.RegisterWrite.ReadWrite.Response.{ReadWriteResponse, decode_passed, derived}
use modbus_cpp.RegisterWrite.ReadWrite.Response as Response
use modbus_cpp.RegisterWrite.ReadWrite.Serve.{request, request_frame, answer_frame}
use modbus_cpp.Response as Base
use modbus_cpp.Response.Decode.{decode-answer}
use modbus_cpp.RequestHandler.ReadWriting.{handle_read_write}
use modbus_cpp.Client.{ask, ask_lem}

-- The request, with the transaction and unit that the client gives it.
abbrev pub asked : Mbap → ℕ → ℕ → ℕ → List ℕ → ReadWrite
asked m read_address read_count write_address values =
    Request.with_adu (Adu.initialize m.transaction m.unit (Adu.make 23 0 0))
      (Request.make read_address read_count write_address (length values) values)

abbrev sent : Mbap → List ℕ → Mbap
sent m values = reply m (11 + 2 * length values)

-- The response that the client ends up with.
abbrev filled : Mbap → ℕ → ℕ → List ℕ → List ℕ → ReadWriteResponse
filled m read_address write_address values xs =
    let start = Response.make (request m read_address (length xs) write_address values) in
    record {
      base = Base.with_adu (decoded (reply m (3 + 2 * length xs)) 23 start.base.adu) start.base;
      request = start.request;
      count = 2 * length xs;
      registers = xs;
    }

module _ (s : Struc) (laws : IsBigEndian s) where
  encode_lem :
      (m : Mbap) (read_address read_count write_address : ℕ) (values : List ℕ)
      → Frame.IsValid m
      → IsU16 read_address
      → IsU16 read_count
      → IsU16 write_address
      → All IsU16 values
      → length values ≤ 123
      → Request.encode s (asked m read_address read_count write_address values) ≡ (
        ok (request_frame (sent m values) read_address read_count write_address values []),
        request (sent m values) read_address read_count write_address values,
      )
  unfolding Request.encode
  encode_lem m read_address read_count write_address values v h k l a i =
      rw
        (
          validate_u16 read_address h,
          validate_u16 read_count k,
          validate_u16 write_address l,
          validate_u16 (length values) (omega arith),
          header_packet_lem s laws,
          laws.pack_short,
          laws.pack_short,
          laws.pack_short,
          laws.pack_short,
          laws.pack_byte,
          laws.pack_nil,
          pack_registers-words s laws values a,
          append-nil,
        )
        (ground (arith, length-words values))

  decode_passed_lem :
      (m : Mbap) (read_address write_address : ℕ) (values xs : List ℕ) (b : Base.Response) (c : ℕ)
      (old : List ℕ)
      → length xs ≤ 125
      → decode_passed s (answer_frame m xs) (record {
        base = b;
        request = request m read_address (length xs) write_address values;
        count = c;
        registers = old;
      })
        ≡ (
          ok tt,
          record {
            base = b;
            request = request m read_address (length xs) write_address values;
            count = 2 * length xs;
            registers = xs;
          },
        )
  unfolding decode_passed
  decode_passed_lem m read_address write_address values xs b c old h = rw (
    size,
    byte_count (length xs) h,
    same_count (length xs) h,
    all_rounds (length xs) h,
    unpack_registers-words s laws (answer_frame m xs) 9 xs [] (rw append-nil),
    ==-refl (length xs),
  )
    where
      size : (length (answer_frame m xs) == u16 (8 + (1 + u8 (length xs * 2)))) ≡ true
      size = ground (arith, length-words xs)

      byte_count : (n : ℕ) → n ≤ 125 → u8 (2 * n) ≡ 2 * n
      byte_count n f = omega arith

      same_count : (n : ℕ) → n ≤ 125 → (2 * n == u8 (n * 2)) ≡ true
      same_count n f = ground arith

      all_rounds : (n : ℕ) → n ≤ 125 → rounds (2 * n) ≡ n
      all_rounds n f = omega arith

  decode_lem :
      (m : Mbap) (read_address write_address : ℕ) (values xs : List ℕ)
      → length xs ≤ 125
      → Base.decode s
          (derived s)
          (answer_frame m xs)
          (Response.make (request m read_address (length xs) write_address values))
        ≡ (ok tt, filled m read_address write_address values xs)
  decode_lem m read_address write_address values xs h =
      decode-answer s laws (derived s) m (3 + 2 * length xs) 23 (2 * length xs ∷ words xs) _
        (record { transaction = refl; unit = refl }) (omega (arith, length-words xs)) refl
      ∙ rw (decode_passed_lem m read_address write_address values xs _ _ _ h)

  -- A client that writes registers of the server's block and reads some has these in its response,
  -- under the transaction and unit of its request, with the values that they have after the write.
  -- Assumed: struc is big-endian, the numbers of the request fit their types, the block has a cell
  -- for each of its addresses, the registers fit 16 bits and the counts are within the limits of
  -- the protocol.
  pub ask-read_write :
      (m : Mbap) (read_address read_count write_address : ℕ) (values : List ℕ) (t : Table)
      → Frame.IsValid m
      → IsU16 read_address
      → IsU16 write_address
      → All IsU16 values
      → IsValid t.holding_registers
      → All IsU16 t.holding_registers.container
      → read_num_regs read_count ≡ true
      → write_num_regs (length values) ≡ true
      → InRange t.holding_registers read_address read_count
      → InRange t.holding_registers write_address (length values)
      → (r : ReadWriteResponse) × (b : Block ℕ) × (ask s
            (derived s)
            Response.make
            (Request.encode s)
            (asked m read_address read_count write_address values)
            t
          ≡ (ok r, with_holding_registers b t))
        × (Block.get_slice read_num_regs b read_address read_count ≡ ok r.registers)
        × (r.base.adu.transaction ≡ m.transaction)
        × (r.base.adu.unit ≡ m.unit)
        × (Block.get_slice write_num_regs b write_address (length values) ≡ ok values)
        × ((other : ℕ)
            → IsU16 other
            → (other < write_address) ⊎ (write_address + length values ≤ other)
            → Block.get b other ≡ Block.get t.holding_registers other)
  ask-read_write m read_address read_count write_address values t v h l a w u c d i j =
      let n = 11 + 2 * length values in
      let (xs, b, e, g, w', f, kept) =
        handle_read_write s laws (reply m n) read_address read_count write_address values [] t
          (Frame.reply-IsValid m n v) h l a w u c d i j in
      let q = length-get_slice read_num_regs b read_address read_count xs g in
      (
        filled (reply m n) read_address write_address values xs,
        b,
        ask_lem s (derived s) Response.make (Request.encode s) _ _ _ _ _ t _
            (encode_lem m read_address read_count write_address values v h (ground arith) l a
              (ground arith))
            e
            (subst
              (λ k.
                Base.decode s (derived s) (answer_frame (reply m n) xs)
                  (Response.make (request (reply m n) read_address k write_address values))
                ≡ (ok tt, filled (reply m n) read_address write_address values xs))
              q (decode_lem (reply m n) read_address write_address values xs (ground arith))),
        g,
        refl,
        refl,
        f,
        kept,
      )
