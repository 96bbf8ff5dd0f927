-- ===== src/Client/Registers.antt =====
-- Clients that read registers.
use modbus_cpp.Prelude.{
  ℕ, ◌+◌, ◌-◌, ◌*◌, ◌≤◌, ◌≡◌, refl, ap, ◌∙◌, Bool, true, false, ◌==◌, u16, [], ◌∷◌, List, some,
  length, drop, take_exact, arith, All, ==-refl, take_exact-length, subst, sym, append-nil,
}
use modbus_cpp.Types.{IsU16, char_to_u16}
use modbus_cpp.Errors.{ok}
use modbus_cpp.Struc.{Struc, IsBigEndian}
use modbus_cpp.Adu
use modbus_cpp.Adu.Wire.{header_packet_lem}
use modbus_cpp.Frame
use modbus_cpp.Frame.{
  Mbap, validate_u16, frame, reply, words, decoded, length-words, unpack_registers-words,
}
use modbus_cpp.Block.Range.{IsValid, InRange}
use modbus_cpp.Table.{Table, read_num_regs}
use modbus_cpp.RegisterRead.Request.{
  Kind, code, block, ReadRegisters, read_holding_registers, read_input_registers,
}
use modbus_cpp.RegisterRead.Request as Request
use modbus_cpp.RegisterRead.Response.{ReadRegistersResponse, decode_passed, derived}
use modbus_cpp.RegisterRead.Response as Response
use modbus_cpp.RegisterRead.Serve.{request, request_frame, answer_frame}
use modbus_cpp.Registers.{rounds}
use modbus_cpp.Response as Base
use modbus_cpp.Response.Decode.{decode-answer}
use modbus_cpp.RequestHandler.RegisterReading.{handle_read_registers}
use modbus_cpp.Client.{ask, ask_lem}

-- The request, with the transaction and unit that the client gives it.
abbrev pub asked : Kind → Mbap → ℕ → ℕ → ReadRegisters
asked kind m address count =
    Request.with_adu (Adu.initialize m.transaction m.unit (Adu.make (code kind) 0 0))
      (Request.make kind address count)

module _ (s : Struc) (laws : IsBigEndian s) where
  pub encode_lem :
      (kind : Kind) (m : Mbap) (address count : ℕ)
      → Frame.IsValid m
      → IsU16 address
      → IsU16 count
      → Request.encode s (asked kind m address count) ≡ (
        ok (request_frame kind (reply m 6) address count []),
        request kind (reply m 6) address count,
      )
  unfolding Request.encode
  encode_lem read_holding_registers m address count v h k =
      rw
        (
          validate_u16 address h,
          validate_u16 count k,
          header_packet_lem s laws,
          laws.pack_short,
          laws.pack_short,
          laws.pack_nil,
        )
        (ground arith)
  encode_lem read_input_registers m address count v h k =
      rw
        (
          validate_u16 address h,
          validate_u16 count k,
          header_packet_lem s laws,
          laws.pack_short,
          laws.pack_short,
          laws.pack_nil,
        )
        (ground arith)

  -- The count of bytes is read as a `char`: it is right if that is unsigned, or below 128.
  decode_passed_lem :
      (kind : Kind) (m : Mbap) (address : ℕ) (char_signed : Bool) (xs : List ℕ) (b : Base.Response)
      (c : ℕ) (old : List ℕ)
      → length xs ≤ 125
      → (char_signed ≡ true → length xs ≤ 63)
      → decode_passed s char_signed (answer_frame kind m xs) (record {
        base = b;
        request = request kind m address (length xs);
        count = c;
        registers = old;
      })
        ≡ (
          ok tt,
          record {
            base = b;
            request = request kind m address (length xs);
            count = 2 * length xs;
            registers = xs;
          },
        )
  unfolding decode_passed
  decode_passed_lem kind m address char_signed xs b c old h k = rw (
    size,
    unsigned char_signed (length xs) k,
    same_count (length xs) h,
    all_rounds (length xs) h,
    unpack_registers-words s laws (answer_frame kind m xs) 9 xs [] (rw append-nil),
    ==-refl (length xs),
  )
    where
      size : (length (answer_frame kind m xs) == u16 (8 + (1 + u16 (length xs * 2)))) ≡ true
      size = ground (arith, length-words xs)

      unsigned :
          (signed : Bool) (n : ℕ) → (signed ≡ true → n ≤ 63) → char_to_u16 signed (2 * n) ≡ 2 * n
      unsigned true n f = let small = f refl in ground arith
      unsigned false n f = refl

      same_count : (n : ℕ) → n ≤ 125 → (2 * n == u16 (n * 2)) ≡ true
      same_count n f = ground arith

      all_rounds : (n : ℕ) → n ≤ 125 → rounds (u16 (n * 2)) ≡ n
      all_rounds n f = omega arith

  abbrev filled : Kind → Mbap → ℕ → List ℕ → ReadRegistersResponse
  filled kind m address xs =
      let start = Response.make kind (request kind m address (length xs)) in
      record {
        base =
            Base.with_adu (decoded (reply m (3 + 2 * length xs)) (code kind) start.base.adu)
              start.base;
        request = start.request;
        count = 2 * length xs;
        registers = xs;
      }

  -- What the client makes of the answer.
  abbrev Understood : Kind → Bool → Mbap → ℕ → ℕ → List ℕ → ReadRegistersResponse → Type 0
  Understood kind char_signed m address count xs r =
      (Base.decode s (derived s char_signed) (answer_frame kind m xs)
          (Response.make kind (request kind m address count))
        ≡ (ok tt, r))
      × (r.registers ≡ xs)
      × (r.base.adu.transaction ≡ m.transaction)
      × (r.base.adu.unit ≡ m.unit)

  decode_lem :
      (kind : Kind) (char_signed : Bool) (m : Mbap) (address : ℕ) (xs : List ℕ)
      → length xs ≤ 125
      → (char_signed ≡ true → length xs ≤ 63)
      → (r : ReadRegistersResponse) × Understood kind char_signed m address (length xs) xs r
  decode_lem read_holding_registers char_signed m address xs h k = (
    filled read_holding_registers m address xs,
    (
      decode-answer s laws (derived s char_signed) m (3 + 2 * length xs) 3
            (2 * length xs ∷ words xs) _ (record { transaction = refl; unit = refl })
            (omega (arith, length-words xs)) refl
          ∙ rw (decode_passed_lem read_holding_registers m address char_signed xs _ 0 [] h k),
      refl,
      refl,
      refl,
    ),
  )
  decode_lem read_input_registers char_signed m address xs h k = (
    filled read_input_registers m address xs,
    (
      decode-answer s laws (derived s char_signed) m (3 + 2 * length xs) 4
            (2 * length xs ∷ words xs) _ (record { transaction = refl; unit = refl })
            (omega (arith, length-words xs)) refl
          ∙ rw (decode_passed_lem read_input_registers m address char_signed xs _ 0 [] h k),
      refl,
      refl,
      refl,
    ),
  )

  -- A client that asks for registers that the server's block holds has them in its response, under
  -- the transaction and unit of its request, and the server's table stays as it was. If a `char`
  -- is signed, this holds for at most 63 registers. Assumed: struc is big-endian, the numbers of
  -- the request fit their types, the block has a cell for each of its addresses, the registers fit
  -- 16 bits and the counts are within the limits of the protocol.
  pub ask-read_registers :
      (kind : Kind) (char_signed : Bool) (m : Mbap) (address count : ℕ) (t : Table)
      → Frame.IsValid m
      → IsU16 address
      → IsValid (block kind t)
      → All IsU16 (block kind t).container
      → read_num_regs count ≡ true
      → InRange (block kind t) address count
      → (char_signed ≡ true → count ≤ 63)
      → (r : ReadRegistersResponse) × (ask s
            (derived s char_signed)
            (Response.make kind)
            (Request.encode s)
            (asked kind m address count)
            t
          ≡ (ok r, t))
        × (take_exact count
              (drop (address - (block kind t).starting_address) (block kind t).container)
            ≡ some r.registers)
        × (r.base.adu.transaction ≡ m.transaction)
        × (r.base.adu.unit ≡ m.unit)
  ask-read_registers kind char_signed m address count t v h b w c i k =
      let v' = Frame.reply-IsValid m 6 v in
      let (xs, e, f) =
        handle_read_registers s laws kind (reply m 6) address count [] t v' h b w c i in
      let l = take_exact-length count _ xs e in
      let (r, (d, x, y, z)) =
        subst
          (λ n.
            (r : ReadRegistersResponse) × Understood kind char_signed (reply m 6) address n xs r)
          l
          (decode_lem kind char_signed (reply m 6) address xs (ground arith)
            (λ g. omega (arith, k g))) in
      (
        r,
        ask_lem s (derived s char_signed) (Response.make kind) (Request.encode s) _ _ _ _ r t t
            (encode_lem kind m address count v h (ground arith)) f d,
        e ∙ ap some (sym x),
        y,
        z,
      )
