-- ===== src/RequestHandler/MaskWriting.antt =====
-- Requests to mask a register, from the packet to the answer.
use modbus_cpp.Prelude.{ℕ, ◌≡◌, ◌≢◌, refl, ◌∙◌, true, false, [], ◌∷◌, arith, u16, bit_and, bit_or}
use modbus_cpp.Types.{Packet, IsU16}
use modbus_cpp.Errors.{ok, throw, illegal_data_address}
use modbus_cpp.Struc.{Struc, IsBigEndian}
use modbus_cpp.Frame
use modbus_cpp.Frame.{Mbap, frame, reply, header_of}
use modbus_cpp.Table.{Table, with_holding_registers}
use modbus_cpp.Block
use modbus_cpp.Block.{Block}
use modbus_cpp.Block.Range.{IsValid, InRange, validate_in, validate_out}
use modbus_cpp.Block.One.{get_in, get-set_value}
use modbus_cpp.RegisterWrite.MaskWrite.Serve.{
  request_frame, decode_lem, encode_lem, execute_in, execute_out,
}
use modbus_cpp.RequestHandler.{handle, dispatch, serve_mask_write}
use modbus_cpp.RequestHandler.Answer.{handle-frame, on_exception_lem}

module _ (s : Struc) (laws : IsBigEndian s) where
  dispatch_lem : (p : Packet) (t : Table) → dispatch s 22 p t ≡ serve_mask_write s p t
  unfolding dispatch
  dispatch_lem p t = refl

  serve_in :
      (m : Mbap) (address and_mask or_mask old : ℕ) (rest : Packet) (t : Table) (b : Block ℕ)
      → Frame.IsValid m
      → IsU16 address
      → IsU16 and_mask
      → IsU16 or_mask
      → Block.validate t.holding_registers address ≡ ok true
      → Block.get t.holding_registers address ≡ ok old
      → Block.set_value t.holding_registers address (u16 (bit_or (bit_and old and_mask) or_mask))
        ≡ ok b
      → serve_mask_write s (request_frame m address and_mask or_mask rest) t
        ≡ (ok (request_frame (reply m 8) address and_mask or_mask []), with_holding_registers b t)
  unfolding serve_mask_write
  serve_in m address and_mask or_mask old rest t b v h k l c g e =
      let (p, q) = encode_lem s laws m address and_mask or_mask old t b v h k l g e in
      rw (
        decode_lem s laws m address and_mask or_mask 0 0 0 rest,
        execute_in s laws m address and_mask or_mask t k l c,
        p,
        q,
      )

  serve_out :
      (m : Mbap) (address and_mask or_mask : ℕ) (rest : Packet) (t : Table)
      → IsU16 and_mask
      → IsU16 or_mask
      → Block.validate t.holding_registers address ≡ ok false
      → serve_mask_write s (request_frame m address and_mask or_mask rest) t
        ≡ (throw (illegal_data_address 22 (header_of m)), t)
  unfolding serve_mask_write
  serve_out m address and_mask or_mask rest t k l c = rw (
    decode_lem s laws m address and_mask or_mask 0 0 0 rest,
    execute_out s laws m address and_mask or_mask t k l c,
  )

  -- The answer, if the register was `old` and the write leaves the block `b`.
  pub handle_mask_write_stored :
      (m : Mbap) (address and_mask or_mask old : ℕ) (rest : Packet) (t : Table) (b : Block ℕ)
      → Frame.IsValid m
      → IsU16 address
      → IsU16 and_mask
      → IsU16 or_mask
      → InRange t.holding_registers address 1
      → Block.get t.holding_registers address ≡ ok old
      → Block.set_value t.holding_registers address (u16 (bit_or (bit_and old and_mask) or_mask))
        ≡ ok b
      → handle s (request_frame m address and_mask or_mask rest) t
        ≡ (ok (request_frame (reply m 8) address and_mask or_mask []), with_holding_registers b t)
  handle_mask_write_stored m address and_mask or_mask old rest t b v h k l r g e =
      handle-frame s m 22 _ t
      ∙ rw (
        dispatch_lem,
        serve_in m address and_mask or_mask old rest t b v h k l
            (validate_in t.holding_registers address r) g e,
      )

  -- A request to mask a register of the block is answered with the request itself. The register
  -- becomes its old value AND the first mask, OR the second, and no other changes. Assumed: struc
  -- is big-endian, the numbers of the request fit their types and the block has a cell for each of
  -- its addresses.
  pub handle_mask_write :
      (m : Mbap) (address and_mask or_mask : ℕ) (rest : Packet) (t : Table)
      → Frame.IsValid m
      → IsU16 address
      → IsU16 and_mask
      → IsU16 or_mask
      → IsValid t.holding_registers
      → InRange t.holding_registers address 1
      → (old : ℕ) × (b : Block ℕ) × (Block.get t.holding_registers address ≡ ok old)
        × (handle s (request_frame m address and_mask or_mask rest) t ≡ (
          ok (request_frame (reply m 8) address and_mask or_mask []),
          with_holding_registers b t,
        ))
        × IsValid b
        × (Block.get b address ≡ ok (u16 (bit_or (bit_and old and_mask) or_mask)))
        × ((other : ℕ)
            → IsU16 other
            → other ≢ address
            → Block.get b other ≡ Block.get t.holding_registers other)
  handle_mask_write m address and_mask or_mask rest t v h k l w r =
      let (old, g, _) = get_in t.holding_registers address w h r in
      let (b, e, w', f, kept) =
        get-set_value t.holding_registers address (u16 (bit_or (bit_and old and_mask) or_mask)) w h
          r in
      (
        old,
        b,
        g,
        handle_mask_write_stored m address and_mask or_mask old rest t b v h k l r g e,
        w',
        f,
        kept,
      )

  -- A request to mask a register outside of the block is answered with exception 2, illegal data
  -- address, and changes nothing. Assumed: struc is big-endian and the numbers of the request fit
  -- their types.
  pub handle_mask_write_refused :
      (m : Mbap) (address and_mask or_mask : ℕ) (rest : Packet) (t : Table)
      → Frame.IsValid m
      → IsU16 and_mask
      → IsU16 or_mask
      → ¬ InRange t.holding_registers address 1
      → handle s (request_frame m address and_mask or_mask rest) t
        ≡ (ok (frame (reply m 3) 150 (2 ∷ [])), t)
  handle_mask_write_refused m address and_mask or_mask rest t v k l out =
      handle-frame s m 22 _ t
      ∙ rw
          (
            dispatch_lem,
            serve_out m address and_mask or_mask rest t k l
                (validate_out t.holding_registers address out),
          )
          (on_exception_lem s laws m 2 22 t v (omega arith) (omega arith))
