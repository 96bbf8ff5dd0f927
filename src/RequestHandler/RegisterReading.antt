-- ===== src/RequestHandler/RegisterReading.antt =====
-- Requests to read registers, from the packet to the answer.
use modbus_cpp.Prelude.{
  ℕ, ◌+◌, ◌-◌, ◌<◌, ◌≤◌, ◌≡◌, refl, ◌∙◌, true, false, [], ◌∷◌, List, some, drop, length, take_exact,
  take_exact_gt, arith, All, All-drop, All-take_exact,
}
use modbus_cpp.Types.{Packet, IsU16}
use modbus_cpp.Errors.{ok, throw, undefined, illegal_data_address}
use modbus_cpp.Struc.{Struc, IsBigEndian, unpack_at}
use modbus_cpp.Frame
use modbus_cpp.Frame.{Mbap, frame, reply, header_of, decode_header-frame}
use modbus_cpp.Table.{Table, read_num_regs}
use modbus_cpp.Block
use modbus_cpp.Block.Range.{IsValid, InRange, validate_count_in, validate_count_out}
use modbus_cpp.Block.Cells.{get_slice_in}
use modbus_cpp.RegisterRead.Request.{
  Kind, code, block, read_holding_registers, read_input_registers,
}
use modbus_cpp.RegisterRead.Request as Request
use modbus_cpp.RegisterRead.Serve.{
  request_frame, answer_frame, decode_lem, encode_lem, execute_in, execute_out,
}
use modbus_cpp.RequestHandler.{handle, dispatch, serve_read_registers}
use modbus_cpp.RequestHandler.Answer.{handle-frame, on_exception_lem}

module _ (s : Struc) (laws : IsBigEndian s) where
  dispatch_lem :
      (kind : Kind) (p : Packet) (t : Table)
      → dispatch s (code kind) p t ≡ serve_read_registers s kind p t
  unfolding dispatch
  dispatch_lem read_holding_registers p t = refl
  dispatch_lem read_input_registers p t = refl

  serve_in :
      (kind : Kind) (m : Mbap) (address count : ℕ) (rest : Packet) (t : Table) (xs : List ℕ)
      → Frame.IsValid m
      → IsU16 count
      → All IsU16 xs
      → length xs ≤ 125
      → length xs ≡ count
      → Block.validate_count read_num_regs (block kind t) address count ≡ ok true
      → Block.get_slice read_num_regs (block kind t) address count ≡ ok xs
      → serve_read_registers s kind (request_frame kind m address count rest) t
        ≡ (ok (answer_frame kind m xs), t)
  unfolding serve_read_registers
  serve_in kind m address count rest t xs v h w l n c e = rw (
    decode_lem s laws kind m address count rest,
    execute_in s laws kind m address count t h c,
    encode_lem s laws kind m address count t xs v w l n e,
  )

  serve_out :
      (kind : Kind) (m : Mbap) (address count : ℕ) (rest : Packet) (t : Table)
      → IsU16 count
      → Block.validate_count read_num_regs (block kind t) address count ≡ ok false
      → serve_read_registers s kind (request_frame kind m address count rest) t
        ≡ (throw (illegal_data_address (code kind) (header_of m)), t)
  unfolding serve_read_registers
  serve_out kind m address count rest t h c =
      rw
        (decode_lem s laws kind m address count rest, execute_out s laws kind m address count t h c)

  -- A request for registers that lie in the block is answered with their values, under the
  -- request's transaction and unit, and the table stays as it was. Assumed: struc is big-endian,
  -- the numbers of the request fit their types, the block has a cell for each of its addresses,
  -- the registers fit 16 bits and the counts are within the limits of the protocol.
  pub handle_read_registers :
      (kind : Kind) (m : Mbap) (address count : ℕ) (rest : Packet) (t : Table)
      → Frame.IsValid m
      → IsU16 address
      → IsValid (block kind t)
      → All IsU16 (block kind t).container
      → read_num_regs count ≡ true
      → InRange (block kind t) address count
      → (xs : List ℕ) × (take_exact count
            (drop (address - (block kind t).starting_address) (block kind t).container)
          ≡ some xs)
        × (handle s (request_frame kind m address count rest) t ≡ (ok (answer_frame kind m xs), t))
  handle_read_registers kind m address count rest t v h b w c r =
      let (xs, e, f, l) = get_slice_in read_num_regs (block kind t) address count b h c r in
      (
        xs,
        f,
        handle-frame s m (code kind) _ t
            ∙ rw (
              dispatch_lem kind,
              serve_in kind m address count rest t xs v (ground arith)
                  (All-take_exact IsU16 count _ xs f (All-drop IsU16 _ _ w)) (ground arith) l
                  (validate_count_in read_num_regs (block kind t) address count c r) e,
            ),
      )

  code-lt : (kind : Kind) → code kind < 128
  code-lt read_holding_registers = omega arith
  code-lt read_input_registers = omega arith

  -- Any other count or address is answered with exception 2, illegal data address: also a count of
  -- 0 or above 125. Assumed: struc is big-endian and the numbers of the request fit their types.
  pub handle_read_registers_refused :
      (kind : Kind) (m : Mbap) (address count : ℕ) (rest : Packet) (t : Table)
      → Frame.IsValid m
      → IsU16 count
      → ¬ (InRange (block kind t) address count × (read_num_regs count ≡ true))
      → handle s (request_frame kind m address count rest) t
        ≡ (ok (frame (reply m 3) (code kind + 128) (2 ∷ [])), t)
  handle_read_registers_refused kind m address count rest t v h out =
      handle-frame s m (code kind) _ t
      ∙ rw
          (
            dispatch_lem kind,
            serve_out kind m address count rest t h (
                validate_count_out read_num_regs (block kind t) address count (λ c. ground arith)
                  out),
          )
          (on_exception_lem s laws m 2 (code kind) t v (omega arith) (code-lt kind))

  unpack_short_body :
      (m : Mbap) (function : ℕ) (body : Packet)
      → length body < 4
      → unpack_at s Request.format (frame m function body) 8 ≡ undefined
  unfolding unpack_at
  unpack_short_body m function body h = rw (take_exact_gt 4 body h)

  serve_short :
      (kind : Kind) (m : Mbap) (body : Packet) (t : Table)
      → length body < 4
      → serve_read_registers s kind (frame m (code kind) body) t ≡ (undefined, t)
  unfolding serve_read_registers Request.decode
  serve_short read_holding_registers m body t h =
      rw (decode_header-frame s laws, unpack_short_body m 3 body h)
  serve_short read_input_registers m body t h =
      rw (decode_header-frame s laws, unpack_short_body m 4 body h)

  -- A request that ends before its address and count makes the server read past the end of the
  -- packet. Assumed: struc is big-endian.
  pub handle_read_registers_short :
      (kind : Kind) (m : Mbap) (body : Packet) (t : Table)
      → length body < 4
      → handle s (frame m (code kind) body) t ≡ (undefined, t)
  handle_read_registers_short kind m body t h =
      handle-frame s m (code kind) body t ∙ rw (dispatch_lem kind, serve_short kind m body t h)
