-- ===== src/RequestHandler/BitReading.antt =====
-- Requests to read coils or discrete inputs, from the packet to the answer.
use modbus_cpp.Prelude.{
  ℕ, ◌+◌, ◌-◌, ◌<◌, ◌≤◌, ◌≡◌, refl, ◌∙◌, Bool, true, false, [], ◌∷◌, List, some, drop, length,
  take_exact, arith,
}
use modbus_cpp.Types.{Packet, IsU16}
use modbus_cpp.Errors.{ok, throw, illegal_data_address}
use modbus_cpp.Struc.{Struc, IsBigEndian}
use modbus_cpp.Frame
use modbus_cpp.Frame.{Mbap, frame, reply, header_of}
use modbus_cpp.Table.{Table, read_num_bits}
use modbus_cpp.Block
use modbus_cpp.Block.Range.{IsValid, InRange, validate_count_in, validate_count_out}
use modbus_cpp.Block.Cells.{get_slice_in}
use modbus_cpp.BitRead.Request.{Kind, code, block, read_coils, read_discrete_inputs}
use modbus_cpp.BitRead.Serve.{
  request_frame, answer_frame, decode_lem, encode_lem, execute_in, execute_out,
}
use modbus_cpp.RequestHandler.{handle, dispatch, serve_read_bits}
use modbus_cpp.RequestHandler.Answer.{handle-frame, on_exception_lem}

module _ (s : Struc) (laws : IsBigEndian s) where
  dispatch_lem :
      (kind : Kind) (p : Packet) (t : Table)
      → dispatch s (code kind) p t ≡ serve_read_bits s kind p t
  unfolding dispatch
  dispatch_lem read_coils p t = refl
  dispatch_lem read_discrete_inputs p t = refl

  serve_in :
      (kind : Kind) (m : Mbap) (address count : ℕ) (rest : Packet) (t : Table) (xs : List Bool)
      → Frame.IsValid m
      → IsU16 count
      → length xs ≤ 2000
      → length xs ≡ count
      → Block.validate_count read_num_bits (block kind t) address count ≡ ok true
      → Block.get_slice read_num_bits (block kind t) address count ≡ ok xs
      → serve_read_bits s kind (request_frame kind m address count rest) t
        ≡ (ok (answer_frame kind m xs), t)
  unfolding serve_read_bits
  serve_in kind m address count rest t xs v h l n c e = rw (
    decode_lem s laws kind m address count rest,
    execute_in s laws kind m address count t h c,
    encode_lem s laws kind m address count t xs v l n e,
  )

  serve_out :
      (kind : Kind) (m : Mbap) (address count : ℕ) (rest : Packet) (t : Table)
      → IsU16 count
      → Block.validate_count read_num_bits (block kind t) address count ≡ ok false
      → serve_read_bits s kind (request_frame kind m address count rest) t
        ≡ (throw (illegal_data_address (code kind) (header_of m)), t)
  unfolding serve_read_bits
  serve_out kind m address count rest t h c =
      rw
        (decode_lem s laws kind m address count rest, execute_out s laws kind m address count t h c)

  -- A request for bits that lie in the block is answered with their values, under the request's
  -- transaction and unit, and the table stays as it was. Assumed: struc is big-endian, the numbers
  -- of the request fit their types, the block has a cell for each of its addresses and the counts
  -- are within the limits of the protocol.
  pub handle_read_bits :
      (kind : Kind) (m : Mbap) (address count : ℕ) (rest : Packet) (t : Table)
      → Frame.IsValid m
      → IsU16 address
      → IsValid (block kind t)
      → read_num_bits count ≡ true
      → InRange (block kind t) address count
      → (xs : List Bool) × (take_exact count
            (drop (address - (block kind t).starting_address) (block kind t).container)
          ≡ some xs)
        × (handle s (request_frame kind m address count rest) t ≡ (ok (answer_frame kind m xs), t))
  handle_read_bits kind m address count rest t v h b c r =
      let (xs, e, f, l) = get_slice_in read_num_bits (block kind t) address count b h c r in
      (
        xs,
        f,
        handle-frame s m (code kind) _ t
            ∙ rw (
              dispatch_lem kind,
              serve_in kind m address count rest t xs v (ground arith) (ground arith) l
                  (validate_count_in read_num_bits (block kind t) address count c r) e,
            ),
      )

  code-lt : (kind : Kind) → code kind < 128
  code-lt read_coils = omega arith
  code-lt read_discrete_inputs = omega arith

  -- Any other count or address is answered with exception 2, illegal data address: also a count of
  -- 0 or above 2000. Assumed: struc is big-endian and the numbers of the request fit their types.
  pub handle_read_bits_refused :
      (kind : Kind) (m : Mbap) (address count : ℕ) (rest : Packet) (t : Table)
      → Frame.IsValid m
      → IsU16 count
      → ¬ (InRange (block kind t) address count × (read_num_bits count ≡ true))
      → handle s (request_frame kind m address count rest) t
        ≡ (ok (frame (reply m 3) (code kind + 128) (2 ∷ [])), t)
  handle_read_bits_refused kind m address count rest t v h out =
      handle-frame s m (code kind) _ t
      ∙ rw
          (
            dispatch_lem kind,
            serve_out kind m address count rest t h (
                validate_count_out read_num_bits (block kind t) address count (λ c. ground arith)
                  out),
          )
          (on_exception_lem s laws m 2 (code kind) t v (omega arith) (code-lt kind))
