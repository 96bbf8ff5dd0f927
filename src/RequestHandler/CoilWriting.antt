-- ===== src/RequestHandler/CoilWriting.antt =====
-- Requests to write one coil or several, from the packet to the answer.
use modbus_cpp.Prelude.{
  ℕ, ◌+◌, ◌<◌, ◌≤◌, ◌≡◌, ◌≢◌, ◌⊎◌, refl, ◌∙◌, Bool, true, false, [], ◌∷◌, arith, resize,
  length-resize,
}
use modbus_cpp.Constants.{bits_on}
use modbus_cpp.Types.{Packet, IsU16}
use modbus_cpp.Errors.{ok, throw, illegal_data_address}
use modbus_cpp.Struc.{Struc, IsBigEndian}
use modbus_cpp.Frame
use modbus_cpp.Frame.{Mbap, frame, reply, word, header_of}
use modbus_cpp.Table.{Table, with_coils, write_num_bits}
use modbus_cpp.Block
use modbus_cpp.Block.{Block}
use modbus_cpp.Block.Range.{
  IsValid, InRange, validate_in, validate_out, validate_count_in, validate_count_out,
}
use modbus_cpp.Block.Cells.{get_slice-set_slice}
use modbus_cpp.Block.One.{get_in, get-set_value}
use modbus_cpp.Operation.{unpack_bits}
use modbus_cpp.BitWrite.SingleCoil.Serve as Single
use modbus_cpp.BitWrite.MultipleCoils.Serve as Multiple
use modbus_cpp.RequestHandler.{handle, dispatch, serve_write_coil, serve_write_coils}
use modbus_cpp.RequestHandler.Answer.{handle-frame, on_exception_lem}

module _ (s : Struc) (laws : IsBigEndian s) where
  dispatch_single : (p : Packet) (t : Table) → dispatch s 5 p t ≡ serve_write_coil s p t
  unfolding dispatch
  dispatch_single p t = refl

  dispatch_multiple : (p : Packet) (t : Table) → dispatch s 15 p t ≡ serve_write_coils s p t
  unfolding dispatch
  dispatch_multiple p t = refl

  single_in :
      (m : Mbap) (address : ℕ) (on old : Bool) (rest : Packet) (t : Table) (b : Block Bool)
      → Frame.IsValid m
      → IsU16 address
      → Block.validate t.coils address ≡ ok true
      → Block.get t.coils address ≡ ok old
      → Block.set_value t.coils address on ≡ ok b
      → serve_write_coil s (Single.request_frame m address on rest) t
        ≡ (ok (Single.request_frame (reply m 6) address old []), with_coils b t)
  unfolding serve_write_coil
  single_in m address on old rest t b v h c g e =
      let (p, q) = Single.encode_lem s laws m address on old t b v h g e in
      rw (
        Single.decode_lem s laws m address on 0 bits_on rest,
        Single.execute_in s laws m address on t c,
        p,
        q,
      )

  -- The answer, if the coil was `old` and the write leaves the block `b`.
  pub handle_write_coil_stored :
      (m : Mbap) (address : ℕ) (on old : Bool) (rest : Packet) (t : Table) (b : Block Bool)
      → Frame.IsValid m
      → IsU16 address
      → InRange t.coils address 1
      → Block.get t.coils address ≡ ok old
      → Block.set_value t.coils address on ≡ ok b
      → handle s (Single.request_frame m address on rest) t
        ≡ (ok (Single.request_frame (reply m 6) address old []), with_coils b t)
  handle_write_coil_stored m address on old rest t b v h r g e =
      handle-frame s m 5 _ t
      ∙ rw (
        dispatch_single,
        single_in m address on old rest t b v h (validate_in t.coils address r) g e,
      )

  -- A request to write a coil of the block is answered with the value that the coil had before,
  -- and stores the new one: it reads back, and no other coil changes. Assumed: struc is big-
  -- endian, the numbers of the request fit their types and the block has a cell for each of its
  -- addresses.
  pub handle_write_coil :
      (m : Mbap) (address : ℕ) (on : Bool) (rest : Packet) (t : Table)
      → Frame.IsValid m
      → IsU16 address
      → IsValid t.coils
      → InRange t.coils address 1
      → (old : Bool) × (b : Block Bool) × (Block.get t.coils address ≡ ok old)
        × (handle s (Single.request_frame m address on rest) t
            ≡ (ok (Single.request_frame (reply m 6) address old []), with_coils b t))
        × IsValid b
        × (Block.get b address ≡ ok on)
        × ((other : ℕ)
            → IsU16 other
            → other ≢ address
            → Block.get b other ≡ Block.get t.coils other)
  handle_write_coil m address on rest t v h w r =
      let (old, g, _) = get_in t.coils address w h r in
      let (b, e, w', f, k) = get-set_value t.coils address on w h r in
      (old, b, g, handle_write_coil_stored m address on old rest t b v h r g e, w', f, k)

  single_out :
      (m : Mbap) (address : ℕ) (on : Bool) (rest : Packet) (t : Table)
      → Block.validate t.coils address ≡ ok false
      → serve_write_coil s (Single.request_frame m address on rest) t
        ≡ (throw (illegal_data_address 5 (header_of m)), t)
  unfolding serve_write_coil
  single_out m address on rest t c = rw (
    Single.decode_lem s laws m address on 0 bits_on rest,
    Single.execute_out s laws m address on t c,
  )

  -- A request to write a coil outside of the block is answered with exception 2, illegal data
  -- address, and changes nothing. Assumed: struc is big-endian and the numbers of the request fit
  -- their types.
  pub handle_write_coil_refused :
      (m : Mbap) (address : ℕ) (on : Bool) (rest : Packet) (t : Table)
      → Frame.IsValid m
      → ¬ InRange t.coils address 1
      → handle s (Single.request_frame m address on rest) t
        ≡ (ok (frame (reply m 3) 133 (2 ∷ [])), t)
  handle_write_coil_refused m address on rest t v out =
      handle-frame s m 5 _ t
      ∙ rw (dispatch_single, single_out m address on rest t (validate_out t.coils address out))
          (on_exception_lem s laws m 2 5 t v (omega arith) (omega arith))

  multiple_in :
      (m : Mbap) (address count n : ℕ) (body : Packet) (t : Table) (b : Block Bool)
      → Frame.IsValid m
      → IsU16 address
      → IsU16 count
      → Block.validate_count write_num_bits t.coils address count ≡ ok true
      → Block.set_slice t.coils address (resize count false (unpack_bits body)) ≡ ok b
      → serve_write_coils s (Multiple.request_frame m address count n body) t
        ≡ (ok (frame (reply m 6) 15 (word address (word count []))), with_coils b t)
  unfolding serve_write_coils
  multiple_in m address count n body t b v h k c e =
      let (p, q) = Multiple.encode_lem s laws m address count n body t b v h k e in
      rw (
        Multiple.decode_lem s laws m address count n 0 1 body [],
        Multiple.execute_in s laws m address count n body t k c,
        p,
        q,
      )

  multiple_out :
      (m : Mbap) (address count n : ℕ) (body : Packet) (t : Table)
      → IsU16 count
      → Block.validate_count write_num_bits t.coils address count ≡ ok false
      → serve_write_coils s (Multiple.request_frame m address count n body) t
        ≡ (throw (illegal_data_address 15 (header_of m)), t)
  unfolding serve_write_coils
  multiple_out m address count n body t k c = rw (
    Multiple.decode_lem s laws m address count n 0 1 body [],
    Multiple.execute_out s laws m address count n body t k c,
  )

  -- The answer, if the write leaves the block `b`.
  pub handle_write_coils_stored :
      (m : Mbap) (address count n : ℕ) (body : Packet) (t : Table) (b : Block Bool)
      → Frame.IsValid m
      → IsU16 address
      → write_num_bits count ≡ true
      → InRange t.coils address count
      → Block.set_slice t.coils address (resize count false (unpack_bits body)) ≡ ok b
      → handle s (Multiple.request_frame m address count n body) t
        ≡ (ok (frame (reply m 6) 15 (word address (word count []))), with_coils b t)
  handle_write_coils_stored m address count n body t b v h c r e =
      handle-frame s m 15 _ t
      ∙ rw (
        dispatch_multiple,
        multiple_in m address count n body t b v h (ground arith)
            (validate_count_in write_num_bits t.coils address count c r) e,
      )

  -- A request to write coils of the block is answered with its address and count, and stores the
  -- bits of its body, cut or filled up with zeros to the count: they read back, and no other coil
  -- changes. Assumed: struc is big-endian, the numbers of the request fit their types, the block
  -- has a cell for each of its addresses and the counts are within the limits of the protocol.
  pub handle_write_coils :
      (m : Mbap) (address count n : ℕ) (body : Packet) (t : Table)
      → Frame.IsValid m
      → IsU16 address
      → IsValid t.coils
      → write_num_bits count ≡ true
      → InRange t.coils address count
      → (b : Block Bool) × (handle s (Multiple.request_frame m address count n body) t
          ≡ (ok (frame (reply m 6) 15 (word address (word count []))), with_coils b t))
        × IsValid b
        × (Block.get_slice write_num_bits b address count
            ≡ ok (resize count false (unpack_bits body)))
        × ((other : ℕ)
            → IsU16 other
            → (other < address) ⊎ (address + count ≤ other)
            → Block.get b other ≡ Block.get t.coils other)
  handle_write_coils m address count n body t v h w c r =
      let values = resize count false (unpack_bits body) in
      let (b, e, w', f, k) =
        get_slice-set_slice write_num_bits t.coils address count values w h
          (length-resize count false (unpack_bits body)) c r in
      (b, handle_write_coils_stored m address count n body t b v h c r e, w', f, k)

  -- Any other count or address is answered with exception 2, and nothing changes: also a count of
  -- 0 or above 1968. Assumed: struc is big-endian and the numbers of the request fit their types.
  pub handle_write_coils_refused :
      (m : Mbap) (address count n : ℕ) (body : Packet) (t : Table)
      → Frame.IsValid m
      → IsU16 count
      → ¬ (InRange t.coils address count × (write_num_bits count ≡ true))
      → handle s (Multiple.request_frame m address count n body) t
        ≡ (ok (frame (reply m 3) 143 (2 ∷ [])), t)
  handle_write_coils_refused m address count n body t v k out =
      handle-frame s m 15 _ t
      ∙ rw
          (
            dispatch_multiple,
            multiple_out m address count n body t k
                (validate_count_out write_num_bits t.coils address count (λ c. ground arith) out),
          )
          (on_exception_lem s laws m 2 15 t v (omega arith) (omega arith))
