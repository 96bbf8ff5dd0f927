-- ===== src/RequestHandler/ReadWriting.antt =====
-- Requests to write registers and then read some, from the packet to the answer.
use modbus_cpp.Prelude.{
  ℕ, ◌+◌, ◌<◌, ◌≤◌, ◌≡◌, ◌⊎◌, refl, ◌∙◌, Bool, true, false, ◌&&◌, [], ◌∷◌, List, length, arith, All,
  All-drop, All-take_exact,
}
use modbus_cpp.Types.{Packet, IsU16}
use modbus_cpp.Errors.{ok, throw, illegal_data_address}
use modbus_cpp.Struc.{Struc, IsBigEndian}
use modbus_cpp.Frame
use modbus_cpp.Frame.{Mbap, frame, reply, header_of}
use modbus_cpp.Table.{Table, with_holding_registers, read_num_regs, write_num_regs}
use modbus_cpp.Block
use modbus_cpp.Block.{Block}
use modbus_cpp.Block.Range.{IsValid, InRange, validate_count_in}
use modbus_cpp.Block.Cells.{get_slice_in, get_slice-set_slice}
use modbus_cpp.Block.Kept.{set_slice-SameShape, set_slice-All}
use modbus_cpp.RegisterWrite.ReadWrite.Serve.{
  request_frame, answer_frame, decode_lem, encode_lem, execute_in, execute_out,
}
use modbus_cpp.RequestHandler.{handle, dispatch, serve_read_write}
use modbus_cpp.RequestHandler.Answer.{handle-frame, on_exception_lem}

module _ (s : Struc) (laws : IsBigEndian s) where
  dispatch_lem : (p : Packet) (t : Table) → dispatch s 23 p t ≡ serve_read_write s p t
  unfolding dispatch
  dispatch_lem p t = refl

  serve_in :
      (m : Mbap) (read_address read_count write_address : ℕ) (values xs : List ℕ) (rest : Packet)
      (t : Table) (b : Block ℕ)
      → Frame.IsValid m
      → IsU16 read_address
      → IsU16 read_count
      → IsU16 write_address
      → length values ≤ 127
      → All IsU16 xs
      → length xs ≤ 125
      → length xs ≡ read_count
      → Block.validate_count read_num_regs t.holding_registers read_address read_count ≡ ok true
      → Block.validate_count write_num_regs t.holding_registers write_address (length values)
        ≡ ok true
      → Block.set_slice t.holding_registers write_address values ≡ ok b
      → Block.get_slice read_num_regs b read_address read_count ≡ ok xs
      → serve_read_write s (request_frame m read_address read_count write_address values rest) t
        ≡ (ok (answer_frame m xs), with_holding_registers b t)
  unfolding serve_read_write
  serve_in m read_address read_count write_address values xs rest t b v h k l n w q i c d e g =
      let (p, r) =
        encode_lem s laws m read_address read_count write_address values xs t b v w q i e g in
      rw (
        decode_lem s laws m read_address read_count write_address 0 1 0 1 values [] rest n,
        execute_in s laws m read_address read_count write_address values t h k l n c d,
        p,
        r,
      )

  serve_out :
      (m : Mbap) (read_address read_count write_address : ℕ) (values : List ℕ) (rest : Packet)
      (t : Table) (readable writable : Bool)
      → IsU16 read_address
      → IsU16 read_count
      → IsU16 write_address
      → length values ≤ 127
      → Block.validate_count read_num_regs t.holding_registers read_address read_count ≡ ok readable
      → Block.validate_count write_num_regs t.holding_registers write_address (length values)
        ≡ ok writable
      → (readable && writable) ≡ false
      → serve_read_write s (request_frame m read_address read_count write_address values rest) t
        ≡ (throw (illegal_data_address 23 (header_of m)), t)
  unfolding serve_read_write
  serve_out m read_address read_count write_address values rest t x y h k l n c d out = rw (
    decode_lem s laws m read_address read_count write_address 0 1 0 1 values [] rest n,
    execute_out s laws m read_address read_count write_address values t x y h k l n c d out,
  )

  -- A request whose registers to read or to write are not all in the block, or are too many, is
  -- answered with exception 2, and nothing changes.
  pub handle_read_write_refused :
      (m : Mbap) (read_address read_count write_address : ℕ) (values : List ℕ) (rest : Packet)
      (t : Table) (readable writable : Bool)
      → Frame.IsValid m
      → IsU16 read_address
      → IsU16 read_count
      → IsU16 write_address
      → length values ≤ 127
      → Block.validate_count read_num_regs t.holding_registers read_address read_count ≡ ok readable
      → Block.validate_count write_num_regs t.holding_registers write_address (length values)
        ≡ ok writable
      → (readable && writable) ≡ false
      → handle s (request_frame m read_address read_count write_address values rest) t
        ≡ (ok (frame (reply m 3) 151 (2 ∷ [])), t)
  handle_read_write_refused m read_address read_count write_address values rest t x y v h k l n c d
        out =
      handle-frame s m 23 _ t
      ∙ rw
          (
            dispatch_lem,
            serve_out m read_address read_count write_address values rest t x y h k l n c d out,
          )
          (on_exception_lem s laws m 2 23 t v (omega arith) (omega arith))

  -- The answer, if the write leaves the block `b` and the read then gives `xs`.
  pub handle_read_write_stored :
      (m : Mbap) (read_address read_count write_address : ℕ) (values xs : List ℕ) (rest : Packet)
      (t : Table) (b : Block ℕ)
      → Frame.IsValid m
      → IsU16 read_address
      → IsU16 write_address
      → All IsU16 xs
      → length xs ≡ read_count
      → read_num_regs read_count ≡ true
      → write_num_regs (length values) ≡ true
      → InRange t.holding_registers read_address read_count
      → InRange t.holding_registers write_address (length values)
      → Block.set_slice t.holding_registers write_address values ≡ ok b
      → Block.get_slice read_num_regs b read_address read_count ≡ ok xs
      → handle s (request_frame m read_address read_count write_address values rest) t
        ≡ (ok (answer_frame m xs), with_holding_registers b t)
  handle_read_write_stored m read_address read_count write_address values xs rest t b v h k u l c d
        r q e g =
      handle-frame s m 23 _ t
      ∙ rw (
        dispatch_lem,
        serve_in m read_address read_count write_address values xs rest t b v h (ground arith) k
            (ground arith) u (ground arith) l
            (validate_count_in read_num_regs t.holding_registers read_address read_count c r)
            (validate_count_in write_num_regs t.holding_registers write_address (length values) d q)
            e g,
      )

  -- A request to write registers of the block and to read registers of the block stores its values
  -- and is answered with the registers as they are after the write. Assumed: struc is big-endian,
  -- the numbers of the request fit their types, the block has a cell for each of its addresses,
  -- the registers fit 16 bits and the counts are within the limits of the protocol.
  pub handle_read_write :
      (m : Mbap) (read_address read_count write_address : ℕ) (values : List ℕ) (rest : Packet)
      (t : Table)
      → Frame.IsValid m
      → IsU16 read_address
      → IsU16 write_address
      → All IsU16 values
      → IsValid t.holding_registers
      → All IsU16 t.holding_registers.container
      → read_num_regs read_count ≡ true
      → write_num_regs (length values) ≡ true
      → InRange t.holding_registers read_address read_count
      → InRange t.holding_registers write_address (length values)
      → (xs : List ℕ) × (b : Block ℕ) × (handle s
            (request_frame m read_address read_count write_address values rest)
            t
          ≡ (ok (answer_frame m xs), with_holding_registers b t))
        × (Block.get_slice read_num_regs b read_address read_count ≡ ok xs)
        × IsValid b
        × (Block.get_slice write_num_regs b write_address (length values) ≡ ok values)
        × ((other : ℕ)
            → IsU16 other
            → (other < write_address) ⊎ (write_address + length values ≤ other)
            → Block.get b other ≡ Block.get t.holding_registers other)
  handle_read_write m read_address read_count write_address values rest t v h k a w u c d r q =
      let old = t.holding_registers in
      let (b, e, w', f, kept) =
        get_slice-set_slice write_num_regs old write_address (length values) values w k refl d q in
      let shape = set_slice-SameShape old b write_address values e in
      let r' : InRange b read_address read_count = record {
        some_cell = r.some_cell;
        above = omega (arith, shape.start);
        below = omega (arith, shape.start, shape.capacity);
      } in
      let (xs, g, i, l) = get_slice_in read_num_regs b read_address read_count w' h c r' in
      let u' : All IsU16 xs =
        All-take_exact IsU16 read_count _ xs i
          (All-drop IsU16 _ _ (set_slice-All IsU16 old b write_address values e a u)) in
      (
        xs,
        b,
        handle_read_write_stored m read_address read_count write_address values xs rest t b v h k u'
            l c d r q e g,
        g,
        w',
        f,
        kept,
      )
