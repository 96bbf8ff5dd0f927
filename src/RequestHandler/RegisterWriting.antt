-- ===== src/RequestHandler/RegisterWriting.antt =====
-- Requests to write one register or several, from the packet to the answer.
use modbus_cpp.Prelude.{
  ℕ, ◌+◌, ◌<◌, ◌≤◌, ◌≡◌, ◌≢◌, ◌⊎◌, refl, ◌∙◌, true, false, [], ◌∷◌, List, length, arith,
}
use modbus_cpp.Types.{Packet, IsU16}
use modbus_cpp.Errors.{ok, throw, illegal_data_address}
use modbus_cpp.Struc.{Struc, IsBigEndian}
use modbus_cpp.Frame
use modbus_cpp.Frame.{Mbap, frame, reply, word, header_of}
use modbus_cpp.Table.{Table, with_holding_registers, write_num_regs}
use modbus_cpp.Block
use modbus_cpp.Block.{Block}
use modbus_cpp.Block.Range.{
  IsValid, InRange, validate_in, validate_out, validate_count_in, validate_count_out,
}
use modbus_cpp.Block.Cells.{get_slice-set_slice}
use modbus_cpp.Block.One.{get-set_value}
use modbus_cpp.RegisterWrite.SingleRegister.Serve as Single
use modbus_cpp.RegisterWrite.MultipleRegisters.Serve as Multiple
use modbus_cpp.RequestHandler.{handle, dispatch, serve_write_register, serve_write_registers}
use modbus_cpp.RequestHandler.Answer.{handle-frame, on_exception_lem}

module _ (s : Struc) (laws : IsBigEndian s) where
  dispatch_single : (p : Packet) (t : Table) → dispatch s 6 p t ≡ serve_write_register s p t
  unfolding dispatch
  dispatch_single p t = refl

  dispatch_multiple : (p : Packet) (t : Table) → dispatch s 16 p t ≡ serve_write_registers s p t
  unfolding dispatch
  dispatch_multiple p t = refl

  single_in :
      (m : Mbap) (address value : ℕ) (rest : Packet) (t : Table) (b : Block ℕ)
      → Frame.IsValid m
      → IsU16 address
      → IsU16 value
      → Block.validate t.holding_registers address ≡ ok true
      → Block.set_value t.holding_registers address value ≡ ok b
      → serve_write_register s (Single.request_frame m address value rest) t
        ≡ (ok (Single.request_frame (reply m 6) address value []), with_holding_registers b t)
  unfolding serve_write_register
  single_in m address value rest t b v h k c e =
      let (p, q) = Single.encode_lem s laws m address value t b v h k e in
      rw (
        Single.decode_lem s laws m address value 0 0 rest,
        Single.execute_in s laws m address value t k c,
        p,
        q,
      )

  single_out :
      (m : Mbap) (address value : ℕ) (rest : Packet) (t : Table)
      → IsU16 value
      → Block.validate t.holding_registers address ≡ ok false
      → serve_write_register s (Single.request_frame m address value rest) t
        ≡ (throw (illegal_data_address 6 (header_of m)), t)
  unfolding serve_write_register
  single_out m address value rest t k c = rw (
    Single.decode_lem s laws m address value 0 0 rest,
    Single.execute_out s laws m address value t k c,
  )

  -- The answer, if the write leaves the block `b`.
  pub handle_write_register_stored :
      (m : Mbap) (address value : ℕ) (rest : Packet) (t : Table) (b : Block ℕ)
      → Frame.IsValid m
      → IsU16 address
      → IsU16 value
      → InRange t.holding_registers address 1
      → Block.set_value t.holding_registers address value ≡ ok b
      → handle s (Single.request_frame m address value rest) t
        ≡ (ok (Single.request_frame (reply m 6) address value []), with_holding_registers b t)
  handle_write_register_stored m address value rest t b v h k r e =
      handle-frame s m 6 _ t
      ∙ rw (
        dispatch_single,
        single_in m address value rest t b v h k (validate_in t.holding_registers address r) e,
      )

  -- A request to write a register of the block is answered with the request itself, and stores the
  -- value: it reads back, and no other register changes. Assumed: struc is big-endian, the numbers
  -- of the request fit their types and the block has a cell for each of its addresses.
  pub handle_write_register :
      (m : Mbap) (address value : ℕ) (rest : Packet) (t : Table)
      → Frame.IsValid m
      → IsU16 address
      → IsU16 value
      → IsValid t.holding_registers
      → InRange t.holding_registers address 1
      → (b : Block ℕ) × (handle s (Single.request_frame m address value rest) t
          ≡ (ok (Single.request_frame (reply m 6) address value []), with_holding_registers b t))
        × IsValid b
        × (Block.get b address ≡ ok value)
        × ((other : ℕ)
            → IsU16 other
            → other ≢ address
            → Block.get b other ≡ Block.get t.holding_registers other)
  handle_write_register m address value rest t v h k w r =
      let (b, e, w', f, kept) = get-set_value t.holding_registers address value w h r in
      (b, handle_write_register_stored m address value rest t b v h k r e, w', f, kept)

  -- A request to write a register outside of the block is answered with exception 2, illegal data
  -- address, and changes nothing. Assumed: struc is big-endian and the numbers of the request fit
  -- their types.
  pub handle_write_register_refused :
      (m : Mbap) (address value : ℕ) (rest : Packet) (t : Table)
      → Frame.IsValid m
      → IsU16 value
      → ¬ InRange t.holding_registers address 1
      → handle s (Single.request_frame m address value rest) t
        ≡ (ok (frame (reply m 3) 134 (2 ∷ [])), t)
  handle_write_register_refused m address value rest t v k out =
      handle-frame s m 6 _ t
      ∙ rw
          (
            dispatch_single,
            single_out m address value rest t k (validate_out t.holding_registers address out),
          )
          (on_exception_lem s laws m 2 6 t v (omega arith) (omega arith))

  multiple_in :
      (m : Mbap) (address : ℕ) (values : List ℕ) (rest : Packet) (t : Table) (b : Block ℕ)
      → Frame.IsValid m
      → IsU16 address
      → length values ≤ 127
      → Block.validate_count write_num_regs t.holding_registers address (length values) ≡ ok true
      → Block.set_slice t.holding_registers address values ≡ ok b
      → serve_write_registers s (Multiple.request_frame m address values rest) t ≡ (
        ok (frame (reply m 6) 16 (word address (word (length values) []))),
        with_holding_registers b t,
      )
  unfolding serve_write_registers
  multiple_in m address values rest t b v h k c e =
      let (p, q) = Multiple.encode_lem s laws m address values t b v h k e in
      rw (
        Multiple.decode_lem s laws m address 0 1 values [] rest k,
        Multiple.execute_in s laws m address values t k c,
        p,
        q,
      )

  multiple_out :
      (m : Mbap) (address : ℕ) (values : List ℕ) (rest : Packet) (t : Table)
      → length values ≤ 127
      → Block.validate_count write_num_regs t.holding_registers address (length values) ≡ ok false
      → serve_write_registers s (Multiple.request_frame m address values rest) t
        ≡ (throw (illegal_data_address 16 (header_of m)), t)
  unfolding serve_write_registers
  multiple_out m address values rest t k c = rw (
    Multiple.decode_lem s laws m address 0 1 values [] rest k,
    Multiple.execute_out s laws m address values t k c,
  )

  -- The answer, if the write leaves the block `b`.
  pub handle_write_registers_stored :
      (m : Mbap) (address : ℕ) (values : List ℕ) (rest : Packet) (t : Table) (b : Block ℕ)
      → Frame.IsValid m
      → IsU16 address
      → write_num_regs (length values) ≡ true
      → InRange t.holding_registers address (length values)
      → Block.set_slice t.holding_registers address values ≡ ok b
      → handle s (Multiple.request_frame m address values rest) t ≡ (
        ok (frame (reply m 6) 16 (word address (word (length values) []))),
        with_holding_registers b t,
      )
  handle_write_registers_stored m address values rest t b v h c r e =
      handle-frame s m 16 _ t
      ∙ rw (
        dispatch_multiple,
        multiple_in m address values rest t b v h (ground arith)
            (validate_count_in write_num_regs t.holding_registers address (length values) c r) e,
      )

  -- A request to write registers of the block is answered with its address and count, and stores
  -- its values: they read back, and no other register changes. Assumed: struc is big-endian, the
  -- numbers of the request fit their types, the block has a cell for each of its addresses and the
  -- counts are within the limits of the protocol.
  pub handle_write_registers :
      (m : Mbap) (address : ℕ) (values : List ℕ) (rest : Packet) (t : Table)
      → Frame.IsValid m
      → IsU16 address
      → IsValid t.holding_registers
      → write_num_regs (length values) ≡ true
      → InRange t.holding_registers address (length values)
      → (b : Block ℕ) × (handle s (Multiple.request_frame m address values rest) t ≡ (
        ok (frame (reply m 6) 16 (word address (word (length values) []))),
        with_holding_registers b t,
      ))
        × IsValid b
        × (Block.get_slice write_num_regs b address (length values) ≡ ok values)
        × ((other : ℕ)
            → IsU16 other
            → (other < address) ⊎ (address + length values ≤ other)
            → Block.get b other ≡ Block.get t.holding_registers other)
  handle_write_registers m address values rest t v h w c r =
      let (b, e, w', f, kept) =
        get_slice-set_slice write_num_regs t.holding_registers address (length values) values w h
          refl c r in
      (b, handle_write_registers_stored m address values rest t b v h c r e, w', f, kept)

  -- A request to write at most 127 registers that do not all lie in the block, or whose number is
  -- 0 or above 123, is answered with exception 2, illegal data address, and nothing changes.
  -- Assumed: struc is big-endian and the numbers of the request fit their types.
  pub handle_write_registers_refused :
      (m : Mbap) (address : ℕ) (values : List ℕ) (rest : Packet) (t : Table)
      → Frame.IsValid m
      → length values ≤ 127
      → ¬ (
          InRange t.holding_registers address (length values)
          × (write_num_regs (length values) ≡ true))
      → handle s (Multiple.request_frame m address values rest) t
        ≡ (ok (frame (reply m 3) 144 (2 ∷ [])), t)
  handle_write_registers_refused m address values rest t v k out =
      handle-frame s m 16 _ t
      ∙ rw
          (
            dispatch_multiple,
            multiple_out m address values rest t k (
                validate_count_out write_num_regs t.holding_registers address (length values)
                  (λ c. ground arith) out),
          )
          (on_exception_lem s laws m 2 16 t v (omega arith) (omega arith))
