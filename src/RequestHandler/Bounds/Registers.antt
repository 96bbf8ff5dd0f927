-- ===== src/RequestHandler/Bounds/Registers.antt =====
-- Requests that write registers.
use modbus_cpp.Prelude.{
  ◌+◌, ◌<◌, ◌≡◌, ◌∙◌, not, ◌==◌, false, [], ◌++◌, length, drop, All, All-drop, All-resize, arith,
}
use modbus_cpp.Types.{Packet, IsByte, IsU16, validate}
use modbus_cpp.Errors.{server_device_failure, illegal_data_value, illegal_data_address}
use modbus_cpp.Actions.{modify, if_then_throw}
use modbus_cpp.Actions.Gives.{
  Any, Gives, Gives-then, Gives-caught, Gives-thrown, Gives-rethrow_range,
}
use modbus_cpp.Struc.{Struc, IsBigEndian}
use modbus_cpp.Struc.Numbers.{first_byte, short-IsU16}
use modbus_cpp.Adu.{header, calc_length, header_packet}
use modbus_cpp.Request.{check_response_packet}
use modbus_cpp.Block
use modbus_cpp.Block.Defined.{
  validate_defined, validate_count_defined, set_slice_defined, set_value_defined,
}
use modbus_cpp.Device.Meets.{IsSound}
use modbus_cpp.Device.Stored.{registers_stored-IsSound, value_stored-IsSound}
use modbus_cpp.Table.{Table, write_num_regs, with_holding_registers}
use modbus_cpp.Pointing.{Pointing, after_set, on_response}
use modbus_cpp.RegisterWrite.SingleRegister.Request as WriteRegister
use modbus_cpp.RegisterWrite.SingleRegister.Request.{WriteRegister}
use modbus_cpp.RegisterWrite.SingleRegister.Response as WriteRegisterResponse
use modbus_cpp.RegisterWrite.SingleRegister.Response.{WriteRegisterResponse}
use modbus_cpp.RegisterWrite.MultipleRegisters.Request as WriteRegisters
use modbus_cpp.RegisterWrite.MultipleRegisters.Request.{WriteRegisters}
use modbus_cpp.RegisterWrite.MultipleRegisters.Response as WriteRegistersResponse
use modbus_cpp.RegisterWrite.MultipleRegisters.Response.{WriteRegistersResponse}
use modbus_cpp.RequestHandler.{serve_write_register, serve_write_registers, writing}
use modbus_cpp.RequestHandler.Bounds.{
  FitsAdu, Pointed, serve-Gives, executed-Returning, writing-Gives, checked-FitsAdu,
  set_registers-Gives, header_packet-FitsAdu,
}
use modbus_cpp.RequestHandler.Bounds.Decoding.{
  decode_with-Gives, values_read-Gives, unpack_registers-IsU16, first_byte-twelve,
}

-- The numbers of a request fit their types.
abbrev Word : WriteRegister → Type 0
Word q = IsU16 q.address × IsU16 q.value

abbrev Words : WriteRegisters → Type 0
Words q = IsU16 q.address × All IsU16 q.values

abbrev OfWord : WriteRegisterResponse → Type 0
OfWord r = Word r.request

abbrev OfWords : WriteRegistersResponse → Type 0
OfWords r = Words r.request

module _ {U : Type 0} (s : Struc) (laws : IsBigEndian s) where
  write_register-decoded :
      (p : Packet) (r : WriteRegister)
      → All IsByte p
      → (length p < 12 → U)
      → Word r
      → Gives U Any Word (WriteRegister.decode s p r)
  unfolding WriteRegister.decode
  write_register-decoded p r b lacks h =
      decode_with-Gives s WriteRegister.format Word (λ q. q.adu) WriteRegister.with_adu
        (λ c q. not (c == q.adu.function)) (λ a. modify (WriteRegister.store a))
        (λ q. server_device_failure q.adu.function (header q.adu)) laws p lacks (λ _ _ d. d)
        (λ a found q d. record {
          value = tt;
          left = (
            short-IsU16 a.0 (drop 8 p) found.0 (All-drop IsByte 8 p b),
            short-IsU16 a.1.0 (drop 2 (drop 8 p)) found.1.0
                (All-drop IsByte 2 (drop 8 p) (All-drop IsByte 8 p b)),
          );
        })
        r h

  write_register_steps :
      (w : Pointing WriteRegisterResponse)
      → Pointed OfWord w
      → Gives U FitsAdu (Pointed OfWord) (WriteRegisterResponse.encode_steps s w)
  write_register_steps w h =
      let v : Pointing WriteRegisterResponse =
        (on_response
          (WriteRegisterResponse.on_adu (modify (calc_length WriteRegisterResponse.data_length)))
          w).1 in
      let packet : Packet =
        header_packet s v.0.base.adu
        ++ s.pack WriteRegisterResponse.format (w.0.request.address, (w.0.request.value, tt)) in
      Gives-then (λ _. not (check_response_packet 12 packet) ≡ false) FitsAdu (Pointed OfWord)
        (if_then_throw _ _ v) _ (Gives-thrown (Pointed OfWord) _ _ v h)
        λ _ okay u k.
          Gives-then Any FitsAdu (Pointed OfWord)
            (after_set with_holding_registers
              (Block.set_value u.1.holding_registers u.0.request.address u.0.request.value) u)
            _
            (set_registers-Gives OfWord _ u k
              (set_value_defined u.1.holding_registers u.0.request.address u.0.request.value
                k.1.valid.holding_registers k.0.0)
              λ b e. value_stored-IsSound u.1 b _ _ e k.0.1 k.1)
            λ _ _ x l. record { value = checked-FitsAdu 12 packet okay (omega arith); left = l }

  write_register-encoded :
      (w : Pointing WriteRegisterResponse)
      → Pointed OfWord w
      → Gives U FitsAdu (Pointed OfWord) (WriteRegisterResponse.encode s w)
  unfolding WriteRegisterResponse.encode
  write_register-encoded w h =
      Gives-caught FitsAdu (Pointed OfWord) (WriteRegisterResponse.encode_steps s w) _
        (write_register_steps w h) (λ e u k. Gives-rethrow_range FitsAdu (Pointed OfWord) _ _ e u k)

  pub write_register-Gives :
      (p : Packet) (t : Table)
      → All IsByte p
      → (length p < 12 → U)
      → IsSound t
      → Gives U FitsAdu IsSound (serve_write_register s p t)
  unfolding serve_write_register WriteRegisterResponse.execute
  write_register-Gives p t b lacks h =
      serve-Gives Word OfWord (WriteRegister.decode s p (WriteRegister.make 0 0))
        WriteRegisterResponse.execute (writing (WriteRegisterResponse.encode s))
        (write_register-decoded p (WriteRegister.make 0 0) b lacks (omega arith))
        (λ q d u _.
          executed-Returning U OfWord (not (validate q.value))
            (illegal_data_value q.adu.function (header q.adu))
            (illegal_data_address q.adu.function (header q.adu))
            (Block.validate u.holding_registers q.address) (WriteRegisterResponse.make q)
            (validate_defined u.holding_registers q.address) λ _. d)
        (writing-Gives OfWord (WriteRegisterResponse.encode s) write_register-encoded) t h

module _ {U : Type 0} (s : Struc) (laws : IsBigEndian s) where
  write_registers-decoded :
      (p : Packet) (r : WriteRegisters)
      → All IsByte p
      → (length p < 13 + first_byte (drop 12 p) → U)
      → Words r
      → Gives U Any Words (WriteRegisters.decode s p r)
  unfolding WriteRegisters.decode
  write_registers-decoded p r b lacks h =
      decode_with-Gives s WriteRegisters.format Words (λ q. q.adu) WriteRegisters.with_adu
        (λ c q. not (c == q.adu.function)) _
        (λ q. server_device_failure q.adu.function (header q.adu)) laws p (λ l. lacks (omega arith))
        (λ _ _ d. d)
        (λ a found q d.
          let there = found.1.1.0 ∙ first_byte-twelve p in
          values_read-Gives Words (λ u. not (WriteRegisters.byte_count u == a.1.1.0)) _
            WriteRegisters.store_values
            (λ u e.
              unpack_registers-IsU16 s laws U p WriteRegisters.values_idx _ b
                (λ l. lacks (ground arith)))
            (λ buffer k u w. (w.0, All-resize IsU16 u.count 0 buffer (omega arith) k))
            (WriteRegisters.store a q)
            (short-IsU16 a.0 (drop 8 p) found.0 (All-drop IsByte 8 p b), d.1))
        r h

  write_registers-encoded :
      (w : Pointing WriteRegistersResponse)
      → Pointed OfWords w
      → Gives U FitsAdu (Pointed OfWords) (WriteRegistersResponse.encode s w)
  unfolding WriteRegistersResponse.encode
  write_registers-encoded w h =
      let v : Pointing WriteRegistersResponse =
        (on_response
          (WriteRegistersResponse.on_adu (modify (calc_length WriteRegistersResponse.data_length)))
          w).1 in
      Gives-caught FitsAdu (Pointed OfWords) (WriteRegistersResponse.encode_steps s w) _
        (Gives-then Any FitsAdu (Pointed OfWords)
          (after_set with_holding_registers
            (Block.set_slice w.1.holding_registers w.0.request.address w.0.request.values) v)
          _
          (set_registers-Gives OfWords _ v h
            (set_slice_defined w.1.holding_registers w.0.request.address w.0.request.values
              h.1.valid.holding_registers h.0.0)
            λ b e. registers_stored-IsSound w.1 b _ _ e h.0.1 h.1)
          λ _ _ u l. record {
            value =
                header_packet-FitsAdu s laws v.0.base.adu WriteRegistersResponse.format
                  (w.0.request.address, (w.0.request.count, tt)) (omega arith);
            left = l;
          })
        (λ e u k. Gives-rethrow_range FitsAdu (Pointed OfWords) _ _ e u k)

  pub write_registers-Gives :
      (p : Packet) (t : Table)
      → All IsByte p
      → (length p < 13 + first_byte (drop 12 p) → U)
      → IsSound t
      → Gives U FitsAdu IsSound (serve_write_registers s p t)
  unfolding serve_write_registers WriteRegistersResponse.execute
  write_registers-Gives p t b lacks h =
      serve-Gives Words OfWords (WriteRegisters.decode s p (WriteRegisters.make 0 1 []))
        WriteRegistersResponse.execute (writing (WriteRegistersResponse.encode s))
        (write_registers-decoded p (WriteRegisters.make 0 1 []) b lacks (omega arith))
        (λ q d u _.
          executed-Returning U OfWords (not (WriteRegisters.validate_count q))
            (illegal_data_value q.adu.function (header q.adu))
            (illegal_data_address q.adu.function (header q.adu))
            (Block.validate_count write_num_regs u.holding_registers q.address q.count)
            (WriteRegistersResponse.make q)
            (validate_count_defined write_num_regs u.holding_registers q.address q.count) λ _. d)
        (writing-Gives OfWords (WriteRegistersResponse.encode s) write_registers-encoded) t h
