-- ===== src/RequestHandler/Bounds/ReadWriting.antt =====
-- Requests that write registers and then read some.
use modbus_cpp.Prelude.{
  ◌+◌, ◌<◌, ◌≤◌, ◌≡◌, ◌∙◌, true, not, ◌==◌, false, [], ◌++◌, length, drop, All, All-drop,
  All-resize, arith,
}
use modbus_cpp.Constants.{max_adu_length}
use modbus_cpp.Types.{Packet, IsByte, IsU16}
use modbus_cpp.Errors.{
  ok, or_throw, server_device_failure, illegal_data_value, illegal_data_address,
  ◌>>=◌ as and_then_result,
}
use modbus_cpp.Actions.{modify, if_then_throw}
use modbus_cpp.Actions.Gives.{
  Returning, Returning-or_throw, Returning-defined, Any, Gives, Gives-then, Gives-caught,
  Gives-result, Gives-thrown, Gives-rethrow_range,
}
use modbus_cpp.Struc.{Struc, IsBigEndian}
use modbus_cpp.Struc.Numbers.{first_byte, short-IsU16}
use modbus_cpp.Adu.{header, calc_length, header_packet}
use modbus_cpp.Registers.{pack_registers}
use modbus_cpp.Request.{check_response_packet}
use modbus_cpp.Block
use modbus_cpp.Block.Range.{validate_count-counted}
use modbus_cpp.Block.Defined.{validate_count_defined, get_slice_defined, set_slice_defined}
use modbus_cpp.Device.Meets.{IsSound}
use modbus_cpp.Device.Stored.{registers_stored-IsSound}
use modbus_cpp.Table.{Table, read_num_regs, write_num_regs, with_holding_registers}
use modbus_cpp.Pointing.{Pointing, after_set, on_response}
use modbus_cpp.RegisterWrite.ReadWrite.Request as ReadWrite
use modbus_cpp.RegisterWrite.ReadWrite.Request.{ReadWrite}
use modbus_cpp.RegisterWrite.ReadWrite.Response as ReadWriteResponse
use modbus_cpp.RegisterWrite.ReadWrite.Response.{ReadWriteResponse}
use modbus_cpp.RequestHandler.{serve_read_write, writing}
use modbus_cpp.RequestHandler.Bounds.{
  FitsAdu, Pointed, serve-Gives, tested-Returning, executed-Returning, writing-Gives,
  checked-FitsAdu, set_registers-Gives,
}
use modbus_cpp.RequestHandler.Bounds.Decoding.{
  decode_with-Gives, values_read-Gives, unpack_registers-IsU16, first_byte-sixteen,
}

-- A request whose addresses and values are 16-bit numbers, and a response whose count of registers
-- to read has been tested too.
abbrev Words : ReadWrite → Type 0
Words q = IsU16 q.read_address × IsU16 q.write_address × All IsU16 q.values

abbrev Counted : ReadWriteResponse → Type 0
Counted r = Words r.request × (read_num_regs r.request.read_count ≡ true)

size-fits :
    (r : ReadWrite) → read_num_regs r.read_count ≡ true → ReadWrite.response_size r ≤ max_adu_length
size-fits r h = ground arith

executed :
    (U : Type 0) (q : ReadWrite) (t : Table)
    → Words q
    → Returning U Counted (ReadWriteResponse.execute q t)
unfolding ReadWriteResponse.execute
executed U q t d =
    let bad = illegal_data_address q.adu.function (header q.adu) in
    let writable =
      Block.validate_count write_num_regs t.holding_registers q.write_address q.write_count in
    let readable =
      Block.validate_count read_num_regs t.holding_registers q.read_address q.read_count in
    let rest = and_then_result writable λ w. or_throw (not w) bad (ok (ReadWriteResponse.make q)) in
    Returning-or_throw U Counted (not (ReadWrite.validate_counts q))
      (illegal_data_value q.adu.function (header q.adu)) _
      λ _.
        tested-Returning U Counted (not (ReadWrite.validate_addresses q)) bad readable bad rest
          (validate_count_defined read_num_regs t.holding_registers q.read_address q.read_count)
          λ e.
            executed-Returning U Counted false bad bad writable (ReadWriteResponse.make q)
              (validate_count_defined write_num_regs t.holding_registers q.write_address
                q.write_count)
              λ _. (
                d,
                validate_count-counted read_num_regs t.holding_registers q.read_address q.read_count
                    e,
              )

module _ {U : Type 0} (s : Struc) (laws : IsBigEndian s) where
  decoded :
      (p : Packet) (r : ReadWrite)
      → All IsByte p
      → (length p < 17 + first_byte (drop 16 p) → U)
      → Words r
      → Gives U Any Words (ReadWrite.decode s p r)
  unfolding ReadWrite.decode
  decoded p r b lacks h =
      decode_with-Gives s ReadWrite.format Words (λ q. q.adu) ReadWrite.with_adu
        (λ c q. not (c == q.adu.function)) _
        (λ q. server_device_failure q.adu.function (header q.adu)) laws p (λ l. lacks (omega arith))
        (λ _ _ d. d)
        (λ a found q d.
          let there = found.1.1.1.1.0 ∙ first_byte-sixteen p in
          let b8 = All-drop IsByte 8 p b in
          values_read-Gives Words (λ u. not (ReadWrite.byte_count u == a.1.1.1.1.0)) _
            ReadWrite.store_values
            (λ u e.
              unpack_registers-IsU16 s laws U p ReadWrite.values_idx _ b
                (λ l. lacks (ground arith)))
            (λ buffer k u w. (w.0, w.1, All-resize IsU16 u.write_count 0 buffer (omega arith) k))
            (ReadWrite.store a q)
            (
              short-IsU16 a.0 (drop 8 p) found.0 b8,
              short-IsU16 a.1.1.0 (drop 2 (drop 2 (drop 8 p))) found.1.1.0
                  (All-drop IsByte 2 (drop 2 (drop 8 p)) (All-drop IsByte 2 (drop 8 p) b8)),
              d.2,
            ))
        r h

module _ {U : Type 0} (s : Struc) where
  steps :
      (w : Pointing ReadWriteResponse)
      → Pointed Counted w
      → Gives U FitsAdu (Pointed Counted) (ReadWriteResponse.encode_steps s w)
  steps w h =
      Gives-then Any FitsAdu (Pointed Counted)
        (after_set with_holding_registers
          (Block.set_slice w.1.holding_registers w.0.request.write_address w.0.request.values) w)
        _
        (set_registers-Gives Counted _ w h
          (set_slice_defined w.1.holding_registers w.0.request.write_address w.0.request.values
            h.1.valid.holding_registers h.0.0.1)
          λ b e. registers_stored-IsSound w.1 b _ _ e h.0.0.2 h.1)
        λ _ _ u k.
          Gives-then Any FitsAdu (Pointed Counted)
            (
              Block.get_slice read_num_regs u.1.holding_registers u.0.request.read_address
                  u.0.request.read_count,
              u,
            )
            _
            (Gives-result Any (Pointed Counted) _ u
              (Returning-defined U _ (
                get_slice_defined read_num_regs u.1.holding_registers u.0.request.read_address
                  u.0.request.read_count (λ e. ground arith) k.1.valid.holding_registers k.0.0.0))
              k)
            λ registers _ x l.
              let v : Pointing ReadWriteResponse =
                (on_response (ReadWriteResponse.on_adu (modify (calc_length (1 + x.0.count))))
                  (ReadWriteResponse.store_registers registers x.0, x.1)).1 in
              let packet : Packet =
                header_packet s v.0.base.adu
                ++ s.pack ReadWriteResponse.format (v.0.count, tt)
                ++ pack_registers s registers in
              Gives-then
                (λ _.
                  not (check_response_packet (ReadWrite.response_size v.0.request) packet) ≡ false)
                FitsAdu (Pointed Counted) (if_then_throw _ _ v) _
                (Gives-thrown (Pointed Counted) _ _ v l)
                λ _ okay y m. record {
                  value =
                      checked-FitsAdu (ReadWrite.response_size v.0.request) packet okay
                        (size-fits v.0.request l.0.1);
                  left = m;
                }

  encoded :
      (w : Pointing ReadWriteResponse)
      → Pointed Counted w
      → Gives U FitsAdu (Pointed Counted) (ReadWriteResponse.encode s w)
  unfolding ReadWriteResponse.encode
  encoded w h =
      Gives-caught FitsAdu (Pointed Counted) (ReadWriteResponse.encode_steps s w) _ (steps w h)
        (λ e u k. Gives-rethrow_range FitsAdu (Pointed Counted) _ _ e u k)

module _ {U : Type 0} (s : Struc) (laws : IsBigEndian s) where
  pub read_write-Gives :
      (p : Packet) (t : Table)
      → All IsByte p
      → (length p < 17 + first_byte (drop 16 p) → U)
      → IsSound t
      → Gives U FitsAdu IsSound (serve_read_write s p t)
  unfolding serve_read_write
  read_write-Gives p t b lacks h =
      serve-Gives Words Counted (ReadWrite.decode s p (ReadWrite.make 0 1 0 1 []))
        ReadWriteResponse.execute (writing (ReadWriteResponse.encode s))
        (decoded s laws p (ReadWrite.make 0 1 0 1 []) b lacks (omega arith))
        (λ q d u _. executed U q u d)
        (writing-Gives Counted (ReadWriteResponse.encode s) (encoded s)) t h
