-- ===== src/Device/Refines.antt =====
-- The server's answer to the packet of a query is the packet of the reply that the specification
-- gives.
use modbus_cpp.Prelude.{
  ℕ, ◌≤◌, ◌≡◌, refl, ◌&&◌, inl, inr, Bool, true, false, List, length, All, All-drop, All-take_exact,
  arith,
}
use modbus_cpp.Types.{Packet, IsU16}
use modbus_cpp.Errors.{ok}
use modbus_cpp.Struc.{Struc, IsBigEndian}
use modbus_cpp.Frame
use modbus_cpp.Frame.{Mbap}
use modbus_cpp.Block.{Block, validate_count}
use modbus_cpp.Block.Range.{InRange, InRange-cases, validate_count_in, validate_count_out}
use modbus_cpp.Block.Cells.{get_slice_in}
use modbus_cpp.Block.Kept.{SameShape, set_slice-SameShape}
use modbus_cpp.Table.{Table, with_holding_registers, read_num_regs, write_num_regs}
use modbus_cpp.Table.Valid.{SameShape-IsValid}
use modbus_cpp.RequestHandler.{handle}
use modbus_cpp.RequestHandler.ReadWriting.{handle_read_write_refused, handle_read_write_stored}
use modbus_cpp.Device.{
  Query, read_bits, read_registers, write_coil, write_register, write_coils, write_registers,
  mask_write, read_write, registers_after, refused, serve,
}
use modbus_cpp.Device.View.{view, collect-cells}
use modbus_cpp.Device.Wire.{Fits, query_packet}
use modbus_cpp.Device.Meets.{IsSound, Meets, Meets-eq, fetch_in, fetch_out}
use modbus_cpp.Device.Reading.{read_bits-Meets, read_registers-Meets}
use modbus_cpp.Device.Stored.{stored_in, range_in, registers_stored-IsSound}
use modbus_cpp.Device.Writing.{
  write_coil-Meets, write_register-Meets, mask_write-Meets, write_coils-Meets,
  write_registers-Meets,
}

moved :
    (b b' : Block ℕ) (address count : ℕ)
    → SameShape b b'
    → InRange b address count
    → InRange b' address count
moved b b' address count h r = record {
  some_cell = r.some_cell;
  above = omega (arith, h.start, r.above);
  below = omega (arith, h.start, h.capacity, r.below);
}

module _ (s : Struc) (laws : IsBigEndian s) where
  module _ (m : Mbap) (read_address read_count write_address : ℕ) (values : List ℕ) (rest : Packet)
      (t : Table) (v : Frame.IsValid m) (h : IsU16 read_address) (k : IsU16 read_count)
      (l : IsU16 write_address) (n : length values ≤ 127) (u : All IsU16 values)
      (sound : IsSound t) where
    read_write_in :
        InRange t.holding_registers read_address read_count
        → read_num_regs read_count ≡ true
        → InRange t.holding_registers write_address (length values)
        → write_num_regs (length values) ≡ true
        → Meets
            (handle s
              (query_packet m (read_write read_address read_count write_address values) rest)
              t)
            m
            (serve (read_write read_address read_count write_address values) (view t))
    unfolding serve
    read_write_in r c q d =
        let w = sound.valid.holding_registers in
        let (xs, g) = range_in t.holding_registers read_address read_count w r in
        let (ys, i) = range_in t.holding_registers write_address (length values) w q in
        let (b, e, f) = stored_in t.holding_registers write_address values w l q in
        let shape = set_slice-SameShape t.holding_registers b write_address values e in
        let w' = SameShape-IsValid t.holding_registers b shape w in
        let r' = moved t.holding_registers b read_address read_count shape r in
        let (zs, j, o, p) = get_slice_in read_num_regs b read_address read_count w' h c r' in
        let after = registers_stored-IsSound t b write_address values e u sound in
        let u' : All IsU16 zs =
          All-take_exact IsU16 read_count _ zs o (All-drop IsU16 _ _ after.holding) in
        Meets-eq _ m _ (registers_after zs) (with_holding_registers b t)
          (handle_read_write_stored s laws m read_address read_count write_address values zs rest t
            b v h l u' p c d r q e j)
          (rw (
            fetch_in t.holding_registers w 125 read_address read_count xs c r g,
            fetch_in t.holding_registers w 123 write_address (length values) ys d q i,
            ← f,
            collect-cells b read_address read_count r'.above,
            o,
          ))
          after

    -- What cannot be read, or cannot be written, is refused.
    read_write_out :
        (readable writable : Bool)
        → validate_count read_num_regs t.holding_registers read_address read_count ≡ ok readable
        → validate_count write_num_regs t.holding_registers write_address (length values)
          ≡ ok writable
        → (readable && writable) ≡ false
        → serve (read_write read_address read_count write_address values) (view t)
          ≡ (refused 23, view t)
        → Meets
            (handle s
              (query_packet m (read_write read_address read_count write_address values) rest)
              t)
            m
            (serve (read_write read_address read_count write_address values) (view t))
    read_write_out x y c d out e =
        Meets-eq _ m _ (refused 23) t
          (handle_read_write_refused s laws m read_address read_count write_address values rest t x
            y v h k l n c d out)
          e sound

    read_write-Meets :
        Meets
          (handle s
            (query_packet m (read_write read_address read_count write_address values) rest)
            t)
          m
          (serve (read_write read_address read_count write_address values) (view t))
    unfolding serve
    read_write-Meets =
        let old = t.holding_registers in
        let w = sound.valid.holding_registers in
        let count = length values in
        elim (InRange-cases old read_address read_count (read_num_regs read_count)) [
          | inl (r, c) ↦
              let (xs, g) = range_in old read_address read_count w r in
              let readable = validate_count_in read_num_regs old read_address read_count c r in
              elim (InRange-cases old write_address count (write_num_regs count)) [
                | inl (q, d) ↦ read_write_in r c q d
                | inr out ↦
                    read_write_out true false readable
                      (validate_count_out write_num_regs old write_address count (λ d. ground arith)
                        out)
                      refl
                      (rw (
                        fetch_in old w 125 read_address read_count xs c r g,
                        fetch_out old w 123 write_address count out,
                      ))
              ]
          | inr out ↦
              let refusal = fetch_out old w 125 read_address read_count out in
              let unreadable =
                validate_count_out read_num_regs old read_address read_count (λ c. ground arith)
                  out in
              elim (InRange-cases old write_address count (write_num_regs count)) [
                | inl (q, d) ↦
                    read_write_out false true unreadable
                      (validate_count_in write_num_regs old write_address count d q) refl
                      (rw refusal)
                | inr out' ↦
                    read_write_out false false unreadable
                      (validate_count_out write_num_regs old write_address count (λ d. ground arith)
                        out')
                      refl (rw refusal)
              ]
        ]

  -- Whatever query a packet holds, `handle` returns the packet of the reply that the specification
  -- `Device.serve` gives, a refusal included, and the table then stands for the device that the
  -- specification leaves, with a cell for each address and 16-bit registers as before. Assumed:
  -- struc is big-endian, the numbers of the query fit their fields, each block has a cell for each
  -- of its addresses and the registers fit 16 bits.
  pub handle-Meets :
      (m : Mbap) (q : Query) (rest : Packet) (t : Table)
      → Frame.IsValid m
      → Fits q
      → IsSound t
      → Meets (handle s (query_packet m q rest) t) m (serve q (view t))
  handle-Meets m (read_bits kind address count) rest t v h sound =
      read_bits-Meets s laws kind m address count rest t v h.0 h.1 sound
  handle-Meets m (read_registers kind address count) rest t v h sound =
      read_registers-Meets s laws kind m address count rest t v h.0 h.1 sound
  handle-Meets m (write_coil address on) rest t v h sound =
      write_coil-Meets s laws m address on rest t v h sound
  handle-Meets m (write_register address value) rest t v h sound =
      write_register-Meets s laws m address value rest t v h.0 h.1 sound
  handle-Meets m (write_coils address values) rest t v h sound =
      write_coils-Meets s laws m address values rest t v h.0 h.1 sound
  handle-Meets m (write_registers address values) rest t v h sound =
      write_registers-Meets s laws m address values rest t v h.0 h.1 h.2 sound
  handle-Meets m (mask_write address and_mask or_mask) rest t v h sound =
      mask_write-Meets s laws m address and_mask or_mask rest t v h.0 h.1 h.2 sound
  handle-Meets m (read_write read_address read_count write_address values) rest t v h sound =
      read_write-Meets m read_address read_count write_address values rest t v h.0 h.1 h.2 h.3 h.4
        sound
