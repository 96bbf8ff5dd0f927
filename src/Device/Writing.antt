-- ===== src/Device/Writing.antt =====
-- Queries that write.
use modbus_cpp.Prelude.{
  ℕ, ◌≤◌, refl, ap, ◌∙◌, inl, inr, Bool, true, List, [], ◌∷◌, length, All, arith, u16, bit_and,
  bit_or,
}
use modbus_cpp.Types.{Packet, IsU16}
use modbus_cpp.Struc.{Struc, IsBigEndian}
use modbus_cpp.Frame
use modbus_cpp.Frame.{Mbap}
use modbus_cpp.Operation.{pack_bits}
use modbus_cpp.Operation.Packing.{resize-unpack_bits}
use modbus_cpp.Block.{set_slice}
use modbus_cpp.Block.Range.{InRange, InRange-cases}
use modbus_cpp.Block.Kept.{set_value-eq-set_slice}
use modbus_cpp.Table.{Table, with_coils, with_holding_registers, write_num_regs, write_num_bits}
use modbus_cpp.RequestHandler.{handle}
use modbus_cpp.RequestHandler.CoilWriting.{
  handle_write_coil_stored, handle_write_coil_refused, handle_write_coils_stored,
  handle_write_coils_refused,
}
use modbus_cpp.RequestHandler.RegisterWriting.{
  handle_write_register_stored, handle_write_register_refused, handle_write_registers_stored,
  handle_write_registers_refused,
}
use modbus_cpp.RequestHandler.MaskWriting.{handle_mask_write_stored, handle_mask_write_refused}
use modbus_cpp.Device.{
  write_coil, write_coils, write_register, write_registers, mask_write, coil, coils_written,
  register, registers_written, masked, refused, serve,
}
use modbus_cpp.Device.View.{view}
use modbus_cpp.Device.Wire.{query_packet}
use modbus_cpp.Device.Meets.{IsSound, Meets, Meets-eq, fetch_in, fetch_out}
use modbus_cpp.Device.Stored.{
  stored_in, cell_in, cell_out, range_in, coils_stored-IsSound, registers_stored-IsSound,
}

module _ (s : Struc) (laws : IsBigEndian s) where
  pub write_coil-Meets :
      (m : Mbap) (address : ℕ) (on : Bool) (rest : Packet) (t : Table)
      → Frame.IsValid m
      → IsU16 address
      → IsSound t
      → Meets
          (handle s (query_packet m (write_coil address on) rest) t)
          m
          (serve (write_coil address on) (view t))
  unfolding serve
  write_coil-Meets m address on rest t v h sound =
      let w = sound.valid.coils in
      elim (InRange-cases t.coils address 1 true) [
        | inl (r, _) ↦
            let (old, g, c) = cell_in t.coils address w h r in
            let (b, e, f) = stored_in t.coils address (on ∷ []) w h r in
            Meets-eq _ m _ (coil address old) (with_coils b t)
              (handle_write_coil_stored s laws m address on old rest t b v h r g
                (set_value-eq-set_slice t.coils address on ∙ e))
              (rw (c, f)) (coils_stored-IsSound t b address (on ∷ []) e sound)
        | inr out ↦
            let outside : ¬ InRange t.coils address 1 = λ r. out (r, refl) in
            Meets-eq _ m _ (refused 5) t
              (handle_write_coil_refused s laws m address on rest t v outside)
              (rw (cell_out t.coils address w outside)) sound
      ]

  pub write_register-Meets :
      (m : Mbap) (address value : ℕ) (rest : Packet) (t : Table)
      → Frame.IsValid m
      → IsU16 address
      → IsU16 value
      → IsSound t
      → Meets
          (handle s (query_packet m (write_register address value) rest) t)
          m
          (serve (write_register address value) (view t))
  unfolding serve
  write_register-Meets m address value rest t v h k sound =
      let old = t.holding_registers in
      let w = sound.valid.holding_registers in
      elim (InRange-cases old address 1 true) [
        | inl (r, _) ↦
            let (_, _, c) = cell_in old address w h r in
            let (b, e, f) = stored_in old address (value ∷ []) w h r in
            Meets-eq _ m _ (register address value) (with_holding_registers b t)
              (handle_write_register_stored s laws m address value rest t b v h k r
                (set_value-eq-set_slice old address value ∙ e))
              (rw (c, f)) (registers_stored-IsSound t b address (value ∷ []) e (k, tt) sound)
        | inr out ↦
            let outside : ¬ InRange old address 1 = λ r. out (r, refl) in
            Meets-eq _ m _ (refused 6) t
              (handle_write_register_refused s laws m address value rest t v k outside)
              (rw (cell_out old address w outside)) sound
      ]

  pub mask_write-Meets :
      (m : Mbap) (address and_mask or_mask : ℕ) (rest : Packet) (t : Table)
      → Frame.IsValid m
      → IsU16 address
      → IsU16 and_mask
      → IsU16 or_mask
      → IsSound t
      → Meets
          (handle s (query_packet m (mask_write address and_mask or_mask) rest) t)
          m
          (serve (mask_write address and_mask or_mask) (view t))
  unfolding serve
  mask_write-Meets m address and_mask or_mask rest t v h k l sound =
      let old = t.holding_registers in
      let w = sound.valid.holding_registers in
      elim (InRange-cases old address 1 true) [
        | inl (r, _) ↦
            let (x, g, c) = cell_in old address w h r in
            let value = u16 (bit_or (bit_and x and_mask) or_mask) in
            let (b, e, f) = stored_in old address (value ∷ []) w h r in
            Meets-eq _ m _ (masked address and_mask or_mask) (with_holding_registers b t)
              (handle_mask_write_stored s laws m address and_mask or_mask x rest t b v h k l r g
                (set_value-eq-set_slice old address value ∙ e))
              (rw (c, f))
              (registers_stored-IsSound t b address (value ∷ []) e (omega arith, tt) sound)
        | inr out ↦
            let outside : ¬ InRange old address 1 = λ r. out (r, refl) in
            Meets-eq _ m _ (refused 22) t
              (handle_mask_write_refused s laws m address and_mask or_mask rest t v k l outside)
              (rw (cell_out old address w outside)) sound
      ]

  pub write_coils-Meets :
      (m : Mbap) (address : ℕ) (values : List Bool) (rest : Packet) (t : Table)
      → Frame.IsValid m
      → IsU16 address
      → IsU16 (length values)
      → IsSound t
      → Meets
          (handle s (query_packet m (write_coils address values) rest) t)
          m
          (serve (write_coils address values) (view t))
  unfolding serve
  write_coils-Meets m address values rest t v h k sound =
      let n = length values in
      let body = pack_bits values in
      let w = sound.valid.coils in
      elim (InRange-cases t.coils address n (write_num_bits n)) [
        | inl (r, c) ↦
            let (xs, g) = range_in t.coils address n w r in
            let (b, e, f) = stored_in t.coils address values w h r in
            Meets-eq _ m _ (coils_written address n) (with_coils b t)
              (handle_write_coils_stored s laws m address n (length body) body t b v h c r
                (ap (set_slice t.coils address) (resize-unpack_bits values) ∙ e))
              (rw (fetch_in t.coils w 1968 address n xs c r g, f))
              (coils_stored-IsSound t b address values e sound)
        | inr out ↦
            Meets-eq _ m _ (refused 15) t
              (handle_write_coils_refused s laws m address n (length body) body t v k out)
              (rw (fetch_out t.coils w 1968 address n out)) sound
      ]

  pub write_registers-Meets :
      (m : Mbap) (address : ℕ) (values : List ℕ) (rest : Packet) (t : Table)
      → Frame.IsValid m
      → IsU16 address
      → length values ≤ 127
      → All IsU16 values
      → IsSound t
      → Meets
          (handle s (query_packet m (write_registers address values) rest) t)
          m
          (serve (write_registers address values) (view t))
  unfolding serve
  write_registers-Meets m address values rest t v h k u sound =
      let n = length values in
      let old = t.holding_registers in
      let w = sound.valid.holding_registers in
      elim (InRange-cases old address n (write_num_regs n)) [
        | inl (r, c) ↦
            let (xs, g) = range_in old address n w r in
            let (b, e, f) = stored_in old address values w h r in
            Meets-eq _ m _ (registers_written address n) (with_holding_registers b t)
              (handle_write_registers_stored s laws m address values rest t b v h c r e)
              (rw (fetch_in old w 123 address n xs c r g, f))
              (registers_stored-IsSound t b address values e u sound)
        | inr out ↦
            Meets-eq _ m _ (refused 16) t
              (handle_write_registers_refused s laws m address values rest t v k out)
              (rw (fetch_out old w 123 address n out)) sound
      ]
