-- ===== src/Device/Reading.antt =====
-- Queries that read.
use modbus_cpp.Prelude.{ℕ, ◌≡◌, refl, inl, inr, All}
use modbus_cpp.Types.{Packet, IsU16}
use modbus_cpp.Struc.{Struc, IsBigEndian}
use modbus_cpp.Frame
use modbus_cpp.Frame.{Mbap}
use modbus_cpp.Block.Range.{IsValid, InRange-cases}
use modbus_cpp.Table.{Table, read_num_regs, read_num_bits}
use modbus_cpp.BitRead.Request as ReadBits
use modbus_cpp.RegisterRead.Request as ReadRegisters
use modbus_cpp.RequestHandler.{handle}
use modbus_cpp.RequestHandler.BitReading.{handle_read_bits, handle_read_bits_refused}
use modbus_cpp.RequestHandler.RegisterReading.{handle_read_registers, handle_read_registers_refused}
use modbus_cpp.Device.{
  read_bits, read_registers, bits, registers, refused, bits_of, registers_of, serve,
}
use modbus_cpp.Device.View.{cells, view}
use modbus_cpp.Device.Wire.{query_packet}
use modbus_cpp.Device.Meets.{IsSound, Meets, Meets-eq, fetch_in, fetch_out}

bits_of-view :
    (kind : ReadBits.Kind) (t : Table) → bits_of kind (view t) ≡ cells (ReadBits.block kind t)
bits_of-view ReadBits.read_coils t = refl
bits_of-view ReadBits.read_discrete_inputs t = refl

registers_of-view :
    (kind : ReadRegisters.Kind) (t : Table)
    → registers_of kind (view t) ≡ cells (ReadRegisters.block kind t)
registers_of-view ReadRegisters.read_holding_registers t = refl
registers_of-view ReadRegisters.read_input_registers t = refl

bits-IsValid : (kind : ReadBits.Kind) (t : Table) → IsSound t → IsValid (ReadBits.block kind t)
bits-IsValid ReadBits.read_coils t h = h.valid.coils
bits-IsValid ReadBits.read_discrete_inputs t h = h.valid.discrete_inputs

registers-IsValid :
    (kind : ReadRegisters.Kind) (t : Table) → IsSound t → IsValid (ReadRegisters.block kind t)
registers-IsValid ReadRegisters.read_holding_registers t h = h.valid.holding_registers
registers-IsValid ReadRegisters.read_input_registers t h = h.valid.input_registers

registers-IsU16 :
    (kind : ReadRegisters.Kind) (t : Table)
    → IsSound t
    → All IsU16 (ReadRegisters.block kind t).container
registers-IsU16 ReadRegisters.read_holding_registers t h = h.holding
registers-IsU16 ReadRegisters.read_input_registers t h = h.input

module _ (s : Struc) (laws : IsBigEndian s) where
  pub read_bits-Meets :
      (kind : ReadBits.Kind) (m : Mbap) (address count : ℕ) (rest : Packet) (t : Table)
      → Frame.IsValid m
      → IsU16 address
      → IsU16 count
      → IsSound t
      → Meets
          (handle s (query_packet m (read_bits kind address count) rest) t)
          m
          (serve (read_bits kind address count) (view t))
  unfolding serve
  read_bits-Meets kind m address count rest t v h k sound =
      let b = ReadBits.block kind t in
      let w = bits-IsValid kind t sound in
      elim (InRange-cases b address count (read_num_bits count)) [
        | inl (r, c) ↦
            let (xs, e, f) = handle_read_bits s laws kind m address count rest t v h w c r in
            Meets-eq _ m _ (bits kind xs) t f
              (rw (bits_of-view kind t, fetch_in b w 2000 address count xs c r e)) sound
        | inr out ↦
            Meets-eq _ m _ (refused (ReadBits.code kind)) t
              (handle_read_bits_refused s laws kind m address count rest t v k out)
              (rw (bits_of-view kind t, fetch_out b w 2000 address count out)) sound
      ]

  pub read_registers-Meets :
      (kind : ReadRegisters.Kind) (m : Mbap) (address count : ℕ) (rest : Packet) (t : Table)
      → Frame.IsValid m
      → IsU16 address
      → IsU16 count
      → IsSound t
      → Meets
          (handle s (query_packet m (read_registers kind address count) rest) t)
          m
          (serve (read_registers kind address count) (view t))
  unfolding serve
  read_registers-Meets kind m address count rest t v h k sound =
      let b = ReadRegisters.block kind t in
      let w = registers-IsValid kind t sound in
      elim (InRange-cases b address count (read_num_regs count)) [
        | inl (r, c) ↦
            let (xs, e, f) =
              handle_read_registers s laws kind m address count rest t v h w
                (registers-IsU16 kind t sound) c r in
            Meets-eq _ m _ (registers kind xs) t f
              (rw (registers_of-view kind t, fetch_in b w 125 address count xs c r e)) sound
        | inr out ↦
            Meets-eq _ m _ (refused (ReadRegisters.code kind)) t
              (handle_read_registers_refused s laws kind m address count rest t v k out)
              (rw (registers_of-view kind t, fetch_out b w 125 address count out)) sound
      ]
