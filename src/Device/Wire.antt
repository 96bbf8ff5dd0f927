-- ===== src/Device/Wire.antt =====
-- Queries and replies as packets.
use modbus_cpp.Prelude.{◌+◌, ◌≤◌, [], ◌∷◌, length, All}
use modbus_cpp.Types.{Packet, IsU16}
use modbus_cpp.Frame.{Mbap, frame, reply, word}
use modbus_cpp.Operation.{pack_bits}
use modbus_cpp.BitRead.Serve as BitRead
use modbus_cpp.RegisterRead.Serve as RegisterRead
use modbus_cpp.BitWrite.SingleCoil.Serve as SingleCoil
use modbus_cpp.BitWrite.MultipleCoils.Serve as MultipleCoils
use modbus_cpp.RegisterWrite.SingleRegister.Serve as SingleRegister
use modbus_cpp.RegisterWrite.MultipleRegisters.Serve as MultipleRegisters
use modbus_cpp.RegisterWrite.MaskWrite.Serve as MaskWrite
use modbus_cpp.RegisterWrite.ReadWrite.Serve as ReadWrite
use modbus_cpp.Device.{
  Query, read_bits, read_registers, write_coil, write_register, write_coils, write_registers,
  mask_write, read_write, Reply, bits, registers, coil, register, coils_written, registers_written,
  masked, registers_after, refused,
}

-- The numbers of a query fit the fields of its packet.
abbrev pub Fits : Query → Type 0
Fits (read_bits kind address count) = IsU16 address × IsU16 count
Fits (read_registers kind address count) = IsU16 address × IsU16 count
Fits (write_coil address on) = IsU16 address
Fits (write_register address value) = IsU16 address × IsU16 value
Fits (write_coils address values) = IsU16 address × IsU16 (length values)
Fits (write_registers address values) = IsU16 address × (length values ≤ 127) × All IsU16 values
Fits (mask_write address and_mask or_mask) = IsU16 address × IsU16 and_mask × IsU16 or_mask
Fits (read_write read_address read_count write_address values) =
    IsU16 read_address
    × IsU16 read_count
    × IsU16 write_address
    × (length values ≤ 127)
    × All IsU16 values

-- The packet of a query, with whatever follows it.
abbrev pub query_packet : Mbap → Query → Packet → Packet
query_packet m (read_bits kind address count) rest = BitRead.request_frame kind m address count rest
query_packet m (read_registers kind address count) rest =
    RegisterRead.request_frame kind m address count rest
query_packet m (write_coil address on) rest = SingleCoil.request_frame m address on rest
query_packet m (write_register address value) rest =
    SingleRegister.request_frame m address value rest
query_packet m (write_coils address values) rest =
    MultipleCoils.request_frame m address (length values) (length (pack_bits values))
      (pack_bits values)
query_packet m (write_registers address values) rest =
    MultipleRegisters.request_frame m address values rest
query_packet m (mask_write address and_mask or_mask) rest =
    MaskWrite.request_frame m address and_mask or_mask rest
query_packet m (read_write read_address read_count write_address values) rest =
    ReadWrite.request_frame m read_address read_count write_address values rest

-- The packet of a reply to a query with the header `m`.
abbrev pub reply_packet : Mbap → Reply → Packet
reply_packet m (bits kind xs) = BitRead.answer_frame kind m xs
reply_packet m (registers kind xs) = RegisterRead.answer_frame kind m xs
reply_packet m (coil address on) = SingleCoil.request_frame (reply m 6) address on []
reply_packet m (register address value) = SingleRegister.request_frame (reply m 6) address value []
reply_packet m (coils_written address count) = frame (reply m 6) 15 (word address (word count []))
reply_packet m (registers_written address count) =
    frame (reply m 6) 16 (word address (word count []))
reply_packet m (masked address and_mask or_mask) =
    MaskWrite.request_frame (reply m 8) address and_mask or_mask []
reply_packet m (registers_after xs) = ReadWrite.answer_frame m xs
reply_packet m (refused code) = frame (reply m 3) (code + 128) (2 ∷ [])
