-- ===== src/RequestHandler/Keeping.antt =====
-- What the responses that write keep of the table.
use modbus_cpp.Prelude.{◌==◌}
use modbus_cpp.Types.{Packet}
use modbus_cpp.Actions.{if_then_throw}
use modbus_cpp.Struc.{Struc}
use modbus_cpp.Block
use modbus_cpp.Block.Kept.{set_slice-SameShape, set_value-SameShape}
use modbus_cpp.Table.{read_num_regs, with_coils, with_holding_registers}
use modbus_cpp.Constants.{bits_on}
use modbus_cpp.Table.Kept.{
  Left, Left-same, Left-then, Left-caught, Left-thrown, Left-checked, Left-rethrow, Left-set_coils,
  Left-set_holding_registers,
}
use modbus_cpp.Pointing.{Pointing, after_set}
use modbus_cpp.BitWrite.SingleCoil.Response as WriteCoilResponse
use modbus_cpp.BitWrite.MultipleCoils.Response as WriteCoilsResponse
use modbus_cpp.RegisterWrite.SingleRegister.Response as WriteRegisterResponse
use modbus_cpp.RegisterWrite.MultipleRegisters.Response as WriteRegistersResponse
use modbus_cpp.RegisterWrite.MaskWrite.Response as MaskWriteResponse
use modbus_cpp.RegisterWrite.ReadWrite.Response as ReadWriteResponse

module _ (s : Struc) where
  write_coil_steps :
      (w : Pointing WriteCoilResponse.WriteCoilResponse)
      → Left w.1 (WriteCoilResponse.encode_steps s w)
  write_coil_steps w =
      Left-then w.1 (Block.get w.1.coils w.0.request.address, w) _ (Left-same _ w)
        λ value v. Left-then v.1 _ _ (Left-thrown _ _ _) λ _ u.
          Left-then u.1
            (after_set with_coils
              (Block.set_value u.1.coils u.0.request.address (u.0.request.value == bits_on)) u)
            _ (Left-set_coils _ u λ b. set_value-SameShape u.1.coils b _ _) λ _. Left-same _

  pub write_coil-Left :
      (w : Pointing WriteCoilResponse.WriteCoilResponse) → Left w.1 (WriteCoilResponse.encode s w)
  unfolding WriteCoilResponse.encode
  write_coil-Left w =
      Left-caught w.1 (WriteCoilResponse.encode_steps s w) _ (write_coil_steps w)
        (Left-rethrow Packet _ _)

  write_coils_steps :
      (w : Pointing WriteCoilsResponse.WriteCoilsResponse)
      → Left w.1 (WriteCoilsResponse.encode_steps s w)
  write_coils_steps w =
      Left-then w.1
        (after_set with_coils (Block.set_slice w.1.coils w.0.request.address w.0.request.values) _)
        _ (Left-set_coils _ _ λ b. set_slice-SameShape w.1.coils b _ _) λ _. Left-same _

  pub write_coils-Left :
      (w : Pointing WriteCoilsResponse.WriteCoilsResponse)
      → Left w.1 (WriteCoilsResponse.encode s w)
  unfolding WriteCoilsResponse.encode
  write_coils-Left w =
      Left-caught w.1 (WriteCoilsResponse.encode_steps s w) _ (write_coils_steps w)
        (Left-rethrow Packet _ _)

  write_register_steps :
      (w : Pointing WriteRegisterResponse.WriteRegisterResponse)
      → Left w.1 (WriteRegisterResponse.encode_steps s w)
  write_register_steps w = Left-then w.1 (if_then_throw _ _ _) _ (Left-thrown _ _ _) λ _ u.
      Left-then u.1
        (after_set with_holding_registers
          (Block.set_value u.1.holding_registers u.0.request.address u.0.request.value) u)
        _ (Left-set_holding_registers _ u λ b. set_value-SameShape u.1.holding_registers b _ _)
        λ _ v. Left-same _ (WriteRegisterResponse.copy_request v.0, v.1)

  pub write_register-Left :
      (w : Pointing WriteRegisterResponse.WriteRegisterResponse)
      → Left w.1 (WriteRegisterResponse.encode s w)
  unfolding WriteRegisterResponse.encode
  write_register-Left w =
      Left-caught w.1 (WriteRegisterResponse.encode_steps s w) _ (write_register_steps w)
        (Left-rethrow Packet _ _)

  write_registers_steps :
      (w : Pointing WriteRegistersResponse.WriteRegistersResponse)
      → Left w.1 (WriteRegistersResponse.encode_steps s w)
  write_registers_steps w =
      Left-then w.1
        (after_set with_holding_registers
          (Block.set_slice w.1.holding_registers w.0.request.address w.0.request.values) _)
        _ (Left-set_holding_registers _ _ λ b. set_slice-SameShape w.1.holding_registers b _ _)
        λ _. Left-same _

  pub write_registers-Left :
      (w : Pointing WriteRegistersResponse.WriteRegistersResponse)
      → Left w.1 (WriteRegistersResponse.encode s w)
  unfolding WriteRegistersResponse.encode
  write_registers-Left w =
      Left-caught w.1 (WriteRegistersResponse.encode_steps s w) _ (write_registers_steps w)
        (Left-rethrow Packet _ _)

  mask_write_steps :
      (w : Pointing MaskWriteResponse.MaskWriteResponse)
      → Left w.1 (MaskWriteResponse.encode_steps s w)
  mask_write_steps w = Left-then w.1 (if_then_throw _ _ _) _ (Left-thrown _ _ _) λ _ u.
      Left-then u.1 (Block.get u.1.holding_registers u.0.request.address, u) _ (Left-same _ u)
        λ current_value v.
          Left-then v.1
            (after_set with_holding_registers
              (Block.set_value v.1.holding_registers v.0.request.address
                (MaskWriteResponse.masked current_value v.0.request))
              v)
            _ (Left-set_holding_registers _ v λ b. set_value-SameShape v.1.holding_registers b _ _)
            λ _ x. Left-same _ (MaskWriteResponse.copy_request x.0, x.1)

  pub mask_write-Left :
      (w : Pointing MaskWriteResponse.MaskWriteResponse) → Left w.1 (MaskWriteResponse.encode s w)
  unfolding MaskWriteResponse.encode
  mask_write-Left w =
      Left-caught w.1 (MaskWriteResponse.encode_steps s w) _ (mask_write_steps w)
        (Left-rethrow Packet _ _)

  read_write_steps :
      (w : Pointing ReadWriteResponse.ReadWriteResponse)
      → Left w.1 (ReadWriteResponse.encode_steps s w)
  read_write_steps w =
      Left-then w.1
        (after_set with_holding_registers
          (Block.set_slice w.1.holding_registers w.0.request.write_address w.0.request.values) w)
        _ (Left-set_holding_registers _ w λ b. set_slice-SameShape w.1.holding_registers b _ _)
        λ _ u.
          Left-then u.1
            (
              Block.get_slice read_num_regs u.1.holding_registers u.0.request.read_address
                  u.0.request.read_count,
              u,
            )
            _ (Left-same _ u) λ registers v. Left-checked _ _ _ (_, v.1)

  pub read_write-Left :
      (w : Pointing ReadWriteResponse.ReadWriteResponse) → Left w.1 (ReadWriteResponse.encode s w)
  unfolding ReadWriteResponse.encode
  read_write-Left w =
      Left-caught w.1 (ReadWriteResponse.encode_steps s w) _ (read_write_steps w)
        (Left-rethrow Packet _ _)
