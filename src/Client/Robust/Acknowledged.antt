-- ===== src/Client/Robust/Acknowledged.antt =====
-- The answers to writes, which repeat fields of the request.
use modbus_cpp.Prelude.{not, ◌==◌, ◌&&◌, arith}
use modbus_cpp.Constants.{check_bits_value}
use modbus_cpp.Types.{Packet}
use modbus_cpp.Struc.{Struc, IsBigEndian}
use modbus_cpp.BitWrite.SingleCoil.Request as WriteCoil
use modbus_cpp.BitWrite.SingleCoil.Response as WriteCoilResponse
use modbus_cpp.BitWrite.MultipleCoils.Request as WriteCoils
use modbus_cpp.BitWrite.MultipleCoils.Response as WriteCoilsResponse
use modbus_cpp.RegisterWrite.SingleRegister.Request as WriteRegister
use modbus_cpp.RegisterWrite.SingleRegister.Response as WriteRegisterResponse
use modbus_cpp.RegisterWrite.MultipleRegisters.Request as WriteRegisters
use modbus_cpp.RegisterWrite.MultipleRegisters.Response as WriteRegistersResponse
use modbus_cpp.RegisterWrite.MaskWrite.Request as MaskWrite
use modbus_cpp.RegisterWrite.MaskWrite.Response as MaskWriteResponse
use modbus_cpp.Client.Robust.{Defined, test-Tame, last-Tame, modify-Tame, fields_with-Defined}

module _ (s : Struc) (laws : IsBigEndian s) where
  pub write_coil-Defined :
      (p : Packet) (r : WriteCoilResponse.WriteCoilResponse)
      → Defined (WriteCoilResponse.decode_passed s p r)
  unfolding WriteCoilResponse.decode_passed
  write_coil-Defined p r =
      fields_with-Defined s WriteCoilResponse.format (λ q. WriteCoil.response_size q.request) _ laws
        p r (omega arith)
        λ a.
          test-Tame (λ r. not (r.request.address == a.0)) _
            (test-Tame (λ r. not (r.request.value == a.1.0) && check_bits_value a.1.0) _
              (modify-Tame (WriteCoilResponse.store_value a.1.0)))

  pub write_register-Defined :
      (p : Packet) (r : WriteRegisterResponse.WriteRegisterResponse)
      → Defined (WriteRegisterResponse.decode_passed s p r)
  unfolding WriteRegisterResponse.decode_passed
  write_register-Defined p r =
      fields_with-Defined s WriteRegisterResponse.format
        (λ q. WriteRegister.response_size q.request) _ laws p r (omega arith)
        λ a.
          test-Tame (λ r. not (r.request.address == a.0)) _
            (test-Tame (λ r. not (r.request.value == a.1.0)) _
              (modify-Tame WriteRegisterResponse.copy_request))

  pub mask_write-Defined :
      (p : Packet) (r : MaskWriteResponse.MaskWriteResponse)
      → Defined (MaskWriteResponse.decode_passed s p r)
  unfolding MaskWriteResponse.decode_passed
  mask_write-Defined p r =
      fields_with-Defined s MaskWriteResponse.format (λ q. MaskWrite.response_size q.request) _ laws
        p r (omega arith)
        λ a.
          test-Tame (λ r. not (r.request.address == a.0)) _
            (test-Tame (λ r. not (r.request.and_mask == a.1.0)) _
              (test-Tame (λ r. not (r.request.or_mask == a.1.1.0)) _
                (modify-Tame MaskWriteResponse.copy_request)))

  pub write_coils-Defined :
      (p : Packet) (r : WriteCoilsResponse.WriteCoilsResponse)
      → Defined (WriteCoilsResponse.decode_passed s p r)
  unfolding WriteCoilsResponse.decode_passed
  write_coils-Defined p r =
      fields_with-Defined s WriteCoilsResponse.format (λ q. WriteCoils.response_size q.request) _
        laws p r (omega arith)
        λ a u.
          test-Tame (λ r. not (r.request.address == r.address)) _
            (last-Tame (λ r. not (r.request.count == r.count))) (WriteCoilsResponse.store a u)

  pub write_registers-Defined :
      (p : Packet) (r : WriteRegistersResponse.WriteRegistersResponse)
      → Defined (WriteRegistersResponse.decode_passed s p r)
  unfolding WriteRegistersResponse.decode_passed
  write_registers-Defined p r =
      fields_with-Defined s WriteRegistersResponse.format
        (λ q. WriteRegisters.response_size q.request) _ laws p r (omega arith)
        λ a u.
          test-Tame (λ r. not (r.request.address == r.address)) _
            (last-Tame (λ r. not (r.request.count == r.count))) (WriteRegistersResponse.store a u)
