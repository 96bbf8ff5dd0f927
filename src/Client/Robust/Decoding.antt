-- ===== src/Client/Robust/Decoding.antt =====
-- `response::decode` of every class on packets of any bytes.
use modbus_cpp.Prelude.{◌≢◌, ◌≤◌, length, Bool, All}
use modbus_cpp.Types.{Packet, IsByte}
use modbus_cpp.Errors.{Result, ok, throw, undefined}
use modbus_cpp.Actions.Gives.{Returning, Any}
use modbus_cpp.Struc.{Struc, IsBigEndian}
use modbus_cpp.Response.{Derived, decode}
use modbus_cpp.Response.Defined.{decode-Returning}
use modbus_cpp.BitRead.Response as ReadBitsResponse
use modbus_cpp.RegisterRead.Response as ReadRegistersResponse
use modbus_cpp.BitWrite.SingleCoil.Response as WriteCoilResponse
use modbus_cpp.BitWrite.MultipleCoils.Response as WriteCoilsResponse
use modbus_cpp.RegisterWrite.SingleRegister.Response as WriteRegisterResponse
use modbus_cpp.RegisterWrite.MultipleRegisters.Response as WriteRegistersResponse
use modbus_cpp.RegisterWrite.MaskWrite.Response as MaskWriteResponse
use modbus_cpp.RegisterWrite.ReadWrite.Response as ReadWriteResponse
use modbus_cpp.Client.Robust.Acknowledged.{
  write_coil-Defined, write_coils-Defined, write_register-Defined, write_registers-Defined,
  mask_write-Defined,
}
use modbus_cpp.Client.Robust.Filled.{read_bits-Defined, read_registers-Defined, read_write-Defined}

returning_defined : (r : Result (Unit {0})) → Returning ⊥ Any r → r ≢ undefined
returning_defined (ok a) h e = cc
returning_defined (throw x) h e = cc
returning_defined undefined h e = h

-- The decoder of a class reads nothing past the end of the packet, whatever it waits for.
abbrev pub StaysInside : {R : Type 0} → Struc → Derived R → Packet → Type 0
StaysInside {R} s d p = (r : R) → (decode s d p r).0 ≢ undefined

-- So do the decoders of all eight classes.
abbrev pub AllStayInside : Struc → Bool → Packet → Type 0
AllStayInside s char_signed p =
    StaysInside s (ReadBitsResponse.derived char_signed) p
    × StaysInside s (ReadRegistersResponse.derived s char_signed) p
    × StaysInside s (WriteCoilResponse.derived s) p
    × StaysInside s (WriteRegisterResponse.derived s) p
    × StaysInside s (WriteCoilsResponse.derived s) p
    × StaysInside s (WriteRegistersResponse.derived s) p
    × StaysInside s (MaskWriteResponse.derived s) p
    × StaysInside s (ReadWriteResponse.derived s) p

module _ (s : Struc) (laws : IsBigEndian s) where
  -- Whatever bytes a packet consists of and whatever response waits for it, `response::decode` of
  -- each of the eight classes returns or throws, and reads nothing past the end of the packet.
  -- Assumed: struc is big-endian.
  pub decode-AllStayInside :
      (char_signed : Bool) (p : Packet) → All IsByte p → AllStayInside s char_signed p
  decode-AllStayInside char_signed p b = (
    λ r. inside _ r λ u h. (read_bits-Defined char_signed p u h).value,
    λ r. inside _ r λ u h. (read_registers-Defined s laws char_signed p u b h).value,
    λ r. inside _ r λ u _. (write_coil-Defined s laws p u).value,
    λ r. inside _ r λ u _. (write_register-Defined s laws p u).value,
    λ r. inside _ r λ u _. (write_coils-Defined s laws p u).value,
    λ r. inside _ r λ u _. (write_registers-Defined s laws p u).value,
    λ r. inside _ r λ u _. (mask_write-Defined s laws p u).value,
    λ r. inside _ r λ u h. (read_write-Defined s laws p u b h).value,
  )
    where
      inside :
          {R : Type 0} (d : Derived R) (r : R)
          → ((u : R) → 8 ≤ length p → Returning ⊥ Any (d.decode_passed p u).0)
          → (decode s d p r).0 ≢ undefined
      inside d r k = returning_defined (decode s d p r).0 (decode-Returning s laws d p r k)
