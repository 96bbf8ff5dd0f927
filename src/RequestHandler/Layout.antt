-- ===== src/RequestHandler/Layout.antt =====
-- No packet changes the inputs, nor which addresses the table has.
use modbus_cpp.Prelude.{
  ℕ, Bool, true, false, if◌then◌else◌, ◌==◌, leb, length, get_elem?, [], Option, none, some,
}
use modbus_cpp.Types.{Packet}
use modbus_cpp.Errors.{
  Exception, specification, internal, out_of_range, std_exception, Result, ok, throw, undefined,
  bad_data_size, at_result,
}
use modbus_cpp.Actions.{Action, pure, and_then, if_then_throw, handle_with}
use modbus_cpp.Actions.Keeps.{Keeps, after_catch}
use modbus_cpp.Struc.{Struc}
use modbus_cpp.Adu.{header_length}
use modbus_cpp.Table.{Table}
use modbus_cpp.Table.Kept.{SameLayout, SameLayout-refl, SameLayout-trans, Left}
use modbus_cpp.Pointing.{Pointing}
use modbus_cpp.Constants.FunctionCode as Code
use modbus_cpp.BitWrite.SingleCoil.Request as WriteCoil
use modbus_cpp.BitWrite.SingleCoil.Response as WriteCoilResponse
use modbus_cpp.RegisterWrite.SingleRegister.Request as WriteRegister
use modbus_cpp.RegisterWrite.SingleRegister.Response as WriteRegisterResponse
use modbus_cpp.BitWrite.MultipleCoils.Request as WriteCoils
use modbus_cpp.BitWrite.MultipleCoils.Response as WriteCoilsResponse
use modbus_cpp.RegisterWrite.MultipleRegisters.Request as WriteRegisters
use modbus_cpp.RegisterWrite.MultipleRegisters.Response as WriteRegistersResponse
use modbus_cpp.RegisterWrite.MaskWrite.Request as MaskWrite
use modbus_cpp.RegisterWrite.MaskWrite.Response as MaskWriteResponse
use modbus_cpp.RegisterWrite.ReadWrite.Request as ReadWrite
use modbus_cpp.RegisterWrite.ReadWrite.Response as ReadWriteResponse
use modbus_cpp.BitRead.Request as ReadBits
use modbus_cpp.BitRead.Response as ReadBitsResponse
use modbus_cpp.RegisterRead.Request as ReadRegisters
use modbus_cpp.RegisterRead.Response as ReadRegistersResponse
use modbus_cpp.Constants.{bits_on}
use modbus_cpp.Request.{illegal, decode_illegal}
use modbus_cpp.BitRead.Request.{read_coils, read_discrete_inputs}
use modbus_cpp.RegisterRead.Request.{read_holding_registers, read_input_registers}
use modbus_cpp.RequestHandler.{
  serve, reading, writing, dispatch, handle, on_exception, serve_read_bits, serve_read_registers,
  serve_write_coil, serve_write_coils, serve_write_register, serve_write_registers,
  serve_mask_write, serve_read_write, serve_illegal,
}
use modbus_cpp.RequestHandler.Keeping.{
  write_coil-Left, write_coils-Left, write_register-Left, write_registers-Left, mask_write-Left,
  read_write-Left,
}

module _ {R : Type 0} where
  answered :
      (x : Result R) (encode : R → Action Table Packet)
      → ((r : R) → Keeps SameLayout (encode r))
      → (t : Table) → SameLayout t (and_then (x, t) encode).1
  answered (ok r) encode h t = h r t
  answered (throw e) encode h t = SameLayout-refl t
  answered undefined encode h t = SameLayout-refl t

  writing-SameLayout :
      (encode : Action (Pointing R) Packet)
      → ((w : Pointing R) → Left w.1 (encode w))
      → (r : R) → Keeps SameLayout (writing encode r)
  writing-SameLayout encode h r t = (h (r, t)).layout

serve-SameLayout :
    {Q R : Type 0} (decoded : Result (Unit {0}) × Q) (execute : Q → Table → Result R)
    (encode : R → Action Table Packet)
    → ((r : R) → Keeps SameLayout (encode r))
    → Keeps SameLayout (serve decoded execute encode)
serve-SameLayout (ok _, q) execute encode h t = answered (execute q t) encode h t
serve-SameLayout (throw e, q) execute encode h t = SameLayout-refl t
serve-SameLayout (undefined, q) execute encode h t = SameLayout-refl t

either-SameLayout :
    (c : Bool) (m k : Action Table Packet)
    → Keeps SameLayout m
    → Keeps SameLayout k
    → Keeps SameLayout (if c then m else k)
either-SameLayout true m k h i = h
either-SameLayout false m k h i = i

module _ (s : Struc) where
  write_coil-SameLayout : (p : Packet) → Keeps SameLayout (serve_write_coil s p)
  unfolding serve_write_coil
  write_coil-SameLayout p =
      serve-SameLayout (WriteCoil.decode s p (WriteCoil.make 0 bits_on)) WriteCoilResponse.execute
        (writing (WriteCoilResponse.encode s))
        (writing-SameLayout (WriteCoilResponse.encode s) (write_coil-Left s))

  write_register-SameLayout : (p : Packet) → Keeps SameLayout (serve_write_register s p)
  unfolding serve_write_register
  write_register-SameLayout p =
      serve-SameLayout (WriteRegister.decode s p (WriteRegister.make 0 0))
        WriteRegisterResponse.execute (writing (WriteRegisterResponse.encode s))
        (writing-SameLayout (WriteRegisterResponse.encode s) (write_register-Left s))

  write_coils-SameLayout : (p : Packet) → Keeps SameLayout (serve_write_coils s p)
  unfolding serve_write_coils
  write_coils-SameLayout p =
      serve-SameLayout (WriteCoils.decode s p (WriteCoils.make 0 1 [])) WriteCoilsResponse.execute
        (writing (WriteCoilsResponse.encode s))
        (writing-SameLayout (WriteCoilsResponse.encode s) (write_coils-Left s))

  write_registers-SameLayout : (p : Packet) → Keeps SameLayout (serve_write_registers s p)
  unfolding serve_write_registers
  write_registers-SameLayout p =
      serve-SameLayout (WriteRegisters.decode s p (WriteRegisters.make 0 1 []))
        WriteRegistersResponse.execute (writing (WriteRegistersResponse.encode s))
        (writing-SameLayout (WriteRegistersResponse.encode s) (write_registers-Left s))

  mask_write-SameLayout : (p : Packet) → Keeps SameLayout (serve_mask_write s p)
  unfolding serve_mask_write
  mask_write-SameLayout p =
      serve-SameLayout (MaskWrite.decode s p (MaskWrite.make 0 0 0)) MaskWriteResponse.execute
        (writing (MaskWriteResponse.encode s))
        (writing-SameLayout (MaskWriteResponse.encode s) (mask_write-Left s))

  read_write-SameLayout : (p : Packet) → Keeps SameLayout (serve_read_write s p)
  unfolding serve_read_write
  read_write-SameLayout p =
      serve-SameLayout (ReadWrite.decode s p (ReadWrite.make 0 1 0 1 [])) ReadWriteResponse.execute
        (writing (ReadWriteResponse.encode s))
        (writing-SameLayout (ReadWriteResponse.encode s) (read_write-Left s))

  read_bits-SameLayout :
      (kind : ReadBits.Kind) (p : Packet) → Keeps SameLayout (serve_read_bits s kind p)
  unfolding serve_read_bits
  read_bits-SameLayout kind p =
      serve-SameLayout (ReadBits.decode s kind p (ReadBits.make kind 0 1))
        (ReadBitsResponse.execute kind) (reading (ReadBitsResponse.encode s kind))
        (λ _. SameLayout-refl)

  read_registers-SameLayout :
      (kind : ReadRegisters.Kind) (p : Packet) → Keeps SameLayout (serve_read_registers s kind p)
  unfolding serve_read_registers
  read_registers-SameLayout kind p =
      serve-SameLayout (ReadRegisters.decode s kind p (ReadRegisters.make kind 0 1))
        (ReadRegistersResponse.execute kind) (reading (ReadRegistersResponse.encode s kind))
        (λ _. SameLayout-refl)

  illegal-SameLayout : (p : Packet) → Keeps SameLayout (serve_illegal s p)
  unfolding serve_illegal
  illegal-SameLayout p t =
      answered (decode_illegal s p illegal).0 (λ _. pure []) (λ _. SameLayout-refl) t

  dispatch-SameLayout : (code : ℕ) (p : Packet) → Keeps SameLayout (dispatch s code p)
  unfolding dispatch
  dispatch-SameLayout code p =
      either-SameLayout (code == Code.read_coils) _ _ (read_bits-SameLayout read_coils p) (
        either-SameLayout (code == Code.read_discrete_inputs) _ _
          (read_bits-SameLayout read_discrete_inputs p)
          (either-SameLayout (code == Code.read_holding_registers) _ _
            (read_registers-SameLayout read_holding_registers p)
            (either-SameLayout (code == Code.read_input_registers) _ _
              (read_registers-SameLayout read_input_registers p)
              (either-SameLayout (code == Code.write_single_coil) _ _ (write_coil-SameLayout p) (
                either-SameLayout (code == Code.write_single_register) _ _
                  (write_register-SameLayout p)
                  (either-SameLayout (code == Code.write_multiple_coils) _ _
                    (write_coils-SameLayout p)
                    (either-SameLayout (code == Code.write_multiple_registers) _ _
                      (write_registers-SameLayout p)
                      (either-SameLayout (code == Code.mask_write_register) _ _
                        (mask_write-SameLayout p)
                        (either-SameLayout (code == Code.read_write_multiple_registers) _ _
                          (read_write-SameLayout p) (illegal-SameLayout p))))))))))

  on_exception-SameLayout : (e : Exception) → Keeps SameLayout (on_exception s e)
  unfolding on_exception
  on_exception-SameLayout (specification code function h) t = SameLayout-refl t
  on_exception-SameLayout (internal code) t = SameLayout-refl t
  on_exception-SameLayout out_of_range t = SameLayout-refl t
  on_exception-SameLayout std_exception t = SameLayout-refl t

  checked-SameLayout :
      (short : Bool) (code : Option ℕ) (p : Packet) (t : Table)
      → SameLayout t
          (handle_with
            (and_then
              (if_then_throw short bad_data_size t)
              (λ _ u. and_then (at_result code, u) (λ function. dispatch s function p)))
            (on_exception s)).1
  checked-SameLayout true code p t = on_exception-SameLayout bad_data_size t
  checked-SameLayout false none p t = on_exception-SameLayout out_of_range t
  checked-SameLayout false (some function) p t =
      after_catch SameLayout SameLayout-trans t (dispatch s function p t) (on_exception s)
        (dispatch-SameLayout function p t) on_exception-SameLayout

  -- Whatever packet the server gets and however `handle` ends, the discrete inputs and the input
  -- registers are as before, and the coils and holding registers have the same addresses.
  pub handle-SameLayout : (p : Packet) (t : Table) → SameLayout t (handle s p t).1
  unfolding handle
  handle-SameLayout p t =
      checked-SameLayout (leb (length p) header_length) (get_elem? p header_length) p t
