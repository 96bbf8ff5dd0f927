-- ===== src/RequestHandler.antt =====
-- include/modbuscpp/modbuscpp/request-handler.hpp and source/request-handler.cpp: the server's
-- answer to a packet. Logging is left out.
pub mod Answer
pub mod Bounds
pub mod CoilWriting
pub mod Keeping
pub mod Layout
pub mod MaskWriting
pub mod ReadWriting
pub mod Refusing
pub mod RegisterWriting
pub mod BitReading
pub mod RegisterReading
use modbus_cpp.Prelude.{ℕ, leb, ◌==◌, if◌then◌else◌, [], length, get_elem?}
use modbus_cpp.Constants.{bits_on}
use modbus_cpp.Constants.FunctionCode as Code
use modbus_cpp.Types.{Packet}
use modbus_cpp.Errors.{
  Exception, specification, internal, out_of_range, std_exception, Result, bad_data_size, at_result,
}
use modbus_cpp.Actions.{Action, pure, lift, read, throw_if, try_catch, ◌>>=◌, ◌>>◌}
use modbus_cpp.Struc.{Struc}
use modbus_cpp.Adu.{header_length}
use modbus_cpp.Table.{Table}
use modbus_cpp.Pointing.{Pointing}
use modbus_cpp.Request.{illegal, decode_illegal}
use modbus_cpp.Response.{make_error, encode_error}
use modbus_cpp.BitRead.Request as ReadBits
use modbus_cpp.BitRead.Response as ReadBitsResponse
use modbus_cpp.RegisterRead.Request as ReadRegisters
use modbus_cpp.RegisterRead.Response as ReadRegistersResponse
use modbus_cpp.BitWrite.SingleCoil.Request as WriteCoil
use modbus_cpp.BitWrite.SingleCoil.Response as WriteCoilResponse
use modbus_cpp.BitWrite.MultipleCoils.Request as WriteCoils
use modbus_cpp.BitWrite.MultipleCoils.Response as WriteCoilsResponse
use modbus_cpp.RegisterWrite.SingleRegister.Request as WriteRegister
use modbus_cpp.RegisterWrite.SingleRegister.Response as WriteRegisterResponse
use modbus_cpp.RegisterWrite.MultipleRegisters.Request as WriteRegisters
use modbus_cpp.RegisterWrite.MultipleRegisters.Response as WriteRegistersResponse
use modbus_cpp.RegisterWrite.MaskWrite.Request as MaskWrite
use modbus_cpp.RegisterWrite.MaskWrite.Response as MaskWriteResponse
use modbus_cpp.RegisterWrite.ReadWrite.Request as ReadWrite
use modbus_cpp.RegisterWrite.ReadWrite.Response as ReadWriteResponse

-- `req.decode(packet); auto&& res = req.execute(data_table); return res->encode();`
abbrev pub serve :
    {Q R : Type 0}
    → Result (Unit {0}) × Q
    → (Q → Table → Result R)
    → (R → Action Table Packet)
    → Action Table Packet
serve decoded execute encode t =
    (do lift decoded.0; response ← read (execute decoded.1); encode response) t

-- `encode` of a response that only reads the table, and of one that writes to it.
abbrev pub reading : {R : Type 0} → (Table → Action R Packet) → R → Action Table Packet
reading encode r t = ((encode t r).0, t)

abbrev pub writing : {R : Type 0} → Action (Pointing R) Packet → R → Action Table Packet
writing encode r t = ((encode (r, t)).0, (encode (r, t)).1.1)

module _ (s : Struc) where
  unfoldable pub serve_read_bits : ReadBits.Kind → Packet → Action Table Packet
  serve_read_bits kind packet =
      serve (ReadBits.decode s kind packet (ReadBits.make kind 0 1)) (ReadBitsResponse.execute kind)
        (reading (ReadBitsResponse.encode s kind))

  unfoldable pub serve_read_registers : ReadRegisters.Kind → Packet → Action Table Packet
  serve_read_registers kind packet =
      serve (ReadRegisters.decode s kind packet (ReadRegisters.make kind 0 1))
        (ReadRegistersResponse.execute kind) (reading (ReadRegistersResponse.encode s kind))

  unfoldable pub serve_write_coil : Packet → Action Table Packet
  serve_write_coil packet =
      serve (WriteCoil.decode s packet (WriteCoil.make 0 bits_on)) WriteCoilResponse.execute
        (writing (WriteCoilResponse.encode s))

  unfoldable pub serve_write_register : Packet → Action Table Packet
  serve_write_register packet =
      serve (WriteRegister.decode s packet (WriteRegister.make 0 0)) WriteRegisterResponse.execute
        (writing (WriteRegisterResponse.encode s))

  unfoldable pub serve_write_coils : Packet → Action Table Packet
  serve_write_coils packet =
      serve (WriteCoils.decode s packet (WriteCoils.make 0 1 [])) WriteCoilsResponse.execute
        (writing (WriteCoilsResponse.encode s))

  unfoldable pub serve_write_registers : Packet → Action Table Packet
  serve_write_registers packet =
      serve (WriteRegisters.decode s packet (WriteRegisters.make 0 1 []))
        WriteRegistersResponse.execute (writing (WriteRegistersResponse.encode s))

  unfoldable pub serve_mask_write : Packet → Action Table Packet
  serve_mask_write packet =
      serve (MaskWrite.decode s packet (MaskWrite.make 0 0 0)) MaskWriteResponse.execute
        (writing (MaskWriteResponse.encode s))

  unfoldable pub serve_read_write : Packet → Action Table Packet
  serve_read_write packet =
      serve (ReadWrite.decode s packet (ReadWrite.make 0 1 0 1 [])) ReadWriteResponse.execute
        (writing (ReadWriteResponse.encode s))

  -- The `default` of the switch.
  unfoldable pub serve_illegal : Packet → Action Table Packet
  serve_illegal packet = do lift (decode_illegal s packet illegal).0; pure []

  -- The `switch` on the function code.
  unfoldable pub dispatch : ℕ → Packet → Action Table Packet
  dispatch function packet =
      if function == Code.read_coils
      then serve_read_bits ReadBits.read_coils packet
      else if function == Code.read_discrete_inputs
      then serve_read_bits ReadBits.read_discrete_inputs packet
      else if function == Code.read_holding_registers
      then serve_read_registers ReadRegisters.read_holding_registers packet
      else if function == Code.read_input_registers
      then serve_read_registers ReadRegisters.read_input_registers packet
      else if function == Code.write_single_coil
      then serve_write_coil packet
      else if function == Code.write_single_register
      then serve_write_register packet
      else if function == Code.write_multiple_coils
      then serve_write_coils packet
      else if function == Code.write_multiple_registers
      then serve_write_registers packet
      else if function == Code.mask_write_register
      then serve_mask_write packet
      else if function == Code.read_write_multiple_registers
      then serve_read_write packet
      else serve_illegal packet

  -- The `catch` clauses: a specification error is answered, any other ends in an empty packet.
  unfoldable pub on_exception : Exception → Action Table Packet
  on_exception (specification code function h) = lift (encode_error s (make_error code function h))
  on_exception (internal code) = pure []
  on_exception out_of_range = pure []
  on_exception std_exception = pure []

  -- `request_handler::handle`
  unfoldable pub handle : Packet → Action Table Packet
  handle packet =
      try_catch
        (do
          throw_if (λ _. leb (length packet) header_length) (λ _. bad_data_size)
          function ← lift (at_result (get_elem? packet header_length))
          dispatch function packet)
        on_exception
