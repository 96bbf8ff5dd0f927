-- ===== src/Client/RegistersRefused.antt =====
-- Clients that ask for registers that are not there.
use modbus_cpp.Prelude.{ℕ, ◌≡◌, refl, Bool, true, []}
use modbus_cpp.Constants.{check_function}
use modbus_cpp.Types.{IsU16}
use modbus_cpp.Errors.{throw, std_exception}
use modbus_cpp.Struc.{Struc, IsBigEndian}
use modbus_cpp.Frame
use modbus_cpp.Frame.{Mbap, reply}
use modbus_cpp.Block.Range.{InRange}
use modbus_cpp.Table.{Table, read_num_regs}
use modbus_cpp.RegisterRead.Request.{
  Kind, code, block, read_holding_registers, read_input_registers,
}
use modbus_cpp.RegisterRead.Request as Request
use modbus_cpp.RegisterRead.Response.{derived}
use modbus_cpp.RegisterRead.Response as Response
use modbus_cpp.RegisterRead.Serve.{request}
use modbus_cpp.Response.Decode.{decode-exception}
use modbus_cpp.RequestHandler.RegisterReading.{handle_read_registers_refused}
use modbus_cpp.Client.{ask, ask_throw}
use modbus_cpp.Client.Registers.{asked, encode_lem}

module _ (s : Struc) (laws : IsBigEndian s) where
  -- A client that asks for registers that the server's block does not hold, or for 0 or more than
  -- 125 of them, gets a plain `std::exception`, and the server's table stays as it was. Assumed:
  -- struc is big-endian and the numbers of the request fit their types.
  pub ask-read_registers_refused :
      (kind : Kind) (char_signed : Bool) (m : Mbap) (address count : ℕ) (t : Table)
      → Frame.IsValid m
      → IsU16 address
      → IsU16 count
      → ¬ (InRange (block kind t) address count × (read_num_regs count ≡ true))
      → ask s
          (derived s char_signed)
          (Response.make kind)
          (Request.encode s)
          (asked kind m address count)
          t
        ≡ (throw std_exception, t)
  ask-read_registers_refused kind char_signed m address count t v h k out =
      ask_throw s (derived s char_signed) (Response.make kind) (Request.encode s) _ _ _ _ _ t t
        (encode_lem s laws kind m address count v h k)
        (handle_read_registers_refused s laws kind (reply m 6) address count [] t
          (Frame.reply-IsValid m 6 v) k out)
        (decode-exception s laws (derived s char_signed) (reply m 6) (code kind) 2
          (Response.make kind (request kind (reply m 6) address count))
          (record { transaction = refl; unit = refl }) (is_function kind) refl)
    where
      is_function : (kd : Kind) → check_function (code kd) ≡ true
      is_function read_holding_registers = refl
      is_function read_input_registers = refl
