-- ===== src/Constants.antt =====
-- include/modbuscpp/modbuscpp/constants.hpp: function codes, exception codes, limits and the
-- tests on them. An `enum class` over `std::uint8_t` holds any byte, so a code is its number.
use Prim.Native.String.{String}
use modbus_cpp.Prelude.{ℕ, Bool, ltb, ◌==◌, ◌&&◌, ◌||◌, not, if◌then◌else◌}
pub mod FunctionCode
pub mod ExceptionCode

abbrev pub max_adu_length : ℕ
max_adu_length = 260

abbrev pub tcp_protocol : ℕ
tcp_protocol = 0x00

abbrev pub max_num_bits_read : ℕ
max_num_bits_read = 0x07D0

abbrev pub max_num_regs_read : ℕ
max_num_regs_read = 0x007D

abbrev pub max_num_bits_write : ℕ
max_num_bits_write = 0x07B0

abbrev pub max_num_regs_write : ℕ
max_num_regs_write = 0x007B

abbrev pub max_address : ℕ
max_address = 0xFFFF

-- `value::bits`
abbrev pub bits_off : ℕ
bits_off = 0x0000

abbrev pub bits_on : ℕ
bits_on = 0xFF00

-- `check_function(std::uint8_t)`
abbrev pub check_function : ℕ → Bool
check_function function = ltb FunctionCode.min function && ltb function FunctionCode.max

-- `check_function(constants::function_code)`
abbrev pub check_function_enum : ℕ → Bool
check_function_enum function =
    not (function == FunctionCode.min) && not (function == FunctionCode.max)

-- `check_exception(std::uint8_t)`
abbrev pub check_exception : ℕ → Bool
check_exception exception = ltb ExceptionCode.min exception && ltb exception ExceptionCode.max

abbrev pub check_bits_value : ℕ → Bool
check_bits_value value = value == bits_off || value == bits_on

-- `check_function(constants::exception_code)`
abbrev pub check_exception_enum : ℕ → Bool
check_exception_enum exception =
    not (exception == ExceptionCode.min) && not (exception == ExceptionCode.max)

-- `function_code_str`
unfoldable pub function_code_str : ℕ → String
function_code_str code =
    if code == FunctionCode.read_coils
    then "read coils"
    else if code == FunctionCode.read_discrete_inputs
    then "read discrete inputs"
    else if code == FunctionCode.read_holding_registers
    then "read holding registers"
    else if code == FunctionCode.read_input_registers
    then "read input registers"
    else if code == FunctionCode.write_single_coil
    then "write single coil"
    else if code == FunctionCode.write_single_register
    then "write single register"
    else if code == FunctionCode.read_exception_status
    then "read exception status"
    else if code == FunctionCode.diagnostics
    then "diagnostics"
    else if code == FunctionCode.write_multiple_coils
    then "write multiple coils"
    else if code == FunctionCode.write_multiple_registers
    then "write multiple registers"
    else if code == FunctionCode.read_file_record
    then "read file record"
    else if code == FunctionCode.write_file_record
    then "write file record"
    else if code == FunctionCode.mask_write_register
    then "mask write register"
    else if code == FunctionCode.read_write_multiple_registers
    then "read write multiple registers"
    else if code == FunctionCode.read_fifo_queue
    then "read fifo queue"
    else if code == FunctionCode.encapsulated_interface_transport
    then "encapsulated interface transport"
    else "Unknown"
