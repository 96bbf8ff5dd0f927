-- ===== src/Constants/FunctionCode.antt =====
-- `constants::function_code`, by its underlying numbers.
use modbus_cpp.Prelude.{ℕ}

abbrev pub min : ℕ
min = 0x00

abbrev pub read_coils : ℕ
read_coils = 0x01

abbrev pub read_discrete_inputs : ℕ
read_discrete_inputs = 0x02

abbrev pub read_holding_registers : ℕ
read_holding_registers = 0x03

abbrev pub read_input_registers : ℕ
read_input_registers = 0x04

abbrev pub write_single_coil : ℕ
write_single_coil = 0x05

abbrev pub write_single_register : ℕ
write_single_register = 0x06

abbrev pub read_exception_status : ℕ
read_exception_status = 0x07

abbrev pub diagnostics : ℕ
diagnostics = 0x08

abbrev pub write_multiple_coils : ℕ
write_multiple_coils = 0x0F

abbrev pub write_multiple_registers : ℕ
write_multiple_registers = 0x10

abbrev pub read_file_record : ℕ
read_file_record = 0x14

abbrev pub write_file_record : ℕ
write_file_record = 0x15

abbrev pub mask_write_register : ℕ
mask_write_register = 0x16

abbrev pub read_write_multiple_registers : ℕ
read_write_multiple_registers = 0x17

abbrev pub read_fifo_queue : ℕ
read_fifo_queue = 0x18

abbrev pub encapsulated_interface_transport : ℕ
encapsulated_interface_transport = 0x2B

abbrev pub max : ℕ
max = 0x2C
