-- ===== src/Constants/ExceptionCode.antt =====
-- `constants::exception_code`, by its underlying numbers.
use modbus_cpp.Prelude.{ℕ}

abbrev pub min : ℕ
min = 0

abbrev pub illegal_function : ℕ
illegal_function = 1

abbrev pub illegal_data_address : ℕ
illegal_data_address = 2

abbrev pub illegal_data_value : ℕ
illegal_data_value = 3

abbrev pub server_device_failure : ℕ
server_device_failure = 4

abbrev pub acknowledge : ℕ
acknowledge = 5

abbrev pub server_device_busy : ℕ
server_device_busy = 6

abbrev pub negative_acknowledge : ℕ
negative_acknowledge = 7

abbrev pub memory_parity_error : ℕ
memory_parity_error = 8

abbrev pub undef : ℕ
undef = 9

abbrev pub gateway_path_unavailable : ℕ
gateway_path_unavailable = 10

abbrev pub gateway_target_device_failed_to_respond : ℕ
gateway_target_device_failed_to_respond = 11

abbrev pub bad_data : ℕ
bad_data = 12

abbrev pub bad_data_size : ℕ
bad_data_size = 13

abbrev pub connection_problem : ℕ
connection_problem = 14

abbrev pub bad_exception : ℕ
bad_exception = 15

abbrev pub no_exception : ℕ
no_exception = 16

abbrev pub max : ℕ
max = 17
