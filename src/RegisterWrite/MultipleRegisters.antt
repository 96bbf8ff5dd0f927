-- ===== src/RegisterWrite/MultipleRegisters.antt =====
-- `write_multiple_registers`, the request and the response.
pub mod Request
pub mod Response
pub mod Serve
