-- ===== src/BitWrite/SingleCoil.antt =====
-- `write_single_coil`, the request and the response.
pub mod Request
pub mod Response
pub mod Serve
