-- ===== src/RegisterWrite/SingleRegister.antt =====
-- `write_single_register`, the request and the response.
pub mod Request
pub mod Response
pub mod Serve
