-- ===== src/BitWrite/MultipleCoils.antt =====
-- `write_multiple_coils`, the request and the response.
pub mod Request
pub mod Response
pub mod Serve
