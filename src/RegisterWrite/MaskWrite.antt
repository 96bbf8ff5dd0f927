-- ===== src/RegisterWrite/MaskWrite.antt =====
-- `mask_write_register`, the request and the response.
pub mod Request
pub mod Response
pub mod Serve
