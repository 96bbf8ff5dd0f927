-- ===== src/RegisterRead.antt =====
-- include/modbuscpp/modbuscpp/register-read.hpp, register-read.inline.hpp and source/register-read.cpp: reading
-- holding and input registers.
pub mod Request
pub mod Response
pub mod Serve
