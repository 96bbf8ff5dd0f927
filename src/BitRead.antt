-- ===== src/BitRead.antt =====
-- include/modbuscpp/modbuscpp/bit-read.hpp, bit-read.inline.hpp and source/bit-read.cpp: reading
-- coils and discrete inputs.
pub mod Request
pub mod Response
pub mod Serve
