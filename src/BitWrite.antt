-- ===== src/BitWrite.antt =====
-- include/modbuscpp/modbuscpp/bit-write.hpp and source/bit-write.cpp: writing coils.
pub mod SingleCoil
pub mod MultipleCoils
