-- ===== src/RegisterWrite.antt =====
-- include/modbuscpp/modbuscpp/register-write.hpp and source/register-write.cpp: writing holding
-- registers.
pub mod SingleRegister
pub mod MultipleRegisters
pub mod MaskWrite
pub mod ReadWrite
