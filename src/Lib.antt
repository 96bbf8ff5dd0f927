-- ===== src/Lib.antt =====
-- modbus-cpp, a Modbus/TCP library: what its server does with a packet, and the parts it is made of.
--
-- The program. A server owns a data table of four blocks: coils and discrete inputs (bits), holding
-- registers and input registers (16-bit numbers). For each packet that arrives, `request_handler`
-- picks a request class by the function code at offset 7, has it decode the packet, execute itself
-- on the table (which checks the addresses and makes a response), and has the response encode
-- itself; the responses of writing requests change the table there. A specification error is
-- answered with an exception packet, any other exception with nothing. A client encodes the same
-- requests and decodes the answers by `response::decode`.
--
-- Which file models which code (paths from the repository's root; M stands for
-- include/modbuscpp/modbuscpp):
--   Constants, Types, Errors        M/constants.hpp, M/types.hpp, M/exception.hpp
--   Adu, Adu/Wire                   M/adu.hpp, source/adu.cpp: the header on the wire
--   Operation, Operation/Packing    source/operation.cpp: bits in bytes
--   Block and its children          M/data-table.hpp, M/data-table.inline.hpp
--   Table, Table/Kept               `table` of M/data-table.hpp, source/data-table.cpp
--   Request, Response               M/request.hpp, M/response.hpp and their sources
--   BitRead, RegisterRead           M/bit-read*.hpp, M/register-read*.hpp and their sources
--   BitWrite, RegisterWrite         source/bit-write.cpp, source/register-write.cpp
--   Registers                       the loops over registers that those share
--   RequestHandler                  source/request-handler.cpp; its children say what it answers,
--                                   and RequestHandler/Bounds what every answer keeps to
--   Server and its children         source/server.cpp: connect, disconnect, receive, and what
--                                   holds after any events
--   Device and its children         the specification: a device without packets or exceptions, and
--                                   that the server implements it
--   Client                          encode, handle and decode in one exchange, as in
--                                   standalone/source/client.cpp; Client/Robust has what it
--                                   does with answers of any bytes
--   Utilities, Logger               M/utilities.hpp; M/logger.hpp, source/logger.cpp
--   Actions, Pointing, Struc        methods with exceptions, the table a response points to, and
--                                   the library struc
--   Frame                           packets, for the statements
--   Examples                        the theorems at concrete inputs
-- In BitRead and its like `Request` and `Response` hold the two classes, and `Serve` what the server
-- does with them.
--
-- How. An object is a record, and a method an `Action`: a function from the object to the way the
-- call ends and the object it leaves, also when it throws. A call ends with a value, with a thrown
-- exception or in undefined behaviour: struc::unpack reads from a bare pointer, and a read past the
-- end of the packet, or outside of a vector by `operator[]`, is `undefined`. A byte is a number below
-- 256; 16-bit and 8-bit conversions are written out as remainders. A template over a function code
-- is a function of the kind of request. `execute` and `encode` work on one copy of the request, since
-- the response only reads it; a response that writes is paired with the table (`Pointing`), so that
-- a read after a write sees it.
--
-- The library struc (outside of the repository) is the parameter `Struc`; what the code relies on is
-- `IsBigEndian`: big-endian numbers, one after the other. `Struc.BigEndian` shows that it can hold.
-- Whether a `char` is signed is a parameter of the client's decoders.
--
-- The sums of an address and a count that `Block` compares are of 64 bits in the code. `validate_sz`
-- has them without wrap-around, for the counts of the count types and the sizes of vectors;
-- `validate_size` has it, for `ref`, which takes any count.
--
-- Every function is by structural recursion; there is no fuel.
--
-- Not modelled: the calls of the logger inside other components, the `dump` printers, texts of
-- exceptions, the TCP server and sessions, locks (each call on a block is one step), derived
-- loggers, the standalone programs, tests and build files.
pub mod Prelude
pub mod Constants
pub mod Types
pub mod Errors
pub mod Actions
pub mod Struc
pub mod Adu
pub mod Frame
pub mod Operation
pub mod Block
pub mod Table
pub mod Response
pub mod Request
pub mod Registers
pub mod BitRead
pub mod RegisterRead
pub mod BitWrite
pub mod RegisterWrite
pub mod Pointing
pub mod RequestHandler
pub mod Client
pub mod Server
pub mod Device
pub mod Utilities
pub mod Logger
pub mod Examples
