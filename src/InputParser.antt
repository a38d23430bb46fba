-- ===== src/InputParser.antt =====
-- common/include/input_parser.h and common/src/input_parser.cc: the command line.
pub mod Numbers
pub mod Options
pub mod Parse
pub mod Bounds
pub mod ClientInvariant
pub mod ClientOptions
pub mod Decimals
pub mod ServerOptions
