-- ===== src/Srec.antt =====
-- simulator/src/pugputer/srec_loader.cpp and simulator/include/pugputer/srec_loader.hpp: the records
-- and their text (Text, Parse), the loader (Load), and what is proved of them.
pub mod Text
pub mod Parse
pub mod Load
pub mod Bounds
pub mod Order
pub mod Hex
pub mod Printed
pub mod Roundtrip
pub mod Checksum
pub mod Mismatch
mod Tests
