-- ===== src/Sd.antt =====
-- simulator/src/pugputer/sdcard_device.cpp and simulator/include/pugputer/sdcard_device.hpp: the
-- device (Card), and what is proved of it.
pub mod Card
pub mod Valid
pub mod Stream
pub mod Store
pub mod Errors
mod Tests
