-- ===== src/Uart.antt =====
-- simulator/src/pugputer/uart_r65c51.cpp and simulator/include/pugputer/uart_r65c51.hpp: the chip's
-- state and timing (Types), its operations (Control), and what is proved of them.
pub mod Types
pub mod Control
pub mod Events
pub mod Status
pub mod Timing
pub mod Valid
pub mod Transmit
pub mod Receive
pub mod Interrupt
mod Tests
