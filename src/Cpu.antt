-- ===== src/Cpu.antt =====
-- The CPU core, simulator/src/hd6309_*.cpp.
pub mod Types
pub mod Monad
pub mod Flags
pub mod Alu
pub mod Rmw
pub mod Memory
pub mod Registers
pub mod Indexed
pub mod Interrupts
pub mod Transfer
pub mod Handlers
pub mod Opcodes
pub mod Run
pub mod RamBus
pub mod Valid
pub mod FlagBits
pub mod Compare
pub mod Stack
pub mod Masking
mod Tests
