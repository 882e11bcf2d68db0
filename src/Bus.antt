-- ===== src/Bus.antt =====
-- The system around the CPU, simulator/include/pugputer and simulator/src/pugputer: the banked RAM
-- and the devices of `class SystemBus`.
pub mod Device
pub mod Types
pub mod Access
pub mod Control
pub mod Banks
pub mod Mapping
pub mod Lines
pub mod Run
pub mod Composed
pub mod Reset
mod Tests
