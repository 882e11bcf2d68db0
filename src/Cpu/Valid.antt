-- ===== src/Cpu/Valid.antt =====
-- Validity of the CPU: every register stays in the range of its C++ type, and every instruction
-- spends a bounded, positive number of cycles. `Spec` has the statements, the other children the
-- proofs, one for each part of the code.
pub mod Spec
pub mod Flags
pub mod Memory
pub mod Indexed
pub mod Interrupts
pub mod Transfer
pub mod Operands
pub mod Stacking
pub mod Special
pub mod Modes
pub mod Opcodes
pub mod Step
pub mod Run
pub mod Reset
