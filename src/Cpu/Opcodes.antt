-- ===== src/Cpu/Opcodes.antt =====
-- Opcode dispatch, simulator/src/hd6309_opcodes.cpp: one table for each of the three pages.
pub mod Page10
pub mod Page11
pub mod Low
pub mod High
pub mod Execute
