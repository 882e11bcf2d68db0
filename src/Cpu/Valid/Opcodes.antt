-- ===== src/Cpu/Valid/Opcodes.antt =====
-- The opcode tables: every handler runs as its lemma says, so every opcode does.
pub mod Cases
pub mod Page10
pub mod Page11
pub mod Low
pub mod High
pub mod Execute
