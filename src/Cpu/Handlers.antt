-- ===== src/Cpu/Handlers.antt =====
-- The handlers that the opcode tables name: the macros of hd6309_opcodes.cpp, and the bodies that
-- it writes out, in the children.
mod Operands
mod Stacking
mod Special
unfoldable pub use Operands.*
unfoldable pub use Stacking.*
unfoldable pub use Special.*
