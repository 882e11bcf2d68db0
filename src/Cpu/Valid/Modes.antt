-- ===== src/Cpu/Valid/Modes.antt =====
-- The macros for one addressing mode: what `*_at` keeps, at that mode's address.
use pugputer6309_emulator.Base.{ℕ, arith, Bool}
use pugputer6309_emulator.Cpu.Types.{Callbacks, ReadsBytes, AluOp, RmwOp}
use pugputer6309_emulator.Cpu.Registers.{Reg8, Reg16}
use pugputer6309_emulator.Cpu.Handlers
use pugputer6309_emulator.Cpu.Handlers.{LogicOp}
use pugputer6309_emulator.Cpu.Valid.Operands.{
  Executes, Small, direct, indexed, extended, alu8_at-Runs, st8_at-Runs, rmw8_at-Runs,
  alu16_at-Runs, ld16_at-Runs, st16_at-Runs, cmp16_at-Runs, logicmem_at-Runs,
}

module _ {S : Type 0} ⦃io : Callbacks S⦄ (bytes : ReadsBytes io) where
  pub alu8_dir-Runs :
      (reg : Reg8) (op : AluOp) (em nm : ℕ)
      → Small em nm
      → Executes {S = S} (Handlers.alu8_dir reg op em nm)
  unfolding Handlers.alu8_dir
  alu8_dir-Runs reg op em nm h = alu8_at-Runs bytes (direct bytes) reg op em nm h

  pub alu16_dir-Runs :
      (reg : Reg16) (op : AluOp) (em nm : ℕ)
      → Small em nm
      → Executes {S = S} (Handlers.alu16_dir reg op em nm)
  unfolding Handlers.alu16_dir
  alu16_dir-Runs reg op em nm h = alu16_at-Runs bytes (direct bytes) reg op em nm h

  pub ld16_dir-Runs :
      (reg : Reg16) (em nm : ℕ) → Small em nm → Executes {S = S} (Handlers.ld16_dir reg em nm)
  unfolding Handlers.ld16_dir
  ld16_dir-Runs reg em nm h = ld16_at-Runs bytes (direct bytes) reg em nm h

  pub cmp16_dir-Runs :
      (reg : Reg16) (em nm : ℕ) → Small em nm → Executes {S = S} (Handlers.cmp16_dir reg em nm)
  unfolding Handlers.cmp16_dir
  cmp16_dir-Runs reg em nm h = cmp16_at-Runs bytes (direct bytes) reg em nm h

  pub st8_dir-Runs :
      (reg : Reg8) (em nm : ℕ) → Small em nm → Executes {S = S} (Handlers.st8_dir reg em nm)
  unfolding Handlers.st8_dir
  st8_dir-Runs reg em nm h = st8_at-Runs reg em nm (direct bytes) h

  pub st16_dir-Runs :
      (reg : Reg16) (em nm : ℕ) → Small em nm → Executes {S = S} (Handlers.st16_dir reg em nm)
  unfolding Handlers.st16_dir
  st16_dir-Runs reg em nm h = st16_at-Runs reg em nm (direct bytes) h

  pub rmw8_dir-Runs : (op : RmwOp) → Executes {S = S} (Handlers.rmw8_dir op)
  unfolding Handlers.rmw8_dir
  rmw8_dir-Runs op = rmw8_at-Runs bytes (direct bytes) op 6 5 (omega arith)

  pub logicmem_dir-Runs :
      (op : LogicOp) (write : Bool) → Executes {S = S} (Handlers.logicmem_dir op write)
  unfolding Handlers.logicmem_dir
  logicmem_dir-Runs op write =
      logicmem_at-Runs bytes (direct bytes) op write 6 (omega arith) (omega arith)

  pub alu8_idx-Runs :
      (reg : Reg8) (op : AluOp) (n : ℕ) → Small n n → Executes {S = S} (Handlers.alu8_idx reg op n)
  unfolding Handlers.alu8_idx
  alu8_idx-Runs reg op n h = alu8_at-Runs bytes (indexed bytes) reg op n n h

  pub alu16_idx-Runs :
      (reg : Reg16) (op : AluOp) (n : ℕ)
      → Small n n
      → Executes {S = S} (Handlers.alu16_idx reg op n)
  unfolding Handlers.alu16_idx
  alu16_idx-Runs reg op n h = alu16_at-Runs bytes (indexed bytes) reg op n n h

  pub ld16_idx-Runs : (reg : Reg16) (n : ℕ) → Small n n → Executes {S = S} (Handlers.ld16_idx reg n)
  unfolding Handlers.ld16_idx
  ld16_idx-Runs reg n h = ld16_at-Runs bytes (indexed bytes) reg n n h

  pub cmp16_idx-Runs :
      (reg : Reg16) (n : ℕ) → Small n n → Executes {S = S} (Handlers.cmp16_idx reg n)
  unfolding Handlers.cmp16_idx
  cmp16_idx-Runs reg n h = cmp16_at-Runs bytes (indexed bytes) reg n n h

  pub st8_idx-Runs : (reg : Reg8) (n : ℕ) → Small n n → Executes {S = S} (Handlers.st8_idx reg n)
  unfolding Handlers.st8_idx
  st8_idx-Runs reg n h = st8_at-Runs reg n n (indexed bytes) h

  pub st16_idx-Runs : (reg : Reg16) (n : ℕ) → Small n n → Executes {S = S} (Handlers.st16_idx reg n)
  unfolding Handlers.st16_idx
  st16_idx-Runs reg n h = st16_at-Runs reg n n (indexed bytes) h

  pub rmw8_idx-Runs : (op : RmwOp) → Executes {S = S} (Handlers.rmw8_idx op)
  unfolding Handlers.rmw8_idx
  rmw8_idx-Runs op = rmw8_at-Runs bytes (indexed bytes) op 6 6 (omega arith)

  pub logicmem_idx-Runs :
      (op : LogicOp) (write : Bool) → Executes {S = S} (Handlers.logicmem_idx op write)
  unfolding Handlers.logicmem_idx
  logicmem_idx-Runs op write =
      logicmem_at-Runs bytes (indexed bytes) op write 7 (omega arith) (omega arith)

  pub alu8_ext-Runs :
      (reg : Reg8) (op : AluOp) (em nm : ℕ)
      → Small em nm
      → Executes {S = S} (Handlers.alu8_ext reg op em nm)
  unfolding Handlers.alu8_ext
  alu8_ext-Runs reg op em nm h = alu8_at-Runs bytes (extended bytes) reg op em nm h

  pub alu16_ext-Runs :
      (reg : Reg16) (op : AluOp) (em nm : ℕ)
      → Small em nm
      → Executes {S = S} (Handlers.alu16_ext reg op em nm)
  unfolding Handlers.alu16_ext
  alu16_ext-Runs reg op em nm h = alu16_at-Runs bytes (extended bytes) reg op em nm h

  pub ld16_ext-Runs :
      (reg : Reg16) (em nm : ℕ) → Small em nm → Executes {S = S} (Handlers.ld16_ext reg em nm)
  unfolding Handlers.ld16_ext
  ld16_ext-Runs reg em nm h = ld16_at-Runs bytes (extended bytes) reg em nm h

  pub cmp16_ext-Runs :
      (reg : Reg16) (em nm : ℕ) → Small em nm → Executes {S = S} (Handlers.cmp16_ext reg em nm)
  unfolding Handlers.cmp16_ext
  cmp16_ext-Runs reg em nm h = cmp16_at-Runs bytes (extended bytes) reg em nm h

  pub st8_ext-Runs :
      (reg : Reg8) (em nm : ℕ) → Small em nm → Executes {S = S} (Handlers.st8_ext reg em nm)
  unfolding Handlers.st8_ext
  st8_ext-Runs reg em nm h = st8_at-Runs reg em nm (extended bytes) h

  pub st16_ext-Runs :
      (reg : Reg16) (em nm : ℕ) → Small em nm → Executes {S = S} (Handlers.st16_ext reg em nm)
  unfolding Handlers.st16_ext
  st16_ext-Runs reg em nm h = st16_at-Runs reg em nm (extended bytes) h

  pub rmw8_ext-Runs : (op : RmwOp) → Executes {S = S} (Handlers.rmw8_ext op)
  unfolding Handlers.rmw8_ext
  rmw8_ext-Runs op = rmw8_at-Runs bytes (extended bytes) op 7 6 (omega arith)

  pub logicmem_ext-Runs :
      (op : LogicOp) (write : Bool) → Executes {S = S} (Handlers.logicmem_ext op write)
  unfolding Handlers.logicmem_ext
  logicmem_ext-Runs op write =
      logicmem_at-Runs bytes (extended bytes) op write 7 (omega arith) (omega arith)
