-- ===== src/Cpu/Handlers/Operands.antt =====
-- The macros of hd6309_opcodes.cpp. A macro for one addressing mode is its body applied to that
-- mode's effective address; `em` and `nm` are the costs in emulation and in native mode.
use pugputer6309_emulator.Base.{ℕ, bit_and, bit_or, bit_xor, u8, Bool, false}
use pugputer6309_emulator.Cpu.Types.{Callbacks, AluOp, RmwOp, tst, cc_v}
use pugputer6309_emulator.Cpu.Monad.{M, ◌>>=◌, ◌>>◌, gets, modify_regs, when, add_cycles}
use pugputer6309_emulator.Cpu.Flags.{set_flag, set_nz8, set_nz16}
use pugputer6309_emulator.Cpu.Alu.{apply_alu8, apply_alu16, cmp16}
use pugputer6309_emulator.Cpu.Rmw.{rmw8, rmw16}
use pugputer6309_emulator.Cpu.Memory.{
  read8, write8, read16, write16, fetch8, fetch16, ea_direct, ea_extended,
}
use pugputer6309_emulator.Cpu.Registers.{Reg8, Reg16, get8, set8, get16, set16}
use pugputer6309_emulator.Cpu.Indexed.{ea_indexed}
use pugputer6309_emulator.Cpu.Interrupts.{add_cycles_by_mode}

-- The operators that `LOGICMEM_*` is applied to: `|`, `&` and `^`.
pub data LogicOp : Type 0 where
  bits_or bits_and bits_eor : LogicOp

abbrev pub logic_op : LogicOp → ℕ → ℕ → ℕ
logic_op bits_or = bit_or
logic_op bits_and = bit_and
logic_op bits_eor = bit_xor

module _ {S : Type 0} where
  -- `REG = apply_alu8(op, REG, v)`
  unfoldable pub operate8 : Reg8 → AluOp → ℕ → M S (Unit {0})
  operate8 reg op v = do
    old ← gets (λ c. get8 reg c.regs)
    new ← apply_alu8 op old v
    modify_regs (set8 reg new)

  -- `SET(apply_alu16(op, GET(), v))`
  unfoldable pub operate16 : Reg16 → AluOp → ℕ → M S (Unit {0})
  operate16 reg op v = do
    old ← gets (λ c. get16 reg c.regs)
    new ← apply_alu16 op old v
    modify_regs (set16 reg new)

  -- `set_flag(CC_V, false); set_nz8(v);` and the 16-bit form.
  unfoldable pub flags8 : ℕ → M S (Unit {0})
  flags8 v = do set_flag cc_v false; set_nz8 v

  unfoldable pub flags16 : ℕ → M S (Unit {0})
  flags16 v = do set_flag cc_v false; set_nz16 v

  -- `set_flag(CC_V, false); set_nz16(v); LV = v;`
  unfoldable pub load16 : Reg16 → ℕ → M S (Unit {0})
  load16 reg v = do flags16 v; modify_regs (set16 reg v)

  unfoldable pub compare16 : Reg16 → ℕ → M S (Unit {0})
  compare16 reg v = do old ← gets (λ c. get16 reg c.regs); cmp16 old v

  -- RMW8_INH, RMW8E_INH and RMW8F_INH; RMW16D_INH and RMW16W_INH.
  unfoldable pub rmw8_inh : RmwOp → Reg8 → ℕ → ℕ → M S (Unit {0})
  rmw8_inh op reg em nm = do
    old ← gets (λ c. get8 reg c.regs)
    new ← rmw8 op old
    modify_regs (set8 reg new)
    add_cycles_by_mode em nm

  unfoldable pub rmw16_inh : RmwOp → Reg16 → M S (Unit {0})
  rmw16_inh op reg = do
    old ← gets (λ c. get16 reg c.regs)
    new ← rmw16 op old
    modify_regs (set16 reg new)
    add_cycles_by_mode 3 2

module _ {S : Type 0} ⦃io : Callbacks S⦄ where
  unfoldable pub alu8_imm : Reg8 → AluOp → ℕ → M S (Unit {0})
  alu8_imm reg op cost = do v ← fetch8; operate8 reg op v; add_cycles cost

  unfoldable pub alu8_at : M S ℕ → Reg8 → AluOp → ℕ → ℕ → M S (Unit {0})
  alu8_at ea reg op em nm = do at ← ea; v ← read8 at; operate8 reg op v; add_cycles_by_mode em nm

  unfoldable pub st8_at : M S ℕ → Reg8 → ℕ → ℕ → M S (Unit {0})
  st8_at ea reg em nm = do
    at ← ea
    v ← gets (λ c. get8 reg c.regs)
    write8 at v
    flags8 v
    add_cycles_by_mode em nm

  unfoldable pub rmw8_at : M S ℕ → RmwOp → ℕ → ℕ → M S (Unit {0})
  rmw8_at ea op em nm = do
    at ← ea
    v ← read8 at
    new ← rmw8 op v
    write8 at new
    add_cycles_by_mode em nm

  unfoldable pub alu16_imm : Reg16 → AluOp → ℕ → ℕ → M S (Unit {0})
  alu16_imm reg op em nm = do v ← fetch16; operate16 reg op v; add_cycles_by_mode em nm

  unfoldable pub alu16_at : M S ℕ → Reg16 → AluOp → ℕ → ℕ → M S (Unit {0})
  alu16_at ea reg op em nm = do at ← ea; v ← read16 at; operate16 reg op v; add_cycles_by_mode em nm

  -- LD16_* and LD16M_*
  unfoldable pub ld16_imm : Reg16 → ℕ → M S (Unit {0})
  ld16_imm reg cost = do v ← fetch16; load16 reg v; add_cycles cost

  unfoldable pub ld16_at : M S ℕ → Reg16 → ℕ → ℕ → M S (Unit {0})
  ld16_at ea reg em nm = do at ← ea; v ← read16 at; load16 reg v; add_cycles_by_mode em nm

  -- ST16_* and ST16M_*
  unfoldable pub st16_at : M S ℕ → Reg16 → ℕ → ℕ → M S (Unit {0})
  st16_at ea reg em nm = do
    at ← ea
    v ← gets (λ c. get16 reg c.regs)
    write16 at v
    flags16 v
    add_cycles_by_mode em nm

  unfoldable pub cmp16_imm : Reg16 → ℕ → ℕ → M S (Unit {0})
  cmp16_imm reg em nm = do v ← fetch16; compare16 reg v; add_cycles_by_mode em nm

  unfoldable pub cmp16_at : M S ℕ → Reg16 → ℕ → ℕ → M S (Unit {0})
  cmp16_at ea reg em nm = do at ← ea; v ← read16 at; compare16 reg v; add_cycles_by_mode em nm

  unfoldable pub logicmem_at : M S ℕ → LogicOp → Bool → ℕ → M S (Unit {0})
  logicmem_at ea op write cost = do
    bits ← fetch8
    at ← ea
    v ← read8 at
    let res = u8 (logic_op op v bits)
    when write (write8 at res)
    flags8 res
    add_cycles cost

  -- The modes of the macros: *_DIR, *_IDX and *_EXT.
  unfoldable pub alu8_dir : Reg8 → AluOp → ℕ → ℕ → M S (Unit {0})
  alu8_dir = alu8_at ea_direct

  unfoldable pub alu8_idx : Reg8 → AluOp → ℕ → M S (Unit {0})
  alu8_idx reg op cost = alu8_at ea_indexed reg op cost cost

  unfoldable pub alu8_ext : Reg8 → AluOp → ℕ → ℕ → M S (Unit {0})
  alu8_ext = alu8_at ea_extended

  unfoldable pub st8_dir : Reg8 → ℕ → ℕ → M S (Unit {0})
  st8_dir = st8_at ea_direct

  unfoldable pub st8_idx : Reg8 → ℕ → M S (Unit {0})
  st8_idx reg cost = st8_at ea_indexed reg cost cost

  unfoldable pub st8_ext : Reg8 → ℕ → ℕ → M S (Unit {0})
  st8_ext = st8_at ea_extended

  unfoldable pub rmw8_dir : RmwOp → M S (Unit {0})
  rmw8_dir op = rmw8_at ea_direct op 6 5

  unfoldable pub rmw8_idx : RmwOp → M S (Unit {0})
  rmw8_idx op = rmw8_at ea_indexed op 6 6

  unfoldable pub rmw8_ext : RmwOp → M S (Unit {0})
  rmw8_ext op = rmw8_at ea_extended op 7 6

  unfoldable pub alu16_dir : Reg16 → AluOp → ℕ → ℕ → M S (Unit {0})
  alu16_dir = alu16_at ea_direct

  unfoldable pub alu16_idx : Reg16 → AluOp → ℕ → M S (Unit {0})
  alu16_idx reg op cost = alu16_at ea_indexed reg op cost cost

  unfoldable pub alu16_ext : Reg16 → AluOp → ℕ → ℕ → M S (Unit {0})
  alu16_ext = alu16_at ea_extended

  unfoldable pub ld16_dir : Reg16 → ℕ → ℕ → M S (Unit {0})
  ld16_dir = ld16_at ea_direct

  unfoldable pub ld16_idx : Reg16 → ℕ → M S (Unit {0})
  ld16_idx reg cost = ld16_at ea_indexed reg cost cost

  unfoldable pub ld16_ext : Reg16 → ℕ → ℕ → M S (Unit {0})
  ld16_ext = ld16_at ea_extended

  unfoldable pub st16_dir : Reg16 → ℕ → ℕ → M S (Unit {0})
  st16_dir = st16_at ea_direct

  unfoldable pub st16_idx : Reg16 → ℕ → M S (Unit {0})
  st16_idx reg cost = st16_at ea_indexed reg cost cost

  unfoldable pub st16_ext : Reg16 → ℕ → ℕ → M S (Unit {0})
  st16_ext = st16_at ea_extended

  unfoldable pub cmp16_dir : Reg16 → ℕ → ℕ → M S (Unit {0})
  cmp16_dir = cmp16_at ea_direct

  unfoldable pub cmp16_idx : Reg16 → ℕ → M S (Unit {0})
  cmp16_idx reg cost = cmp16_at ea_indexed reg cost cost

  unfoldable pub cmp16_ext : Reg16 → ℕ → ℕ → M S (Unit {0})
  cmp16_ext = cmp16_at ea_extended

  unfoldable pub logicmem_dir : LogicOp → Bool → M S (Unit {0})
  logicmem_dir op write = logicmem_at ea_direct op write 6

  unfoldable pub logicmem_idx : LogicOp → Bool → M S (Unit {0})
  logicmem_idx op write = logicmem_at ea_indexed op write 7

  unfoldable pub logicmem_ext : LogicOp → Bool → M S (Unit {0})
  logicmem_ext op write = logicmem_at ea_extended op write 7

  -- TST on memory, which does not write back, and JMP.
  unfoldable pub tst_at : M S ℕ → ℕ → ℕ → M S (Unit {0})
  tst_at ea em nm = do at ← ea; v ← read8 at; _ ← rmw8 tst v; add_cycles_by_mode em nm
