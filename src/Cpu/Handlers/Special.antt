-- ===== src/Cpu/Handlers/Special.antt =====
-- The other bodies that hd6309_opcodes.cpp writes out.
use pugputer6309_emulator.Base.{
  ℕ, ◌+◌, ◌-◌, ◌*◌, ◌/◌, Bool, true, false, bit_and, bit_or, bit_test, ◌==◌, if◌then◌else◌, u8, u16,
  u16_ℤ, i8, switch, ◌∷◌, [],
}
use pugputer6309_emulator.Cpu.Types.{
  Callbacks, AluOp, add, adc, sub, sbc, and, or, eor, cmp, get_d, set_d, get_w, get_q, set_q, cc_c,
  cc_v, cc_z, cc_n,
}
use pugputer6309_emulator.Cpu.Monad.{M, ◌>>=◌, ◌>>◌, gets, modify, modify_regs, when, add_cycles}
use pugputer6309_emulator.Cpu.Flags.{set_flag, set_nz16, test_condition, native}
use pugputer6309_emulator.Cpu.Alu.{apply_alu8, apply_alu16}
use pugputer6309_emulator.Cpu.Rmw.{do_daa}
use pugputer6309_emulator.Cpu.Memory.{read8, read16, write16, fetch8, fetch16, rel8, rel16}
use pugputer6309_emulator.Cpu.Registers.{
  Reg16, set16, reg_code_is_16bit, get_reg_by_code, get_reg_raw8, set_reg_by_code,
}
use pugputer6309_emulator.Cpu.Indexed.{ea_indexed}
use pugputer6309_emulator.Cpu.Transfer.{do_tfr_exg, do_divd, do_divq, do_muld}
use pugputer6309_emulator.Cpu.Interrupts.{add_cycles_by_mode}
use pugputer6309_emulator.Cpu.Handlers.Stacking.{jump_by}

module _ {S : Type 0} where
  unfoldable pub nop : M S (Unit {0})
  nop = add_cycles_by_mode 2 1

  unfoldable pub sync : M S (Unit {0})
  sync = do modify (λ c. record c { wait_sync = true }); add_cycles_by_mode 2 1

  unfoldable pub sexw : M S (Unit {0})
  sexw = do
    w ← gets (λ c. get_w c.regs)
    let d = if bit_test w 0x8000 then 0xffff else 0
    modify_regs (set_d d)
    set_nz16 d
    set_flag cc_v false
    add_cycles 4

  unfoldable pub sex : M S (Unit {0})
  sex = do
    modify_regs (λ r. set_d (u16_ℤ (i8 r.b)) r)
    d ← gets (λ c. get_d c.regs)
    set_nz16 d
    set_flag cc_v false
    add_cycles_by_mode 2 1

  unfoldable pub daa : M S (Unit {0})
  daa = do do_daa; add_cycles_by_mode 2 1

  unfoldable pub abx : M S (Unit {0})
  abx = do modify_regs (λ r. record r { x = u16 (r.x + r.b) }); add_cycles_by_mode 3 1

  unfoldable pub mul : M S (Unit {0})
  mul = do
    result ← gets (λ c. u16 (c.a * c.b))
    modify_regs (set_d result)
    set_flag cc_z (result == 0)
    set_flag cc_c (bit_test result 0x80)
    add_cycles_by_mode 11 10

  -- The flags of a 32-bit value.
  unfoldable pub flags32 : ℕ → M S (Unit {0})
  flags32 v = do set_flag cc_v false; set_flag cc_z (v == 0); set_flag cc_n (bit_test v 0x80000000)

-- The inner `switch` of $1030-$1037.
unfoldable pub reg_reg_op : ℕ → AluOp
unfolding switch
reg_reg_op opcode =
    switch opcode
      ((0x30, add)
        ∷ (0x31, adc)
        ∷ (0x32, sub)
        ∷ (0x33, sbc)
        ∷ (0x34, and)
        ∷ (0x35, or)
        ∷ (0x36, eor)
        ∷ [])
      cmp

module _ {S : Type 0} ⦃io : Callbacks S⦄ where
  unfoldable pub orcc : M S (Unit {0})
  orcc = do m ← fetch8; modify_regs (λ r. record r { cc = bit_or r.cc m }); add_cycles_by_mode 3 2

  unfoldable pub andcc : M S (Unit {0})
  andcc = do m ← fetch8; modify_regs (λ r. record r { cc = bit_and r.cc m }); add_cycles_by_mode 3 2

  unfoldable pub exg : M S (Unit {0})
  exg = do pb ← fetch8; do_tfr_exg pb true; add_cycles_by_mode 8 5

  unfoldable pub tfr : M S (Unit {0})
  tfr = do pb ← fetch8; do_tfr_exg pb false; add_cycles_by_mode 6 4

  unfoldable pub short_branch : ℕ → M S (Unit {0})
  short_branch opcode = do
    off ← rel8
    taken ← test_condition opcode
    when taken (jump_by off)
    add_cycles 3

  unfoldable pub long_branch : ℕ → M S (Unit {0})
  long_branch opcode = do
    off ← rel16
    taken ← test_condition opcode
    when taken (jump_by off)
    n ← native
    add_cycles (if n then 5 else (if taken then 6 else 5))

  -- LEAX and LEAY set Z; LEAS and LEAU set no flag.
  unfoldable pub lea : Reg16 → Bool → M S (Unit {0})
  lea reg sets_z = do
    at ← ea_indexed
    modify_regs (set16 reg at)
    when sets_z (set_flag cc_z (at == 0))
    add_cycles 4

  unfoldable pub ldq_imm : M S (Unit {0})
  ldq_imm = do
    hi ← fetch16
    lo ← fetch16
    let v = bit_or (hi * 65536) lo
    flags32 v
    modify_regs (set_q v)
    add_cycles 5

  unfoldable pub ldq_at : M S ℕ → ℕ → ℕ → M S (Unit {0})
  ldq_at ea em nm = do
    at ← ea
    hi ← read16 at
    lo ← read16 (u16 (at + 2))
    let v = bit_or (hi * 65536) lo
    flags32 v
    modify_regs (set_q v)
    add_cycles_by_mode em nm

  unfoldable pub stq_at : M S ℕ → ℕ → ℕ → M S (Unit {0})
  stq_at ea em nm = do
    at ← ea
    v ← gets (λ c. get_q c.regs)
    write16 at (u16 (v / 65536))
    write16 (u16 (at + 2)) (u16 v)
    flags32 v
    add_cycles_by_mode em nm

  unfoldable pub reg_reg : ℕ → M S (Unit {0})
  reg_reg opcode = do
    pb ← fetch8
    let src = bit_and (pb / 16) 0xf
    let dst = bit_and pb 0xf
    let op = reg_reg_op opcode
    if reg_code_is_16bit dst
        then (do
          left ← get_reg_by_code dst
          right ← get_reg_by_code src
          result ← apply_alu16 op left right
          set_reg_by_code dst result)
        else (do
          left ← get_reg_raw8 dst
          right ← get_reg_raw8 src
          result ← apply_alu8 op left right
          set_reg_by_code dst result)
    add_cycles 4

  unfoldable pub bitmd : M S (Unit {0})
  bitmd = do
    imm ← fetch8
    test ← gets (λ c. u8 (bit_and c.md imm))
    set_flag cc_z (test == 0)
    modify_regs (λ r. record r { md = bit_and r.md (255 - test) })
    add_cycles 4

  unfoldable pub ldmd : M S (Unit {0})
  ldmd = do v ← fetch8; modify_regs (λ r. record r { md = v }); add_cycles 5

  -- DIVD, DIVQ and MULD by an operand in memory.
  unfoldable pub divd_imm : M S (Unit {0})
  divd_imm = do v ← fetch8; do_divd v; add_cycles 25

  unfoldable pub divq_imm : M S (Unit {0})
  divq_imm = do v ← fetch16; do_divq v; add_cycles 34

  unfoldable pub muld_imm : M S (Unit {0})
  muld_imm = do v ← fetch16; do_muld v; add_cycles 28

  unfoldable pub divd_at : M S ℕ → ℕ → ℕ → M S (Unit {0})
  divd_at ea em nm = do at ← ea; v ← read8 at; do_divd v; add_cycles_by_mode em nm

  unfoldable pub divq_at : M S ℕ → ℕ → ℕ → M S (Unit {0})
  divq_at ea em nm = do at ← ea; v ← read16 at; do_divq v; add_cycles_by_mode em nm

  unfoldable pub muld_at : M S ℕ → ℕ → ℕ → M S (Unit {0})
  muld_at ea em nm = do at ← ea; v ← read16 at; do_muld v; add_cycles_by_mode em nm
