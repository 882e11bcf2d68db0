-- ===== src/Cpu/Interrupts.antt =====
-- Interrupt entry and the traps of hd6309_core.cpp.
use pugputer6309_emulator.Base.{ℕ, Bool, true, false, not, ◌&&◌, bit_or, bit_test, if◌then◌else◌}
use pugputer6309_emulator.Cpu.Types.{
  Cpu, Callbacks, StopReason, cc_e, cc_f, cc_i, md_firq_native, md_illegal, md_divzero,
}
use pugputer6309_emulator.Cpu.Monad.{
  M, ◌>>=◌, ◌>>◌, pure, gets, modify, modify_regs, when, add_cycles,
}
use pugputer6309_emulator.Cpu.Flags.{set_flag, native, has_flag}
use pugputer6309_emulator.Cpu.Memory.{StackPointer, stack_s, read16, push8, push16}

-- `VEC_TRAP` to `VEC_RESET`.
abbrev pub vec_trap : ℕ
vec_trap = 0xfff0

abbrev pub vec_swi3 : ℕ
vec_swi3 = 0xfff2

abbrev pub vec_swi2 : ℕ
vec_swi2 = 0xfff4

abbrev pub vec_firq : ℕ
vec_firq = 0xfff6

abbrev pub vec_irq : ℕ
vec_irq = 0xfff8

abbrev pub vec_swi : ℕ
vec_swi = 0xfffa

abbrev pub vec_nmi : ℕ
vec_nmi = 0xfffc

abbrev pub vec_reset : ℕ
vec_reset = 0xfffe

-- `CC_I | CC_F`
abbrev pub mask_both : ℕ
mask_both = 0x50

-- `CC_I`
abbrev pub mask_irq : ℕ
mask_irq = 0x10

module _ {S : Type 0} where
  -- `cycles_ += native() ? nm : em`
  unfoldable pub add_cycles_by_mode : ℕ → ℕ → M S (Unit {0})
  add_cycles_by_mode em nm = do n ← native; add_cycles (if n then nm else em)

  unfoldable pub set_pc : ℕ → M S (Unit {0})
  set_pc n = modify_regs (λ r. record r { pc = n })

  -- `r_.cc |= bits`
  unfoldable pub or_cc : ℕ → M S (Unit {0})
  or_cc bits = modify_regs (λ r. record r { cc = bit_or r.cc bits })

  -- `r_.md |= bits`
  unfoldable pub or_md : ℕ → M S (Unit {0})
  or_md bits = modify_regs (λ r. record r { md = bit_or r.md bits })

module _ {S : Type 0} ⦃io : Callbacks S⦄ where
  -- `push8(sp, r)` and `push16(sp, r)` for a register `r`, read at the call.
  unfoldable pub push8_reg : StackPointer → (Cpu S → ℕ) → M S (Unit {0})
  push8_reg sp reg = do v ← gets reg; push8 sp v

  unfoldable pub push16_reg : StackPointer → (Cpu S → ℕ) → M S (Unit {0})
  push16_reg sp reg = do v ← gets reg; push16 sp v

  -- The E and F registers, in native mode only.
  unfoldable pub push_ef : M S (Unit {0})
  push_ef = do n ← native; when n (do push8_reg stack_s (λ c. c.f); push8_reg stack_s (λ c. c.e))

  unfoldable pub push_full_set : M S (Unit {0})
  push_full_set = do
    set_flag cc_e true
    push16_reg stack_s (λ c. c.pc)
    push16_reg stack_s (λ c. c.u)
    push16_reg stack_s (λ c. c.y)
    push16_reg stack_s (λ c. c.x)
    push8_reg stack_s (λ c. c.dp)
    push_ef
    push8_reg stack_s (λ c. c.b)
    push8_reg stack_s (λ c. c.a)
    push8_reg stack_s (λ c. c.cc)

  unfoldable pub push_partial_set : M S (Unit {0})
  push_partial_set = do
    set_flag cc_e false
    push16_reg stack_s (λ c. c.pc)
    push8_reg stack_s (λ c. c.cc)

  unfoldable pub enter_interrupt : ℕ → ℕ → Bool → M S (Unit {0})
  enter_interrupt vector cc_set_mask full_stack = do
    skip_push ← gets (λ c. c.cwai_pushed_pending)
    modify (λ c. record c { cwai_pushed_pending = false })
    when (not skip_push) (if full_stack then push_full_set else push_partial_set)
    or_cc cc_set_mask
    at ← read16 vector
    set_pc at

  unfoldable pub trap : ℕ → M S (Unit {0})
  trap cause = do
    or_md cause
    enter_interrupt vec_trap mask_both true
    modify (λ c. record c { stop_reason = StopReason.illegal_opcode_trap })
    add_cycles_by_mode 19 21

  unfoldable pub illegal_opcode_trap : M S (Unit {0})
  illegal_opcode_trap = trap md_illegal

  unfoldable pub division_by_zero_trap : M S (Unit {0})
  division_by_zero_trap = trap md_divzero

  -- The three bodies of `service_interrupts`.
  unfoldable pub serve_nmi : M S (Unit {0})
  serve_nmi = do
    modify (λ c. record c { nmi_pending = false; wait_sync = false })
    enter_interrupt vec_nmi mask_both true
    add_cycles_by_mode 19 21

  unfoldable pub serve_firq : M S (Unit {0})
  serve_firq = do
    modify (λ c. record c { wait_sync = false })
    full ← gets (λ c. bit_test c.md md_firq_native)
    enter_interrupt vec_firq mask_both full
    if full then add_cycles_by_mode 19 21 else add_cycles_by_mode 10 8

  unfoldable pub serve_irq : M S (Unit {0})
  serve_irq = do
    modify (λ c. record c { wait_sync = false })
    enter_interrupt vec_irq mask_irq true
    add_cycles_by_mode 19 21

-- Which interrupt `service_interrupts` takes: the first of its tests that passes.
pub data Served : Type 0 where
  nmi firq irq nothing : Served

unfoldable pub pending : {S : Type 0} → Cpu S → Served
pending c =
    if c.nmi_pending
    then nmi
    else (if c.firq_line && not (has_flag cc_f c.cc)
        then firq
        else (if c.irq_line && not (has_flag cc_i c.cc) then irq else nothing))

module _ {S : Type 0} ⦃io : Callbacks S⦄ where
  unfoldable pub serve : Served → M S Bool
  serve nmi = do serve_nmi; pure true
  serve firq = do serve_firq; pure true
  serve irq = do serve_irq; pure true
  serve nothing = pure false

  unfoldable pub service_interrupts : M S Bool
  service_interrupts = do which ← gets pending; serve which
