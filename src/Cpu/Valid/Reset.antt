-- ===== src/Cpu/Valid/Reset.antt =====
-- `CPU::reset` gives valid registers, whatever they were before.
use pugputer6309_emulator.Base.{◌<◌, ◌≡◌, refl, arith, false}
use pugputer6309_emulator.Cpu.Types.{Cpu, Callbacks}
use pugputer6309_emulator.Cpu.Monad.{◌>>=◌}
use pugputer6309_emulator.Cpu.Memory.{read8, read16}
use pugputer6309_emulator.Cpu.Interrupts.{nothing, set_pc, pending}
use pugputer6309_emulator.Cpu.Run.{reset}
use pugputer6309_emulator.Cpu.Valid.Spec.{IsValid}
use pugputer6309_emulator.Cpu.Valid.Memory.{pair16-lt}

module _ {S : Type 0} ⦃io : Callbacks S⦄ where
  -- A reset makes every register valid, whatever it held, and leaves nothing pending, nothing
  -- halted, no cycles booked, and the emulation mode; where the address of the last instruction is
  -- a 16-bit value.
  pub reset-IsValid :
      (c : Cpu S)
      → c.insn_pc < 65536
      → IsValid (reset c).1
        × (pending (reset c).1 ≡ nothing)
        × ((reset c).1.is_halted ≡ false)
        × ((reset c).1.total_cycles ≡ 0)
        × ((reset c).1.md ≡ 0)
  unfolding reset read16 read8 set_pc pending ◌>>=◌
  reset-IsValid c h =
      (record { regs_fit = omega (arith, pair16-lt); insn_pc_fits = h }, refl, refl, refl, refl)
