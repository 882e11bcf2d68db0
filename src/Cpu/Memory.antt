-- ===== src/Cpu/Memory.antt =====
-- Memory access, instruction fetch and the stacks of hd6309_core.cpp.
use pugputer6309_emulator.Base.{
  ℕ, ◌+◌, ◌*◌, ◌/◌, ℤ, negsuc, bit_and, bit_or, u8, u16, add_u16, i8, i16,
}
use pugputer6309_emulator.Cpu.Types.{Callbacks, Regs, pair16}
use pugputer6309_emulator.Cpu.Monad.{M, ◌>>=◌, ◌>>◌, pure, gets, modify_regs}

-- The two stack pointers, which `push8` and the others take by reference.
pub data StackPointer : Type 0 where
  stack_s stack_u : StackPointer

abbrev pub get_sp : StackPointer → Regs → ℕ
get_sp stack_s r = r.s
get_sp stack_u r = r.u

abbrev pub set_sp : StackPointer → ℕ → Regs → Regs
set_sp stack_s n r = record r { s = n }
set_sp stack_u n r = record r { u = n }

module _ {S : Type 0} ⦃io : Callbacks S⦄ where
  unfoldable pub read8 : ℕ → M S ℕ
  read8 addr c = let (v, b) = io.read c.bus addr in (v, record c { bus = b })

  unfoldable pub write8 : ℕ → ℕ → M S (Unit {0})
  write8 addr v c = (tt, record c { bus = io.write c.bus addr v })

  unfoldable pub read16 : ℕ → M S ℕ
  read16 addr = do hi ← read8 addr; lo ← read8 (u16 (addr + 1)); pure (pair16 hi lo)

  unfoldable pub write16 : ℕ → ℕ → M S (Unit {0})
  write16 addr v = do write8 addr (u8 (v / 256)); write8 (u16 (addr + 1)) (u8 (bit_and v 0xff))

  unfoldable pub fetch8 : M S ℕ
  fetch8 = do
    pc ← gets (λ c. c.pc)
    v ← read8 pc
    modify_regs (λ r. record r { pc = u16 (r.pc + 1) })
    pure v

  unfoldable pub fetch16 : M S ℕ
  fetch16 = do hi ← fetch8; lo ← fetch8; pure (pair16 hi lo)

  unfoldable pub push8 : StackPointer → ℕ → M S (Unit {0})
  push8 sp v = do
    modify_regs (λ r. set_sp sp (add_u16 (get_sp sp r) (negsuc 0)) r)
    at ← gets (λ c. get_sp sp c.regs)
    write8 at v

  unfoldable pub pull8 : StackPointer → M S ℕ
  pull8 sp = do
    at ← gets (λ c. get_sp sp c.regs)
    v ← read8 at
    modify_regs (λ r. set_sp sp (u16 (get_sp sp r + 1)) r)
    pure v

  unfoldable pub push16 : StackPointer → ℕ → M S (Unit {0})
  push16 sp v = do push8 sp (u8 (bit_and v 0xff)); push8 sp (u8 (v / 256))

  unfoldable pub pull16 : StackPointer → M S ℕ
  pull16 sp = do hi ← pull8 sp; lo ← pull8 sp; pure (pair16 hi lo)

  unfoldable pub ea_direct : M S ℕ
  ea_direct = do dp ← gets (λ c. c.dp); lo ← fetch8; pure (u16 (bit_or (dp * 256) lo))

  unfoldable pub ea_extended : M S ℕ
  ea_extended = fetch16

  unfoldable pub rel8 : M S ℤ
  rel8 = do v ← fetch8; pure (i8 v)

  unfoldable pub rel16 : M S ℤ
  rel16 = do v ← fetch16; pure (i16 v)
