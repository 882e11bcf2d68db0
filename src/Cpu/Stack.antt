-- ===== src/Cpu/Stack.antt =====
-- The stacks on the flat RAM bus: a pull takes back what a push left, at every stack address.
use pugputer6309_emulator.Base.{ℕ, ◌+◌, ◌/◌, ◌%◌, ◌<◌, ◌≡◌, refl, arith, u8, bit_and}
use pugputer6309_emulator.Base.Bits.{bit_and-0xff, bit_or-fields}
use pugputer6309_emulator.Cpu.Types.{Cpu, pair16}
use pugputer6309_emulator.Cpu.Monad.{◌>>=◌}
use pugputer6309_emulator.Cpu.Memory.{
  StackPointer, stack_s, stack_u, get_sp, set_sp, read8, write8, push8, pull8, push16, pull16,
}
use pugputer6309_emulator.Cpu.RamBus.{RamBus, ram_bus, ram_bus_read, ram_bus_write}

-- The value is back, and so are all the registers.
pub record Pulled (c : Cpu RamBus) (r : ℕ × Cpu RamBus) (v : ℕ) : Type 0 where
  pub value : r.0 ≡ v
  pub same_regs : r.1.regs ≡ c.regs
  pub same_lines : r.1.irq_line ≡ c.irq_line

-- Two bytes written below `n`, the high byte last, and read back upwards.
module _ (bus : RamBus) (n v : ℕ) (h : v < 65536) (k : n < 65536) where
  below : ℕ
  below = (n + 65535) % 65536

  lower : ℕ
  lower = (below + 65535) % 65536

  written : RamBus
  written = ram_bus_write (ram_bus_write bus below (u8 (bit_and v 255))) lower (u8 (v / 256))

  high_back : written lower ≡ v / 256
  unfolding written ram_bus_write
  high_back = ground arith

  low_back : written ((lower + 1) % 65536) ≡ v % 256
  unfolding written lower below ram_bus_write
  low_back = ground (arith, bit_and-0xff v)

  back : ((lower + 1) % 65536 + 1) % 65536 ≡ n
  unfolding lower below
  back = omega arith

  word_back : pair16 (u8 (written lower)) (u8 (written ((lower + 1) % 65536))) ≡ v
  unfolding pair16
  word_back =
      rw (high_back, low_back)
        (omega (arith, bit_or-fields 8 (v / 256 % 256) (v % 256 % 256) (omega arith)))

-- A push of a word and a pull of a word on the same stack give the word back and restore the
-- stack pointer and every other register, also where the stack wraps around the address space; on the
-- flat RAM bus, for a stack pointer in its range.
pub pull16-push16 :
    (sp : StackPointer) (c : Cpu RamBus) (v : ℕ)
    → v < 65536
    → get_sp sp c.regs < 65536
    → Pulled c (pull16 sp (push16 sp v c).1) v
unfolding pull16 push16 push8 pull8 read8 write8 get_sp set_sp ram_bus_read written lower below
    ◌>>=◌
pull16-push16 stack_s c v h k = record {
  value = word_back c.bus c.s v h k;
  same_regs = rw (back c.bus c.s v h k) refl;
  same_lines = refl;
}
pull16-push16 stack_u c v h k = record {
  value = word_back c.bus c.u v h k;
  same_regs = rw (back c.bus c.u v h k) refl;
  same_lines = refl;
}
