-- ===== src/Bus/Reset.antt =====
-- The order of the statements of `SystemBus::reset`.
use pugputer6309_emulator.Base.{ℕ, ◌≡◌, refl, none, some, u8}
use pugputer6309_emulator.Cpu.Types.{Cpu, pair16}
use pugputer6309_emulator.Cpu.Monad.{◌>>=◌}
use pugputer6309_emulator.Cpu.Memory.{read8, read16}
use pugputer6309_emulator.Cpu.Interrupts.{set_pc}
use pugputer6309_emulator.Cpu.Run.{reset}
use pugputer6309_emulator.Bus.Device.{IDevice}
use pugputer6309_emulator.Bus.Types.{Bus}
use pugputer6309_emulator.Bus.Access.{find_mapping, phys_byte, system_bus}
use pugputer6309_emulator.Bus.Control.{bus_reset}
use pugputer6309_emulator.Bus.Banks.{bus_read8-ram}

module _ {D : Type 0} ⦃dev : IDevice D⦄ where
  -- Where the reset vector lies in RAM, `SystemBus::reset` starts the CPU at the vector that the
  -- bank registers show before the reset, whatever they hold, not at the one of the mapping that
  -- the same call restores.
  pub bus_reset-vector :
      (c : Cpu (Bus D)) (hi lo : ℕ)
      → find_mapping 0xfffe c.bus.devices ≡ none
      → find_mapping 0xffff c.bus.devices ≡ none
      → phys_byte c.bus 0xfffe ≡ some hi
      → phys_byte c.bus 0xffff ≡ some lo
      → (bus_reset c).1.pc ≡ pair16 (u8 (c.bus.ram hi)) (u8 (c.bus.ram lo))
  unfolding bus_reset reset read16 read8 set_pc ◌>>=◌
  bus_reset-vector c hi lo h k p q =
      rw (bus_read8-ram c.bus 0xfffe hi h p, bus_read8-ram c.bus 0xffff lo k q) refl
