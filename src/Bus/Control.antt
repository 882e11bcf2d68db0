-- ===== src/Bus/Control.antt =====
-- `SystemBus::reset`, `update_irq_lines`, `step` and `run`, simulator/src/pugputer/system_bus.cpp.
-- The CPU is there: `hd6309_create` returned one.
use pugputer6309_emulator.Base.{
  ℕ, zero, suc, ◌+◌, ◌%◌, ◌^◌, Bool, true, false, not, ◌&&◌, ◌||◌, List, [], ◌∷◌, Option, none,
  some, ltb, if◌then◌else◌, u32,
}
use pugputer6309_emulator.Cpu.Types.{Cpu}
use pugputer6309_emulator.Cpu.Monad.{M, ◌>>=◌, ◌>>◌, pure, gets, modify, when}
use pugputer6309_emulator.Cpu.Run.{set_irq, set_firq, nmi_pulse}
use pugputer6309_emulator.Cpu.Run
use pugputer6309_emulator.Bus.Device.{IDevice, IrqLine, no_line, irq_line, firq_line, nmi_line}
use pugputer6309_emulator.Bus.Types.{
  Bus, DeviceMapping, DevicePtr, bank_device, object, reset_banks, update,
}
use pugputer6309_emulator.Bus.Access.{system_bus}

abbrev pub same_line : IrqLine → IrqLine → Bool
same_line no_line no_line = true
same_line irq_line irq_line = true
same_line firq_line firq_line = true
same_line nmi_line nmi_line = true
same_line a b = false

module _ {D : Type 0} ⦃dev : IDevice D⦄ where
  -- `BankRegisters` has no state of its own to reset, no timing and no interrupt.
  unfoldable pub device_reset : DevicePtr → Bus D → Bus D
  device_reset bank_device b = b
  device_reset (object i) b = record b { objects = update b.objects i (dev.reset (b.objects i)) }

  unfoldable pub device_tick : DevicePtr → ℕ → Bus D → Bus D
  device_tick bank_device cycles b = b
  device_tick (object i) cycles b = record b {
    objects = update b.objects i (dev.tick (b.objects i) cycles);
  }

  unfoldable pub device_irq : DevicePtr → Bus D → Bool
  device_irq bank_device b = false
  device_irq (object i) b = dev.irq_asserted (b.objects i)

  -- The loops over the mappings.
  unfoldable pub reset_all : List DeviceMapping → Bus D → Bus D
  reset_all [] b = b
  reset_all (m ∷ ms) b = reset_all ms (device_reset m.device b)

  unfoldable pub tick_all : ℕ → List DeviceMapping → Bus D → Bus D
  tick_all cycles [] b = b
  tick_all cycles (m ∷ ms) b = tick_all cycles ms (device_tick m.device cycles b)

  -- The variable `irq`, `firq` or `nmi` behind the loop, from its value before.
  unfoldable pub gather : IrqLine → Bus D → List DeviceMapping → Bool → Bool
  gather line b [] level = level
  gather line b (m ∷ ms) level =
      gather line b ms (if same_line m.line line then level || device_irq m.device b else level)

  -- The end of `update_irq_lines`, from the three ORs and the NMI level before.
  unfoldable pub drive_lines : Bool → Bool → Bool → Bool → M (Bus D) (Unit {0})
  drive_lines irq firq nmi prev = do
    set_irq irq
    set_firq firq
    when (nmi && not prev) nmi_pulse
    modify (λ c. record c { bus = record c.bus { nmi_prev = nmi } })

  unfoldable pub update_irq_lines : M (Bus D) (Unit {0})
  update_irq_lines = do
    b ← gets (λ c. c.bus)
    drive_lines (gather irq_line b b.devices false) (gather firq_line b b.devices false)
        (gather nmi_line b b.devices false) b.nmi_prev

  unfoldable pub bus_reset : M (Bus D) (Unit {0})
  bus_reset = do
    Run.reset
    modify (λ c. record c { bus = record c.bus { bank_regs = reset_banks } })
    modify (λ c. record c { bus = reset_all c.bus.devices c.bus })
    modify (λ c. record c { bus = record c.bus { nmi_prev = false } })

  unfoldable pub bus_step : M (Bus D) ℕ
  bus_step = do
    cycles ← Run.step
    modify (λ c. record c { bus = tick_all (u32 cycles) c.bus.devices c.bus })
    update_irq_lines
    pure cycles

  -- `while (consumed < max_cycles)` with fuel; `none` means that the fuel ran out.
  unfoldable pub bus_run_loop : ℕ → ℕ → ℕ → Cpu (Bus D) → Option (ℕ × Cpu (Bus D))
  bus_run_loop zero max consumed c = none
  bus_run_loop (suc fuel) max consumed c = elim (not (ltb consumed max) || c.is_halted) [
    | true ↦ some (consumed, c)
    | false ↦
        let (cycles, c') = bus_step c in bus_run_loop fuel max ((consumed + cycles) % 2 ^ 64) c'
  ]

  unfoldable pub bus_run : ℕ → Cpu (Bus D) → Option (ℕ × Cpu (Bus D))
  bus_run max c = bus_run_loop (suc max) max 0 c
