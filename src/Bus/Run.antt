-- ===== src/Bus/Run.antt =====
-- `SystemBus::step` and `run`: the CPU's guarantees hold with the devices around it.
use pugputer6309_emulator.Base.{
  ℕ, zero, suc, ◌+◌, ◌%◌, ◌^◌, ◌≤◌, ◌<◌, ◌≡◌, refl, ◌∙◌, arith, Bool, true, false, not, ◌||◌, ◌⊎◌,
  Option, none, some, ltb,
}
use pugputer6309_emulator.Cpu.Types.{Cpu, ReadsBytes}
use pugputer6309_emulator.Cpu.Monad.{◌>>=◌}
use pugputer6309_emulator.Cpu.Run.{set_irq, set_firq, nmi_pulse}
use pugputer6309_emulator.Cpu.Valid.Spec.{IsValid}
use pugputer6309_emulator.Cpu.Valid.Step.{step-Stepped}
use pugputer6309_emulator.Bus.Device.{IDevice, DeviceReadsBytes}
use pugputer6309_emulator.Bus.Types.{Bus, DeviceMapping, DevicePtr, bank_device, object}
use pugputer6309_emulator.Bus.Access.{find_mapping, phys_byte, device_read, bus_read8, system_bus}
use pugputer6309_emulator.Bus.Control.{
  drive_lines, update_irq_lines, bus_step, bus_run_loop, bus_run,
}

-- The result of a step of the whole system.
pub record BusStepped {D : Type 0} (c : Cpu (Bus D)) (r : ℕ × Cpu (Bus D)) : Type 0 where
  pub valid : IsValid r.1
  pub spends : 1 ≤ r.0
  pub bounded : r.0 ≤ 200000
  pub booked : r.1.total_cycles ≡ (c.total_cycles + r.0) % 2 ^ 64
  pub same_halted : r.1.is_halted ≡ c.is_halted

-- What a run leaves.
pub record BusFinished {D : Type 0} (max consumed : ℕ) (c : Cpu (Bus D)) (r : ℕ × Cpu (Bus D))
    : Type 0 where
  pub valid : IsValid r.1
  pub stops : (max ≤ r.0) ⊎ (r.1.is_halted ≡ true)
  pub bounded : r.0 < max + 200000
  pub booked : (r.1.total_cycles + consumed) % 2 ^ 64 ≡ (c.total_cycles + r.0) % 2 ^ 64

-- The fields of the CPU that the devices cannot reach.
pub record SameCpu {D : Type 0} (c d : Cpu (Bus D)) : Type 0 where
  pub same_regs : d.regs ≡ c.regs
  pub same_insn_pc : d.insn_pc ≡ c.insn_pc
  pub same_total : d.total_cycles ≡ c.total_cycles
  pub same_halted : d.is_halted ≡ c.is_halted

SameCpu-IsValid : {D : Type 0} {c d : Cpu (Bus D)} → SameCpu c d → IsValid c → IsValid d
SameCpu-IsValid k v = record {
  regs_fit = rw k.same_regs v.regs_fit;
  insn_pc_fits = rw k.same_insn_pc v.insn_pc_fits;
}

module _ {D : Type 0} ⦃dev : IDevice D⦄ where
  pub drive_lines-SameCpu :
      (c : Cpu (Bus D)) (irq firq nmi prev : Bool) → SameCpu c (drive_lines irq firq nmi prev c).1
  unfolding drive_lines ◌>>=◌ set_irq set_firq nmi_pulse
  drive_lines-SameCpu c irq firq true true = record {
    same_regs = refl;
    same_insn_pc = refl;
    same_total = refl;
    same_halted = refl;
  }
  drive_lines-SameCpu c irq firq true false = record {
    same_regs = refl;
    same_insn_pc = refl;
    same_total = refl;
    same_halted = refl;
  }
  drive_lines-SameCpu c irq firq false prev = record {
    same_regs = refl;
    same_insn_pc = refl;
    same_total = refl;
    same_halted = refl;
  }

module _ {D : Type 0} ⦃dev : IDevice D⦄ (bytes : DeviceReadsBytes dev) where
  device_read-lt : (p : DevicePtr) (offset : ℕ) (b : Bus D) → (device_read p offset b).0 < 256
  unfolding device_read
  device_read-lt bank_device offset b = omega arith
  device_read-lt (object i) offset b = bytes (b.objects i) offset

  pub system_bus-ReadsBytes : ReadsBytes {S = Bus D} system_bus
  unfolding bus_read8
  system_bus-ReadsBytes b addr = by_mapping (find_mapping addr b.devices) refl
    where
      in_ram :
          (p : Option ℕ)
          → find_mapping addr b.devices ≡ none
          → phys_byte b addr ≡ p
          → (bus_read8 b addr).0 < 256
      in_ram (some p) e f = rw (bus_read8, e, f) (omega arith)
      in_ram none e f = rw (bus_read8, e, f) (omega arith)

      by_mapping :
          (m : Option DeviceMapping) → find_mapping addr b.devices ≡ m → (bus_read8 b addr).0 < 256
      by_mapping (some m) e = rw (bus_read8, e) (device_read-lt m.device _ b)
      by_mapping none e = in_ram (phys_byte b addr) e refl

  -- A step of the system, that of the CPU and then the devices' ticks and lines, keeps the
  -- registers valid, returns from 1 to 200,000 cycles and adds these to the total, modulo 2^64;
  -- from a state with valid registers that is not halted, with devices that read bytes.
  pub bus_step-BusStepped :
      (c : Cpu (Bus D)) → IsValid c → c.is_halted ≡ false → BusStepped c (bus_step c)
  unfolding bus_step update_irq_lines ◌>>=◌
  bus_step-BusStepped c v running =
      let h = step-Stepped system_bus-ReadsBytes c v running in
      let k = drive_lines-SameCpu _ _ _ _ _ in
      record {
        valid =
            SameCpu-IsValid k
              (record { regs_fit = h.valid.regs_fit; insn_pc_fits = h.valid.insn_pc_fits });
        spends = h.spends;
        bounded = h.bounded;
        booked = k.same_total ∙ h.booked;
        same_halted = k.same_halted ∙ h.same_halted;
      }

  -- What the loop does from `c`, when `consumed` cycles are spent.
  BusEnds : ℕ → ℕ → ℕ → Cpu (Bus D) → Type 0
  BusEnds fuel max consumed c =
      (r : ℕ × Cpu (Bus D)) × (bus_run_loop fuel max consumed c ≡ some r)
      × BusFinished max consumed c r

  bus_round-BusEnds :
      (fuel max consumed : ℕ) (c : Cpu (Bus D))
      → max + 400000 < 2 ^ 64
      → consumed < max
      → BusStepped c (bus_step c)
      → (not (ltb consumed max) || c.is_halted) ≡ false
      → BusEnds fuel max ((consumed + (bus_step c).0) % 2 ^ 64) (bus_step c).1
      → BusEnds (suc fuel) max consumed c
  unfolding BusEnds bus_run_loop
  bus_round-BusEnds fuel max consumed c fits more h goes_on (r, found, f) = (
    r,
    rw (bus_run_loop, goes_on) found,
    record {
      valid = f.valid;
      stops = f.stops;
      bounded = f.bounded;
      booked = omega (arith, f.booked, h.booked, h.bounded);
    },
  )

  bus_run_loop-BusEnds :
      (fuel max consumed : ℕ) (c : Cpu (Bus D))
      → IsValid c
      → 1 ≤ fuel
      → max < consumed + fuel
      → consumed < max + 200000
      → max + 400000 < 2 ^ 64
      → BusEnds fuel max consumed c
  unfolding BusEnds bus_run_loop
  bus_run_loop-BusEnds zero max consumed c v some_fuel enough low fits = absurd (omega arith)
  bus_run_loop-BusEnds (suc fuel) max consumed c v some_fuel enough low fits =
      by_exit
        (λ n d w p q u. bus_run_loop-BusEnds fuel max ((consumed + n) % 2 ^ 64) d w p q u fits)
        (not (ltb consumed max) || c.is_halted) refl
    where
      by_exit :
          ((n : ℕ) (d : Cpu (Bus D))
            → IsValid d
            → 1 ≤ fuel
            → max < (consumed + n) % 2 ^ 64 + fuel
            → (consumed + n) % 2 ^ 64 < max + 200000
            → BusEnds fuel max ((consumed + n) % 2 ^ 64) d)
          → (e : Bool) → (not (ltb consumed max) || c.is_halted) ≡ e
          → BusEnds (suc fuel) max consumed c
      by_exit again true e = (
        (consumed, c),
        rw (bus_run_loop, e) refl,
        record { valid = v; stops = ground arith; bounded = low; booked = refl },
      )
      by_exit again false e =
          let more : consumed < max = ground arith in
          let running : c.is_halted ≡ false = ground arith in
          let h = bus_step-BusStepped c v running in
          bus_round-BusEnds fuel max consumed c fits more h e (
            again (bus_step c).0 (bus_step c).1 h.valid (omega (arith, more))
              (omega (arith, more, h.spends, h.bounded)) (omega (arith, more, h.spends, h.bounded)))

  -- `SystemBus::run` returns from every state with valid registers, for a budget that leaves room
  -- below 2^64 and devices that read bytes. It stops when the budget is spent or the CPU is
  -- halted, runs over the budget by less than 200,000 cycles, and returns the cycles that were
  -- added to the CPU's total, modulo 2^64.
  pub bus_run-BusFinished :
      (max : ℕ) (c : Cpu (Bus D))
      → IsValid c
      → max + 400000 < 2 ^ 64
      → (r : ℕ × Cpu (Bus D)) × (bus_run max c ≡ some r) × BusFinished max 0 c r
  unfolding bus_run BusEnds
  bus_run-BusFinished max c v fits =
      bus_run_loop-BusEnds (suc max) max 0 c v (omega arith) (omega arith) (omega arith) fits
