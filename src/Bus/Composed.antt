-- ===== src/Bus/Composed.antt =====
-- A step of the system as one of the CPU, of every device and of the interrupt lines.
use mathlib.Core.Path.{subst}
use pugputer6309_emulator.Base.{
  ℕ, zero, suc, ◌≡◌, refl, sym, ap, ◌∙◌, arith, Bool, true, false, ◌⊎◌, inl, inr, ◌↔◌, List, [],
  ◌∷◌, ◌==◌, if◌then◌else◌, u32,
}
use pugputer6309_emulator.Cpu.Types.{Cpu}
use pugputer6309_emulator.Cpu.Monad.{◌>>=◌}
use pugputer6309_emulator.Cpu.Run.{step}
use pugputer6309_emulator.Cpu.Valid.Spec.{IsValid}
use pugputer6309_emulator.Cpu.Valid.Step.{step-Stepped}
use pugputer6309_emulator.Bus.Device.{
  IDevice, DeviceReadsBytes, IrqLine, irq_line, firq_line, nmi_line,
}
use pugputer6309_emulator.Bus.Types.{Bus, DeviceMapping, DevicePtr, bank_device, object, update}
use pugputer6309_emulator.Bus.Access.{system_bus}
use pugputer6309_emulator.Bus.Control.{
  device_tick, device_irq, tick_all, update_irq_lines, bus_step,
}
use pugputer6309_emulator.Bus.Lines.{
  Asserts, here, there, LinesFollow, update_irq_lines-LinesFollow,
}
use pugputer6309_emulator.Bus.Run.{
  BusStepped, bus_step-BusStepped, SameCpu, drive_lines-SameCpu, system_bus-ReadsBytes,
}

-- How many of the mappings name an object.
abbrev pub points_to : ℕ → DevicePtr → Bool
points_to i bank_device = false
points_to i (object j) = i == j

abbrev pub mappings_of : ℕ → List DeviceMapping → ℕ
mappings_of i [] = 0
mappings_of i (m ∷ ms) = if points_to i m.device then suc (mappings_of i ms) else mappings_of i ms

both_ways : {A B C : Type 0} → A ↔ B → B ↔ C → A ↔ C
both_ways f g = ((λ a. g.0 (f.0 a)), (λ c. f.1 (g.1 c)))

module _ {D : Type 0} ⦃dev : IDevice D⦄ where
  -- A device ticked a number of times.
  abbrev pub ticks : ℕ → ℕ → D → D
  ticks zero cycles x = x
  ticks (suc k) cycles x = ticks k cycles (dev.tick x cycles)

  device_tick-objects :
      (p : DevicePtr) (cycles i : ℕ) (b : Bus D)
      → (device_tick p cycles b).objects i
        ≡ (if points_to i p then dev.tick (b.objects i) cycles else b.objects i)
  unfolding device_tick update
  device_tick-objects bank_device cycles i b = refl
  device_tick-objects (object j) cycles i b = ground arith

  tick_all-objects :
      (cycles i : ℕ) (ms : List DeviceMapping) (b : Bus D)
      → (tick_all cycles ms b).objects i ≡ ticks (mappings_of i ms) cycles (b.objects i)
  unfolding tick_all
  tick_all-objects cycles i [] b = refl
  tick_all-objects cycles i (m ∷ ms) b =
      tick_all-objects cycles i ms (device_tick m.device cycles b)
      ∙ by_pointer (points_to i m.device) (device_tick-objects m.device cycles i b)
    where
      by_pointer :
          (named : Bool)
          → (device_tick m.device cycles b).objects i
            ≡ (if named then dev.tick (b.objects i) cycles else b.objects i)
          → ticks (mappings_of i ms) cycles ((device_tick m.device cycles b).objects i)
            ≡ ticks
                (if named then suc (mappings_of i ms) else mappings_of i ms)
                cycles
                (b.objects i)
      by_pointer true e = ap (ticks (mappings_of i ms) cycles) e
      by_pointer false e = ap (ticks (mappings_of i ms) cycles) e

  device_irq-same :
      (p : DevicePtr) (b b' : Bus D) → b'.objects ≡ b.objects → device_irq p b' ≡ device_irq p b
  unfolding device_irq
  device_irq-same bank_device b b' e = refl
  device_irq-same (object i) b b' e = ap (λ (g : ℕ → D). dev.irq_asserted (g i)) e

  moved-Asserts :
      (line : IrqLine) (b b' : Bus D) (ms : List DeviceMapping)
      → b'.objects ≡ b.objects
      → Asserts line b ms
      → Asserts line b' ms
  moved-Asserts line b b' [] e a = elim a [ ]
  moved-Asserts line b b' (m ∷ ms) e (here h k) = here h (device_irq-same m.device b b' e ∙ k)
  moved-Asserts line b b' (m ∷ ms) e (there a) = there (moved-Asserts line b b' ms e a)

-- `d` is the system after the CPU's own step of `n` cycles, and `r` the result of the whole step.
pub record Composes {D : Type 0} ⦃dev : IDevice D⦄ (c : Cpu (Bus D)) (n : ℕ) (d : Cpu (Bus D))
    (r : ℕ × Cpu (Bus D)) : Type 0 where
  pub stepped : BusStepped c r
  pub spent : r.0 ≡ n
  pub cpu_step : SameCpu d r.1
  pub ticked : (i : ℕ) → r.1.bus.objects i ≡ ticks (mappings_of i d.bus.devices) n (d.bus.objects i)
  pub irq : (r.1.irq_line ≡ true) ↔ Asserts irq_line r.1.bus d.bus.devices
  pub firq : (r.1.firq_line ≡ true) ↔ Asserts firq_line r.1.bus d.bus.devices
  pub nmi :
      (r.1.nmi_pending ≡ true)
      ↔ ((d.nmi_pending ≡ true) ⊎ (d.bus.nmi_prev ≡ false) × Asserts nmi_line r.1.bus d.bus.devices)

module _ {D : Type 0} ⦃dev : IDevice D⦄ where
  device_tick-keeps :
      (p : DevicePtr) (cycles : ℕ) (b : Bus D)
      → ((device_tick p cycles b).devices ≡ b.devices)
        × ((device_tick p cycles b).nmi_prev ≡ b.nmi_prev)
  unfolding device_tick
  device_tick-keeps bank_device cycles b = (refl, refl)
  device_tick-keeps (object i) cycles b = (refl, refl)

  tick_all-keeps :
      (cycles : ℕ) (ms : List DeviceMapping) (b : Bus D)
      → ((tick_all cycles ms b).devices ≡ b.devices)
        × ((tick_all cycles ms b).nmi_prev ≡ b.nmi_prev)
  unfolding tick_all
  tick_all-keeps cycles [] b = (refl, refl)
  tick_all-keeps cycles (m ∷ ms) b =
      let rest = tick_all-keeps cycles ms (device_tick m.device cycles b) in
      let one = device_tick-keeps m.device cycles b in (rest.0 ∙ one.0, rest.1 ∙ one.1)

  -- The lines follow the devices whose states are those of `b'`.
  Asserts-same :
      (line : IrqLine) (b b' : Bus D) (ms : List DeviceMapping)
      → b'.objects ≡ b.objects
      → Asserts line b ms ↔ Asserts line b' ms
  Asserts-same line b b' ms e = (moved-Asserts line b b' ms e, moved-Asserts line b' b ms (sym e))

  update_irq_lines-SameCpu : (t : Cpu (Bus D)) → SameCpu t (update_irq_lines t).1
  unfolding update_irq_lines ◌>>=◌
  update_irq_lines-SameCpu t = drive_lines-SameCpu t _ _ _ _

  -- The lines after `update_irq_lines`, from the ticked devices.
  module _ (t d : Cpu (Bus D)) (devices : t.bus.devices ≡ d.bus.devices)
      (prev : t.bus.nmi_prev ≡ d.bus.nmi_prev) (pending : t.nmi_pending ≡ d.nmi_pending) where
    abbrev done : Cpu (Bus D)
    done = (update_irq_lines t).1

    follows : LinesFollow t done
    follows = update_irq_lines-LinesFollow t

    asserted :
        (line : IrqLine) → Asserts line t.bus t.bus.devices ↔ Asserts line done.bus d.bus.devices
    asserted line =
        subst (λ ms. Asserts line t.bus t.bus.devices ↔ Asserts line done.bus ms) devices
          (Asserts-same line t.bus done.bus t.bus.devices follows.same_objects)

    irq_lem : (done.irq_line ≡ true) ↔ Asserts irq_line done.bus d.bus.devices
    irq_lem = both_ways follows.irq_follows (asserted irq_line)

    firq_lem : (done.firq_line ≡ true) ↔ Asserts firq_line done.bus d.bus.devices
    firq_lem = both_ways follows.firq_follows (asserted firq_line)

    edge_lem :
        ((t.nmi_pending ≡ true) ⊎ (t.bus.nmi_prev ≡ false) × Asserts nmi_line t.bus t.bus.devices)
        ↔ ((d.nmi_pending ≡ true)
            ⊎ (d.bus.nmi_prev ≡ false) × Asserts nmi_line done.bus d.bus.devices)
    edge_lem = (
      (λ x. elim x [
        | inl p ↦ inl (sym pending ∙ p)
        | inr (low, a) ↦ inr (sym prev ∙ low, (asserted nmi_line).0 a)
      ]),
      (λ x. elim x [
        | inl p ↦ inl (pending ∙ p)
        | inr (low, a) ↦ inr (prev ∙ low, (asserted nmi_line).1 a)
      ]),
    )

    nmi_lem : (done.nmi_pending ≡ true) ↔ (
        (d.nmi_pending ≡ true) ⊎ (d.bus.nmi_prev ≡ false) × Asserts nmi_line done.bus d.bus.devices)
    nmi_lem = both_ways follows.nmi_on_edge edge_lem

module _ {D : Type 0} ⦃dev : IDevice D⦄ (bytes : DeviceReadsBytes dev) where
  -- A step of the system from a state with valid registers that is not halted, with devices that
  -- read bytes: the registers stay valid and from 1 to 200,000 cycles are spent and booked. The CPU
  -- makes one step; then every device is ticked with exactly the cycles of that step, once for each
  -- mapping that names it; then IRQ and FIRQ follow the devices in their new states, and NMI is
  -- pending where it was or where the OR of the outputs wired to it has risen.
  pub bus_step-Composes :
      (c : Cpu (Bus D))
      → IsValid c
      → c.is_halted ≡ false
      → Composes c (step c).0 (step c).1 (bus_step c)
  unfolding bus_step ◌>>=◌
  bus_step-Composes c v running =
      let h = step-Stepped (system_bus-ReadsBytes bytes) c v running in
      let n = (step c).0 in
      let d = (step c).1 in
      let exact : u32 n ≡ n = omega (arith, h.bounded) in
      let t : Cpu (Bus D) = record d { bus = tick_all (u32 n) d.bus.devices d.bus } in
      let same = update_irq_lines-SameCpu t in
      let kept = tick_all-keeps (u32 n) d.bus.devices d.bus in
      record {
        stepped = bus_step-BusStepped bytes c v running;
        spent = refl;
        cpu_step = record {
          same_regs = same.same_regs;
          same_insn_pc = same.same_insn_pc;
          same_total = same.same_total;
          same_halted = same.same_halted;
        };
        ticked = λ i.
            ap (λ (g : ℕ → D). g i) (follows t d kept.0 kept.1 refl).same_objects
            ∙ tick_all-objects (u32 n) i d.bus.devices d.bus
            ∙ ap (λ (m : ℕ). ticks (mappings_of i d.bus.devices) m (d.bus.objects i)) exact;
        irq = irq_lem t d kept.0 kept.1 refl;
        firq = firq_lem t d kept.0 kept.1 refl;
        nmi = nmi_lem t d kept.0 kept.1 refl;
      }
