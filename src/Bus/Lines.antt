-- ===== src/Bus/Lines.antt =====
-- The interrupt lines as the wired OR of the devices, and the edge that pulses NMI.
use pugputer6309_emulator.Base.{
  ◌≡◌, refl, arith, Bool, true, false, ◌||◌, ◌⊎◌, inl, inr, ◌↔◌, List, [], ◌∷◌, if◌then◌else◌,
}
use pugputer6309_emulator.Cpu.Types.{Cpu}
use pugputer6309_emulator.Cpu.Monad.{◌>>=◌}
use pugputer6309_emulator.Cpu.Run.{set_irq, set_firq, nmi_pulse}
use pugputer6309_emulator.Bus.Device.{IDevice, IrqLine, no_line, irq_line, firq_line, nmi_line}
use pugputer6309_emulator.Bus.Types.{Bus, DeviceMapping}
use pugputer6309_emulator.Bus.Control.{same_line, device_irq, gather, drive_lines, update_irq_lines}

-- Some mapping of the list is wired to the line, and its device asserts its output.
pub data Asserts {D : Type 0} ⦃dev : IDevice D⦄ (line : IrqLine) (b : Bus D)
    : List DeviceMapping → Type 0 where
  here :
      {m : DeviceMapping} {ms : List DeviceMapping}
      → m.line ≡ line
      → device_irq m.device b ≡ true
      → Asserts line b (m ∷ ms)
  there :
      {m : DeviceMapping} {ms : List DeviceMapping} → Asserts line b ms → Asserts line b (m ∷ ms)

same_line→≡ : (a b : IrqLine) → same_line a b ≡ true → a ≡ b
same_line→≡ no_line no_line h = refl
same_line→≡ irq_line irq_line h = refl
same_line→≡ firq_line firq_line h = refl
same_line→≡ nmi_line nmi_line h = refl
same_line→≡ a b h = absurd cc

same_line_refl : (a : IrqLine) → same_line a a ≡ true
same_line_refl no_line = refl
same_line_refl irq_line = refl
same_line_refl firq_line = refl
same_line_refl nmi_line = refl

one_round :
    (wired level output : Bool)
    → (if wired then level || output else level) ≡ true
    → (level ≡ true) ⊎ (wired ≡ true) × (output ≡ true)
one_round wired true output h = inl refl
one_round true false output h = inr (refl, h)
one_round false false output h = inl h

keep : (wired output : Bool) → (if wired then true || output else true) ≡ true
keep true output = refl
keep false output = refl

raise :
    (wired level output : Bool)
    → wired ≡ true
    → output ≡ true
    → (if wired then level || output else level) ≡ true
raise wired level output h k = ground arith

module _ {D : Type 0} ⦃dev : IDevice D⦄ where
  gather→Asserts :
      (line : IrqLine) (b : Bus D) (ms : List DeviceMapping) (level : Bool)
      → gather line b ms level ≡ true
      → (level ≡ true) ⊎ Asserts line b ms
  unfolding gather
  gather→Asserts line b [] level h = inl h
  gather→Asserts line b (m ∷ ms) level h = elim (gather→Asserts line b ms _ h) [
    | inr found ↦ inr (there found)
    | inl now ↦ elim (one_round (same_line m.line line) level (device_irq m.device b) now) [
      | inl before ↦ inl before
      | inr (wired, output) ↦ inr (here (same_line→≡ m.line line wired) output)
    ]
  ]

  gather-true :
      (line : IrqLine) (b : Bus D) (ms : List DeviceMapping) → gather line b ms true ≡ true
  unfolding gather
  gather-true line b [] = refl
  gather-true line b (m ∷ ms) =
      rw (keep (same_line m.line line) (device_irq m.device b)) (gather-true line b ms)

  Asserts→gather :
      (line : IrqLine) (b : Bus D) (ms : List DeviceMapping) (level : Bool)
      → Asserts line b ms
      → gather line b ms level ≡ true
  unfolding gather
  Asserts→gather line b [] level found = elim found [ ]
  Asserts→gather line b (m ∷ ms) level (here wired output) =
      let same : same_line m.line line ≡ true = rw wired (same_line_refl line) in
      rw (raise (same_line m.line line) level (device_irq m.device b) same output)
        (gather-true line b ms)
  Asserts→gather line b (m ∷ ms) level (there found) = Asserts→gather line b ms _ found

  -- What `update_irq_lines` leaves: each level line is the OR of the outputs that are wired to it,
  -- and NMI is pending if it was before, or if its OR has just risen.
  pub record LinesFollow (c d : Cpu (Bus D)) : Type 0 where
    pub irq_follows : (d.irq_line ≡ true) ↔ Asserts irq_line c.bus c.bus.devices
    pub firq_follows : (d.firq_line ≡ true) ↔ Asserts firq_line c.bus c.bus.devices
    pub nmi_on_edge :
        (d.nmi_pending ≡ true)
        ↔ ((c.nmi_pending ≡ true) ⊎ (c.bus.nmi_prev ≡ false) × Asserts nmi_line c.bus c.bus.devices)
    pub prev_follows : (d.bus.nmi_prev ≡ true) ↔ Asserts nmi_line c.bus c.bus.devices
    pub same_devices : d.bus.devices ≡ c.bus.devices
    pub same_objects : d.bus.objects ≡ c.bus.objects

  gather_iff :
      (line : IrqLine) (b : Bus D) (ms : List DeviceMapping)
      → (gather line b ms false ≡ true) ↔ Asserts line b ms
  gather_iff line b ms = (
    (λ h. elim (gather→Asserts line b ms false h) [ inl e ↦ absurd cc | inr found ↦ found ]),
    Asserts→gather line b ms false,
  )

  drive_lines-LinesFollow :
      (c : Cpu (Bus D)) (irq firq nmi prev : Bool)
      → c.bus.nmi_prev ≡ prev
      → (irq ≡ true) ↔ Asserts irq_line c.bus c.bus.devices
      → (firq ≡ true) ↔ Asserts firq_line c.bus c.bus.devices
      → (nmi ≡ true) ↔ Asserts nmi_line c.bus c.bus.devices
      → LinesFollow c (drive_lines irq firq nmi prev c).1
  unfolding drive_lines ◌>>=◌ set_irq set_firq nmi_pulse
  drive_lines-LinesFollow c irq firq true true e h k n = record {
    irq_follows = h;
    firq_follows = k;
    nmi_on_edge = (inl, λ x. elim x [ inl p ↦ p | inr (low, found) ↦ absurd cc ]);
    prev_follows = n;
    same_devices = refl;
    same_objects = refl;
  }
  drive_lines-LinesFollow c irq firq true false e h k n = record {
    irq_follows = h;
    firq_follows = k;
    nmi_on_edge = ((λ p. inr (e, n.0 refl)), λ x. refl);
    prev_follows = n;
    same_devices = refl;
    same_objects = refl;
  }
  drive_lines-LinesFollow c irq firq false prev e h k n = record {
    irq_follows = h;
    firq_follows = k;
    nmi_on_edge =
        (inl, λ x. elim x [ inl p ↦ p | inr (low, found) ↦ absurd (falsely (n.1 found)) ]);
    prev_follows = n;
    same_devices = refl;
    same_objects = refl;
  }
    where
      falsely : false ≡ true → ⊥
      falsely p = cc

  -- `update_irq_lines` makes IRQ and FIRQ follow the devices, and pulses NMI exactly when the OR
  -- of the outputs that are wired to NMI rises.
  pub update_irq_lines-LinesFollow : (c : Cpu (Bus D)) → LinesFollow c (update_irq_lines c).1
  unfolding update_irq_lines ◌>>=◌
  update_irq_lines-LinesFollow c =
      drive_lines-LinesFollow c _ _ _ c.bus.nmi_prev refl (gather_iff irq_line c.bus c.bus.devices)
        (gather_iff firq_line c.bus c.bus.devices) (gather_iff nmi_line c.bus c.bus.devices)
