-- ===== src/Bus/Access.antt =====
-- Address decoding, simulator/src/pugputer/system_bus.cpp: the mappings, the banks, `read8` and
-- `write8`.
use pugputer6309_emulator.Base.{
  ℕ, ◌+◌, ◌-◌, ◌*◌, ◌/◌, Bool, List, [], ◌∷◌, ◌++◌, Option, none, some, ltb, leb, bit_and, ◌&&◌,
  if◌then◌else◌, u8,
}
use pugputer6309_emulator.Cpu.Types.{Callbacks}
use pugputer6309_emulator.Bus.Device.{IDevice, IrqLine, no_line}
use pugputer6309_emulator.Bus.Types.{
  Bus, DeviceMapping, DevicePtr, bank_device, object, page_size, same_name, update,
}

-- The name "bank_registers".
abbrev pub bank_registers_name : List ℕ
bank_registers_name =
    98 ∷ 97 ∷ 110 ∷ 107 ∷ 95 ∷ 114 ∷ 101 ∷ 103 ∷ 105 ∷ 115 ∷ 116 ∷ 101 ∷ 114 ∷ 115 ∷ []

-- `erase(remove_if(… m.name == name …))`
unfoldable pub without_name : List ℕ → List DeviceMapping → List DeviceMapping
without_name name [] = []
without_name name (m ∷ ms) =
    if same_name m.name name then without_name name ms else m ∷ without_name name ms

unfoldable pub covers : DeviceMapping → ℕ → Bool
covers m addr = leb m.base addr && ltb addr (m.base + m.size)

-- The scan from the back: a later mapping before an earlier one.
unfoldable pub find_mapping : ℕ → List DeviceMapping → Option DeviceMapping
find_mapping addr [] = none
find_mapping addr (m ∷ ms) = elim (find_mapping addr ms) [
  | some found ↦ some found
  | none ↦ if covers m addr then some m else none
]

module _ {D : Type 0} where
  unfoldable pub unmap_device : List ℕ → Bus D → Bus D
  unmap_device name b = record b { devices = without_name name b.devices }

  unfoldable pub map_device : List ℕ → ℕ → ℕ → DevicePtr → IrqLine → Bus D → Bus D
  map_device name base size device line b = record b {
    devices =
        without_name name b.devices
        ++ (record { name = name; base = base; size = size; device = device; line = line } ∷ []);
  }

  unfoldable pub map_bank_registers : ℕ → Bus D → Bus D
  map_bank_registers base = map_device bank_registers_name base 4 bank_device no_line

  -- The index into `ram_`; `none` is the null pointer.
  unfoldable pub phys_byte : Bus D → ℕ → Option ℕ
  phys_byte b addr =
      let page = b.bank_regs (addr / page_size) in
      if leb b.pages page then none else some (page * page_size + bit_and addr (page_size - 1))

module _ {D : Type 0} ⦃dev : IDevice D⦄ where
  unfoldable pub device_read : DevicePtr → ℕ → Bus D → ℕ × Bus D
  device_read bank_device offset b = (0xff, b)
  device_read (object i) offset b =
      let (v, d) = dev.read (b.objects i) offset in (v, record b { objects = update b.objects i d })

  unfoldable pub device_write : DevicePtr → ℕ → ℕ → Bus D → Bus D
  device_write bank_device offset value b = record b {
    bank_regs = update b.bank_regs (bit_and offset 3) (u8 value);
  }
  device_write (object i) offset value b = record b {
    objects = update b.objects i (dev.write (b.objects i) offset value);
  }

  -- `SystemBus::read8` and `write8`
  unfoldable pub bus_read8 : Bus D → ℕ → ℕ × Bus D
  bus_read8 b addr = elim (find_mapping addr b.devices) [
    | some m ↦ device_read m.device (addr - m.base) b
    | none ↦ elim (phys_byte b addr) [ some p ↦ (u8 (b.ram p), b) | none ↦ (0xff, b) ]
  ]

  unfoldable pub bus_write8 : Bus D → ℕ → ℕ → Bus D
  bus_write8 b addr value = elim (find_mapping addr b.devices) [
    | some m ↦ device_write m.device (addr - m.base) value b
    | none ↦ elim (phys_byte b addr) [
      | some p ↦ record b { ram = update b.ram p (u8 value) }
      | none ↦ b
    ]
  ]

  -- `s_read` and `s_write`
  instance abbrev pub system_bus : Callbacks (Bus D)
  system_bus = record { read = bus_read8; write = bus_write8 }
