-- ===== src/Bus/Device.antt =====
-- simulator/include/pugputer/device.hpp and rom_device.hpp.
use pugputer6309_emulator.Base.{ℕ, ◌<◌, Bool, false, ltb, if◌then◌else◌, u8}

-- `enum class IrqLine`
pub data IrqLine : Type 0 where
  no_line irq_line firq_line nmi_line : IrqLine

-- `class IDevice`, over the states of a device. A read may change the device.
pub record IDevice (D : Type 0) : Type 0 where
  pub read : D → ℕ → ℕ × D
  pub write : D → ℕ → ℕ → D
  pub reset : D → D
  pub tick : D → ℕ → D
  pub irq_asserted : D → Bool

-- The result type `uint8_t` of `IDevice::read`.
abbrev pub DeviceReadsBytes : {D : Type 0} → IDevice D → Type 0
DeviceReadsBytes {D} dev = (d : D) (offset : ℕ) → (dev.read d offset).0 < 256

-- `class RomDevice`: the contents and their size. A byte is read modulo 2 ^ 8.
pub record RomDevice : Type 0 where
  pub data_at : ℕ → ℕ
  pub size : ℕ

abbrev pub rom_device : IDevice RomDevice
rom_device = record {
  read = λ d offset. ((if ltb offset d.size then u8 (d.data_at offset) else 0xff), d);
  write = λ d offset value. d;
  reset = λ d. d;
  tick = λ d cycles. d;
  irq_asserted = λ d. false;
}

-- `load(src, n)`
unfoldable pub rom_load : (ℕ → ℕ) → ℕ → RomDevice → RomDevice
rom_load src n d =
    let count = if ltb n d.size then n else d.size in
    record d { data_at = λ i. if ltb i count then src i else d.data_at i }
