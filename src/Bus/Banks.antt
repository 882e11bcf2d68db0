-- ===== src/Bus/Banks.antt =====
-- RAM through the bank registers.
use pugputer6309_emulator.Base.{
  ℕ, ◌*◌, ◌/◌, ◌%◌, ◌<◌, ◌≡◌, refl, ◌∙◌, arith, none, some, ◌==◌, leb, if◌then◌else◌, u8, Bool,
  true, false,
}
use pugputer6309_emulator.Base.Bits.{bit_and-0x3fff}
use pugputer6309_emulator.Bus.Device.{IDevice}
use pugputer6309_emulator.Bus.Types.{Bus, update}
use pugputer6309_emulator.Bus.Access.{find_mapping, phys_byte, bus_read8, bus_write8}

if_some : (b : Bool) (x y : ℕ) → (if b then none else some x) ≡ some y → (b ≡ false) × (x ≡ y)
if_some true x y h = absurd (cc)
if_some false x y h = (refl, cc)

module _ {D : Type 0} where
  phys_byte-ram :
      (b : Bus D) (ram : ℕ → ℕ) (addr : ℕ)
      → phys_byte (record b { ram = ram }) addr ≡ phys_byte b addr
  unfolding phys_byte
  phys_byte-ram b ram addr = refl

  -- The physical address of a byte: its page is the bank register of the top two address bits,
  -- its offset is the rest of the address, and it lies within the installed RAM.
  pub phys_byte-place :
      (b : Bus D) (addr at : ℕ)
      → phys_byte b addr ≡ some at
      → (at / 16384 ≡ b.bank_regs (addr / 16384))
        × (at % 16384 ≡ addr % 16384)
        × (at < b.pages * 16384)
  unfolding phys_byte
  phys_byte-place b addr at h =
      let (inside, same) = if_some (leb b.pages (b.bank_regs (addr / 16384))) _ at h in
      let low : b.bank_regs (addr / 16384) < b.pages = ground arith in
      (
        omega (arith, same, bit_and-0x3fff addr),
        omega (arith, same, bit_and-0x3fff addr),
        omega (arith, same, bit_and-0x3fff addr, low),
      )

module _ {D : Type 0} ⦃dev : IDevice D⦄ where
  pub bus_read8-ram :
      (b : Bus D) (addr at : ℕ)
      → find_mapping addr b.devices ≡ none
      → phys_byte b addr ≡ some at
      → bus_read8 b addr ≡ (u8 (b.ram at), b)
  unfolding bus_read8
  bus_read8-ram b addr at h p = rw (bus_read8, h, p) refl

  bus_write8-ram :
      (b : Bus D) (addr at value : ℕ)
      → find_mapping addr b.devices ≡ none
      → phys_byte b addr ≡ some at
      → bus_write8 b addr value ≡ record b { ram = update b.ram at (u8 value) }
  unfolding bus_write8
  bus_write8-ram b addr at value h p = rw (bus_write8, h, p) refl

  -- After a write to RAM, an address that shows the same physical byte, through whichever bank,
  -- reads the value written, and every other RAM address reads what it read before.
  pub bus_read8-bus_write8 :
      (b : Bus D) (addr at other there value : ℕ)
      → find_mapping addr b.devices ≡ none
      → find_mapping other b.devices ≡ none
      → phys_byte b addr ≡ some at
      → phys_byte b other ≡ some there
      → (bus_read8 (bus_write8 b addr value) other).0
        ≡ (if there == at then u8 value else (bus_read8 b other).0)
  unfolding update
  bus_read8-bus_write8 b addr at other there value h k p q =
      rw
        (
          bus_write8-ram b addr at value h p,
          bus_read8-ram (record b { ram = update b.ram at (u8 value) }) other there k
              (phys_byte-ram b _ other ∙ q),
          bus_read8-ram b other there k q,
        )
        (pick (there == at))
    where
      pick :
          (same : Bool)
          → u8 (if same then u8 value else b.ram there)
            ≡ (if same then u8 value else u8 (b.ram there))
      pick true = omega arith
      pick false = refl
