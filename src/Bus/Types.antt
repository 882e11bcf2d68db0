-- ===== src/Bus/Types.antt =====
-- The state of `class SystemBus` (simulator/include/pugputer/system_bus.hpp) without the CPU, which
-- holds it as its bus: a `SystemBus` is a `Cpu (Bus D)`.
use pugputer6309_emulator.Base.{ℕ, Bool, true, false, List, [], ◌∷◌, ltb, ◌==◌, if◌then◌else◌}
use pugputer6309_emulator.Bus.Device.{IrqLine}

abbrev pub page_size : ℕ
page_size = 16384

abbrev pub addressable_pages : ℕ
addressable_pages = 256

abbrev pub bank_registers_base : ℕ
bank_registers_base = 0xffec

-- A device pointer: the bus's own `BankRegisters`, or an object outside the bus. Two mappings
-- may hold the same pointer.
pub data DevicePtr : Type 0 where
  bank_device : DevicePtr
  object : ℕ → DevicePtr

-- A name is a list of character codes.
pub record DeviceMapping : Type 0 where
  pub name : List ℕ
  pub base : ℕ
  pub size : ℕ
  pub device : DevicePtr
  pub line : IrqLine

-- `objects` are the states of the devices that the pointers name; `pages` is the size of `ram_` in
-- pages. A byte of RAM is read modulo 2 ^ 8.
pub record Bus (D : Type 0) : Type 0 where
  pub ram : ℕ → ℕ
  pub pages : ℕ
  pub bank_regs : ℕ → ℕ
  pub devices : List DeviceMapping
  pub nmi_prev : Bool
  pub objects : ℕ → D

unfoldable pub same_name : List ℕ → List ℕ → Bool
same_name [] [] = true
same_name [] (y ∷ ys) = false
same_name (x ∷ xs) [] = false
same_name (x ∷ xs) (y ∷ ys) = if x == y then same_name xs ys else false

-- A function with one value replaced.
unfoldable pub update {ℓ} : {A : Type ℓ} → (ℕ → A) → ℕ → A → ℕ → A
update f i x j = if j == i then x else f j

-- The registers' value at reset: bank i shows page i.
abbrev pub reset_banks : ℕ → ℕ
reset_banks i = i

-- The pages that the constructor installs: at most 256, and at least the four of the reset mapping.
unfoldable pub installed_pages : ℕ → ℕ
installed_pages ram_pages =
    if ltb ram_pages 4
    then 4
    else (if ltb ram_pages addressable_pages then ram_pages else addressable_pages)

-- `SystemBus(ram_pages)`, with the objects that exist.
unfoldable pub new_bus : {D : Type 0} → ℕ → (ℕ → D) → Bus D
new_bus ram_pages objects = record {
  ram = λ at. 0;
  pages = installed_pages ram_pages;
  bank_regs = reset_banks;
  devices = [];
  nmi_prev = false;
  objects = objects;
}
