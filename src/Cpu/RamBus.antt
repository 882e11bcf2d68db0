-- ===== src/Cpu/RamBus.antt =====
-- The flat 64 KB bus of hd6309_api.cpp. A byte of the array is read modulo 2 ^ 8.
use pugputer6309_emulator.Base.{ℕ, ◌==◌, if◌then◌else◌, u8}
use pugputer6309_emulator.Cpu.Types.{Callbacks}

-- `struct hd6309_ram_bus_t`
abbrev pub RamBus : Type 0
RamBus = ℕ → ℕ

unfoldable pub ram_bus_create : RamBus
ram_bus_create addr = 0

unfoldable pub ram_bus_read : RamBus → ℕ → ℕ × RamBus
ram_bus_read bus addr = (u8 (bus addr), bus)

unfoldable pub ram_bus_write : RamBus → ℕ → ℕ → RamBus
ram_bus_write bus addr value = λ other. if other == addr then u8 value else bus other

-- `hd6309_ram_bus_read_fn` and `hd6309_ram_bus_write_fn`.
instance abbrev pub ram_bus : Callbacks RamBus
ram_bus = record { read = ram_bus_read; write = ram_bus_write }
