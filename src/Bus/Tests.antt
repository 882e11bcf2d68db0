-- ===== src/Bus/Tests.antt =====
-- A system with a ROM at $E000, the bank registers at $FFEC, and bank 1 showing page 0.
use pugputer6309_emulator.Base.{
  ℕ, ◌*◌, ◌/◌, ◌%◌, ◌<◌, ◌≡◌, refl, arith, false, [], ◌∷◌, none, some, ◌==◌, if◌then◌else◌, u8,
}
use pugputer6309_emulator.Cpu.Types.{Cpu, StopReason, pair16}
use pugputer6309_emulator.Cpu.Run.{reset_regs}
use pugputer6309_emulator.Cpu.Valid.Spec.{IsValid}
use pugputer6309_emulator.Bus.Device.{
  IDevice, DeviceReadsBytes, RomDevice, rom_device, no_line, nmi_line,
}
use pugputer6309_emulator.Bus.Types.{Bus, DeviceMapping, object}
use pugputer6309_emulator.Bus.Access.{
  system_bus, covers, find_mapping, map_device, unmap_device, phys_byte, bus_read8, bus_write8,
}
use pugputer6309_emulator.Bus.Control.{update_irq_lines, bus_step, bus_run, bus_reset}
use pugputer6309_emulator.Bus.Mapping.{find_mapping-map_device}
use pugputer6309_emulator.Bus.Banks.{phys_byte-place, bus_read8-bus_write8}
use pugputer6309_emulator.Bus.Lines.{LinesFollow, update_irq_lines-LinesFollow}
use pugputer6309_emulator.Bus.Run.{BusFinished, bus_run-BusFinished}
use pugputer6309_emulator.Cpu.Run.{step}
use pugputer6309_emulator.Bus.Composed.{Composes, bus_step-Composes}
use pugputer6309_emulator.Bus.Reset.{bus_reset-vector}

abbrev rom : RomDevice
rom = record { data_at = λ i. 0x12; size = 4096 }

instance abbrev roms : IDevice RomDevice
roms = rom_device

abbrev rom_mapping : DeviceMapping
rom_mapping = record {
  name = 114 ∷ [];
  base = 0xe000;
  size = 4096;
  device = object 0;
  line = nmi_line;
}

-- 64 pages of RAM; bank 2 shows page 200, which is not installed.
abbrev banked : Bus RomDevice
banked = record {
  ram = λ at. 0x12;
  pages = 64;
  bank_regs = λ i. if i == 1 then 0 else (if i == 2 then 200 else i);
  devices = rom_mapping ∷ [];
  nmi_prev = false;
  objects = λ i. rom;
}

abbrev system : Cpu (Bus RomDevice)
system = record {
  regs = reset_regs;
  bus = banked;
  irq_line = false;
  firq_line = false;
  nmi_pending = false;
  wait_sync = false;
  is_halted = false;
  cwai_pushed_pending = false;
  total_cycles = 0;
  stop_reason = StopReason.cycle_budget;
  breakpoints = [];
  next_bp_id = 0;
  cycles = 0;
  insn_pc = 0;
}

roms-DeviceReadsBytes : DeviceReadsBytes roms
roms-DeviceReadsBytes d offset = ground arith

system-IsValid : IsValid system
system-IsValid = record { regs_fit = omega arith; insn_pc_fits = omega arith }

free-5000 : find_mapping 0x5000 banked.devices ≡ none
unfolding find_mapping covers
free-5000 = refl

free-1000 : find_mapping 0x1000 banked.devices ≡ none
unfolding find_mapping covers
free-1000 = refl

free-fffe : find_mapping 0xfffe banked.devices ≡ none
unfolding find_mapping covers
free-fffe = refl

free-ffff : find_mapping 0xffff banked.devices ≡ none
unfolding find_mapping covers
free-ffff = refl

phys-5000 : phys_byte banked 0x5000 ≡ some 0x1000
unfolding phys_byte
phys-5000 = refl

phys-1000 : phys_byte banked 0x1000 ≡ some 0x1000
unfolding phys_byte
phys-1000 = refl

phys-fffe : phys_byte banked 0xfffe ≡ some 0xfffe
unfolding phys_byte
phys-fffe = refl

phys-ffff : phys_byte banked 0xffff ≡ some 0xffff
unfolding phys_byte
phys-ffff = refl

find_mapping-map_device_example :
    find_mapping 0xe800 (map_device (98 ∷ []) 0xe800 16 (object 1) no_line banked).devices ≡ (
      let m : DeviceMapping = record {
        name = 98 ∷ [];
        base = 0xe800;
        size = 16;
        device = object 1;
        line = no_line;
      } in
      if covers m 0xe800
      then some m
      else find_mapping 0xe800 (unmap_device (98 ∷ []) banked).devices)
find_mapping-map_device_example =
    find_mapping-map_device 0xe800 (98 ∷ []) 0xe800 16 (object 1) no_line banked

phys_byte-place_example :
    (0x1000 / 16384 ≡ banked.bank_regs (0x5000 / 16384))
    × (0x1000 % 16384 ≡ 0x5000 % 16384)
    × (0x1000 < banked.pages * 16384)
phys_byte-place_example = phys_byte-place banked 0x5000 0x1000 phys-5000

bus_read8-bus_write8_example :
    (bus_read8 (bus_write8 banked 0x5000 7) 0x1000).0
    ≡ (if 0x1000 == 0x1000 then u8 7 else (bus_read8 banked 0x1000).0)
bus_read8-bus_write8_example =
    bus_read8-bus_write8 banked 0x5000 0x1000 0x1000 0x1000 7 free-5000 free-1000 phys-5000
      phys-1000

update_irq_lines-LinesFollow_example : LinesFollow system (update_irq_lines system).1
update_irq_lines-LinesFollow_example = update_irq_lines-LinesFollow system

bus_step-Composes_example : Composes system (step system).0 (step system).1 (bus_step system)
bus_step-Composes_example = bus_step-Composes roms-DeviceReadsBytes system system-IsValid refl

bus_run-BusFinished_example :
    (r : ℕ × Cpu (Bus RomDevice)) × (bus_run 5 system ≡ some r) × BusFinished 5 0 system r
bus_run-BusFinished_example =
    bus_run-BusFinished roms-DeviceReadsBytes 5 system system-IsValid (omega arith)

bus_reset-vector_example : (bus_reset system).1.pc ≡ pair16 (u8 0x12) (u8 0x12)
bus_reset-vector_example =
    bus_reset-vector system 0xfffe 0xffff free-fffe free-ffff phys-fffe phys-ffff
