-- ===== src/Cpu/Tests.antt =====
-- Concrete runs of the CPU on the flat RAM bus.
use pugputer6309_emulator.Base.{
  ℕ, ◌≡◌, ◌≢◌, refl, arith, true, false, [], List, ◌∷◌, some, ◌==◌, if◌then◌else◌, i8, i16,
}
use pugputer6309_emulator.Cpu.Types.{Cpu, StopReason, ReadsBytes, cc_c, cc_z}
use pugputer6309_emulator.Cpu.Flags.{put_flag, has_flag}
use pugputer6309_emulator.Cpu.Alu.{cmp8, cmp16}
use pugputer6309_emulator.Cpu.FlagBits.{same_flag, has_flag-put_flag}
use pugputer6309_emulator.Cpu.Compare.{Decides, cmp8-Decides, cmp16-Decides}
use pugputer6309_emulator.Cpu.Memory.{stack_s, push16, pull16}
use pugputer6309_emulator.Cpu.Stack.{Pulled, pull16-push16}
use pugputer6309_emulator.Cpu.Interrupts.{nothing, irq, firq, pending, service_interrupts}
use pugputer6309_emulator.Cpu.Masking.{service_interrupts-masks}
use pugputer6309_emulator.Cpu.Run.{reset, step, run, reset_regs}
use pugputer6309_emulator.Cpu.RamBus.{RamBus, ram_bus, ram_bus_read}
use pugputer6309_emulator.Cpu.Opcodes.Execute.{execute}
use pugputer6309_emulator.Cpu.Valid.Spec.{IsValid}
use pugputer6309_emulator.Cpu.Valid.Operands.{Executes}
use pugputer6309_emulator.Cpu.Valid.Opcodes.Execute.{execute-Runs}
use pugputer6309_emulator.Cpu.Valid.Step.{Stepped, step-Stepped}
use pugputer6309_emulator.Cpu.Valid.Reset.{reset-IsValid}
use pugputer6309_emulator.Cpu.Valid.Run.{Finished, run-Finished}

abbrev image : List (ℕ × ℕ) → RamBus
image [] addr = 0
image ((a, v) ∷ rest) addr = if addr == a then v else image rest addr

-- A CPU that starts at address 0.
abbrev at_zero : List (ℕ × ℕ) → Cpu RamBus
at_zero code = record {
  regs = reset_regs;
  bus = image code;
  irq_line = false;
  firq_line = false;
  nmi_pending = false;
  wait_sync = false;
  is_halted = false;
  cwai_pushed_pending = false;
  total_cycles = 0;
  stop_reason = StopReason.cycle_budget;
  breakpoints = [];
  next_bp_id = 0;
  cycles = 0;
  insn_pc = 0;
}

-- LDA #$7F, ADDA #$03, SYNC
abbrev adds : Cpu RamBus
adds = at_zero ((0, 0x86) ∷ (1, 0x7f) ∷ (2, 0x8b) ∷ (3, 0x03) ∷ (4, 0x13) ∷ [])

ram_bus-ReadsBytes : ReadsBytes ram_bus
unfolding ram_bus_read
ram_bus-ReadsBytes bus addr = omega arith

adds-IsValid : IsValid adds
adds-IsValid = record { regs_fit = omega arith; insn_pc_fits = omega arith }

execute-Runs_example : Executes {S = RamBus} (execute 0x8b)
execute-Runs_example = execute-Runs ram_bus-ReadsBytes 0x8b

step-Stepped_example : Stepped adds (step adds)
step-Stepped_example = step-Stepped ram_bus-ReadsBytes adds adds-IsValid refl

run-Finished_example : (r : ℕ × Cpu RamBus) × (run 5 adds ≡ some r) × Finished 5 0 adds r
run-Finished_example = run-Finished ram_bus-ReadsBytes 5 adds adds-IsValid (omega arith)

has_flag-put_flag_example :
    has_flag cc_z (put_flag cc_c true 0x05)
    ≡ (if same_flag cc_c cc_z then true else has_flag cc_z 0x05)
has_flag-put_flag_example = has_flag-put_flag cc_c cc_z true 0x05

cmp8-Decides_example : Decides 0x7f 0x80 (i8 0x7f) (i8 0x80) (cmp8 0x7f 0x80 adds).1.cc
cmp8-Decides_example = cmp8-Decides adds 0x7f 0x80 (omega arith) (omega arith)

cmp16-Decides_example :
    Decides 0x7fff 0x8000 (i16 0x7fff) (i16 0x8000) (cmp16 0x7fff 0x8000 adds).1.cc
cmp16-Decides_example = cmp16-Decides adds 0x7fff 0x8000 (omega arith) (omega arith)

pull16-push16_example : Pulled adds (pull16 stack_s (push16 stack_s 0x1234 adds).1) 0x1234
pull16-push16_example = pull16-push16 stack_s adds 0x1234 (omega arith) (omega arith)

-- An NMI, with the devices holding FIRQ and IRQ.
abbrev interrupted : Cpu RamBus
interrupted = record adds { nmi_pending = true; firq_line = true; irq_line = true }

interrupted-pending : pending interrupted ≢ nothing
unfolding pending
interrupted-pending = ground arith

service_interrupts-masks_example :
    (pending (service_interrupts interrupted).1 ≢ irq)
    × (pending interrupted ≢ irq → pending (service_interrupts interrupted).1 ≢ firq)
service_interrupts-masks_example = service_interrupts-masks interrupted interrupted-pending

reset-IsValid_example :
    IsValid (reset interrupted).1
    × (pending (reset interrupted).1 ≡ nothing)
    × ((reset interrupted).1.is_halted ≡ false)
    × ((reset interrupted).1.total_cycles ≡ 0)
    × ((reset interrupted).1.md ≡ 0)
reset-IsValid_example = reset-IsValid interrupted (omega arith)
