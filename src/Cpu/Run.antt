-- ===== src/Cpu/Run.antt =====
-- `CPU::reset`, `step`, `run`, the breakpoints and the small members of hd6309_core.hpp.
-- `next_bp_id_` is an unbounded number here.
use pugputer6309_emulator.Base.{
  ℕ, zero, suc, ◌+◌, ◌%◌, ◌^◌, Bool, true, false, not, ltb, ◌==◌, if◌then◌else◌, Option, none, some,
  List, [], ◌∷◌, ◌++◌,
}
use pugputer6309_emulator.Cpu.Types.{Cpu, Callbacks, Regs, Breakpoint, StopReason}
use pugputer6309_emulator.Cpu.Monad.{M, ◌>>=◌, ◌>>◌, pure, gets, modify, modify_regs}
use pugputer6309_emulator.Cpu.Memory.{read16, fetch8}
use pugputer6309_emulator.Cpu.Interrupts.{vec_reset, mask_both, set_pc, service_interrupts}
use pugputer6309_emulator.Cpu.Opcodes.Execute.{execute}

-- `Regs{}`, with the `cc` that `reset` gives it.
abbrev pub reset_regs : Regs
reset_regs = record {
  pc = 0;
  x = 0;
  y = 0;
  u = 0;
  s = 0;
  v = 0;
  a = 0;
  b = 0;
  dp = 0;
  cc = mask_both;
  e = 0;
  f = 0;
  md = 0;
}

module _ {S : Type 0} where
  abbrev pub set_stop_reason : StopReason → M S (Unit {0})
  set_stop_reason why = modify (λ c. record c { stop_reason = why })

  unfoldable pub set_irq : Bool → M S (Unit {0})
  set_irq asserted = modify (λ c. record c { irq_line = asserted })

  unfoldable pub set_firq : Bool → M S (Unit {0})
  set_firq asserted = modify (λ c. record c { firq_line = asserted })

  unfoldable pub nmi_pulse : M S (Unit {0})
  nmi_pulse = modify (λ c. record c { nmi_pending = true })

  unfoldable pub halt : M S (Unit {0})
  halt = modify (λ c. record c { is_halted = true })

  unfoldable pub resume : M S (Unit {0})
  resume = modify (λ c. record c { is_halted = false })

  unfoldable pub add_breakpoint : ℕ → M S ℕ
  add_breakpoint addr = do
    id ← gets (λ c. c.next_bp_id)
    modify (λ c. record c {
      next_bp_id = c.next_bp_id + 1;
      breakpoints = c.breakpoints ++ (record { id = id; addr = addr } ∷ []);
    })
    pure id

-- `erase(remove_if(… b.id == id …))`
unfoldable pub without_id : ℕ → List Breakpoint → List Breakpoint
without_id id [] = []
without_id id (b ∷ bs) = if b.id == id then without_id id bs else b ∷ without_id id bs

-- The loop of `run` over the breakpoints: is one of them at `pc`?
unfoldable pub hits : ℕ → List Breakpoint → Bool
hits pc [] = false
hits pc (b ∷ bs) = if b.addr == pc then true else hits pc bs

module _ {S : Type 0} where
  unfoldable pub remove_breakpoint : ℕ → M S (Unit {0})
  remove_breakpoint id = modify (λ c. record c { breakpoints = without_id id c.breakpoints })

  unfoldable pub clear_breakpoints : M S (Unit {0})
  clear_breakpoints = modify (λ c. record c { breakpoints = [] })

  -- `total_cycles_ += cycles_; return cycles_;`
  unfoldable pub book_cycles : M S ℕ
  book_cycles = do
    modify (λ c. record c { total_cycles = (c.total_cycles + c.cycles) % 2 ^ 64 })
    gets (λ c. c.cycles)

  -- Why `run` leaves its loop, if it does: the budget, a halt or a breakpoint, in this order.
  unfoldable pub run_exit : ℕ → ℕ → Cpu S → Option StopReason
  run_exit max consumed c =
      if not (ltb consumed max)
      then some StopReason.cycle_budget
      else (if c.is_halted
          then some StopReason.halted
          else (if hits c.pc c.breakpoints then some StopReason.breakpoint else none))

module _ {S : Type 0} ⦃io : Callbacks S⦄ where
  unfoldable pub reset : M S (Unit {0})
  reset = do
    modify_regs (λ r. reset_regs)
    at ← read16 vec_reset
    set_pc at
    modify (λ c. record c {
      irq_line = false;
      firq_line = false;
      nmi_pending = false;
      wait_sync = false;
      is_halted = false;
      cwai_pushed_pending = false;
      total_cycles = 0;
      stop_reason = StopReason.cycle_budget;
    })

  -- The last part of `step`: one instruction.
  unfoldable pub run_instruction : M S (Unit {0})
  run_instruction = do modify (λ c. record c { insn_pc = c.pc }); opcode ← fetch8; execute opcode

  -- The end of `step` in a SYNC that waits, and with an instruction.
  unfoldable pub step_waiting : M S ℕ
  step_waiting = do
    modify (λ c. record c { cycles = 1 })
    spent ← book_cycles
    set_stop_reason StopReason.sync
    pure spent

  unfoldable pub step_instruction : M S ℕ
  step_instruction = do run_instruction; book_cycles

  unfoldable pub step_unserved : M S ℕ
  step_unserved = do
    waiting ← gets (λ c. c.wait_sync)
    if waiting then step_waiting else step_instruction

  -- `step` behind its test for `halted_`.
  unfoldable pub step_running : M S ℕ
  step_running = do served ← service_interrupts; if served then book_cycles else step_unserved

  unfoldable pub step : M S ℕ
  step = do
    modify (λ c. record c { cycles = 0; stop_reason = StopReason.cycle_budget })
    stopped ← gets (λ c. c.is_halted)
    if stopped then (do set_stop_reason StopReason.halted; pure 0) else step_running

  -- `while (consumed < max_cycles)` with fuel; `none` means that the fuel ran out.
  unfoldable pub run_loop : ℕ → ℕ → ℕ → Cpu S → Option (ℕ × Cpu S)
  run_loop zero max consumed c = none
  run_loop (suc fuel) max consumed c = elim (run_exit max consumed c) [
    | some why ↦ some (consumed, record c { stop_reason = why })
    | none ↦ let (spent, c') = step c in run_loop fuel max ((consumed + spent) % 2 ^ 64) c'
  ]

  -- Every round runs at least one cycle, so `max_cycles + 1` rounds are enough.
  unfoldable pub run : ℕ → Cpu S → Option (ℕ × Cpu S)
  run max c = run_loop (suc max) max 0 (record c { stop_reason = StopReason.cycle_budget })
