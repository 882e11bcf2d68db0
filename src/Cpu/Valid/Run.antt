-- ===== src/Cpu/Valid/Run.antt =====
-- `CPU::run`: it returns, and what its result says.
use pugputer6309_emulator.Base.{
  ℕ, zero, suc, ◌+◌, ◌%◌, ◌^◌, ◌≤◌, ◌<◌, ◌≡◌, refl, ◌∙◌, arith, false, Option, none, some,
}
use pugputer6309_emulator.Cpu.Types.{Cpu, Callbacks, ReadsBytes, StopReason}
use pugputer6309_emulator.Cpu.Run.{run_exit, step, run_loop, run}
use pugputer6309_emulator.Cpu.Valid.Spec.{IsValid}
use pugputer6309_emulator.Cpu.Valid.Step.{Stepped, step-Stepped}

-- The result of a run that was given `max` cycles and began with `consumed`.
pub record Finished {S : Type 0} (max consumed : ℕ) (c : Cpu S) (r : ℕ × Cpu S) : Type 0 where
  pub valid : IsValid r.1
  pub exit : run_exit max r.0 r.1 ≡ some r.1.stop_reason
  pub bounded : r.0 < max + 200000
  pub booked : (r.1.total_cycles + consumed) % 2 ^ 64 ≡ (c.total_cycles + r.0) % 2 ^ 64
  pub same_irq : r.1.irq_line ≡ c.irq_line
  pub same_firq : r.1.firq_line ≡ c.firq_line

module _ {S : Type 0} where
  -- A loop that goes on has cycles left and is not halted.
  run_exit-none :
      (max consumed : ℕ) (c : Cpu S)
      → run_exit max consumed c ≡ none
      → (consumed < max) × (c.is_halted ≡ false)
  unfolding run_exit
  run_exit-none max consumed c h = ground arith

module _ {S : Type 0} ⦃io : Callbacks S⦄ (bytes : ReadsBytes io) where
  -- What the loop does from `c`, when `consumed` cycles are spent.
  Ends : ℕ → ℕ → ℕ → Cpu S → Type 0
  Ends fuel max consumed c =
      (r : ℕ × Cpu S) × (run_loop fuel max consumed c ≡ some r) × Finished max consumed c r

  -- One round in front of a rest that ends.
  round-Ends :
      (fuel max consumed : ℕ) (c : Cpu S)
      → IsValid c
      → max + 400000 < 2 ^ 64
      → consumed < max
      → Stepped c (step c)
      → run_exit max consumed c ≡ none
      → Ends fuel max ((consumed + (step c).0) % 2 ^ 64) (step c).1
      → Ends (suc fuel) max consumed c
  unfolding run_loop Ends
  round-Ends fuel max consumed c v fits more h goes_on (r, found, f) = (
    r,
    rw (run_loop, goes_on) found,
    record {
      valid = f.valid;
      exit = f.exit;
      bounded = f.bounded;
      booked = omega (arith, f.booked, h.booked, h.bounded);
      same_irq = f.same_irq ∙ h.same_irq;
      same_firq = f.same_firq ∙ h.same_firq;
    },
  )

  run_loop-Ends :
      (fuel max consumed : ℕ) (c : Cpu S)
      → IsValid c
      → 1 ≤ fuel
      → max < consumed + fuel
      → consumed < max + 200000
      → max + 400000 < 2 ^ 64
      → Ends fuel max consumed c
  unfolding run_loop run_exit Ends
  run_loop-Ends zero max consumed c v some_fuel enough low fits = absurd (omega arith)
  run_loop-Ends (suc fuel) max consumed c v some_fuel enough low fits =
      by_exit (λ n d w p q u. run_loop-Ends fuel max ((consumed + n) % 2 ^ 64) d w p q u fits)
        (run_exit max consumed c) refl
    where
      by_exit :
          ((n : ℕ) (d : Cpu S)
            → IsValid d
            → 1 ≤ fuel
            → max < (consumed + n) % 2 ^ 64 + fuel
            → (consumed + n) % 2 ^ 64 < max + 200000
            → Ends fuel max ((consumed + n) % 2 ^ 64) d)
          → (e : Option StopReason) → run_exit max consumed c ≡ e
          → Ends (suc fuel) max consumed c
      by_exit again (some why) e = (
        (consumed, record c { stop_reason = why }),
        rw (run_loop, e) refl,
        record {
          valid = record { regs_fit = v.regs_fit; insn_pc_fits = v.insn_pc_fits };
          exit = e;
          bounded = low;
          booked = refl;
          same_irq = refl;
          same_firq = refl;
        },
      )
      by_exit again none e =
          let on = run_exit-none max consumed c e in
          let h = step-Stepped bytes c v on.1 in
          round-Ends fuel max consumed c v fits on.0 h e (
            again (step c).0 (step c).1 h.valid (omega (arith, on.0))
              (omega (arith, on.0, h.spends, h.bounded)) (omega (arith, on.0, h.spends, h.bounded)))

  -- For a budget that leaves room below 2^64, `run` returns from every state with valid registers
  -- on a bus that reads bytes. It stops only for a spent budget, a halt or a breakpoint, which it
  -- reports; it runs over the budget by less than 200,000 cycles; the cycles it returns are those
  -- that were added to the total, modulo 2^64; and the registers are valid again.
  pub run-Finished :
      (max : ℕ) (c : Cpu S)
      → IsValid c
      → max + 400000 < 2 ^ 64
      → (r : ℕ × Cpu S) × (run max c ≡ some r) × Finished max 0 c r
  unfolding run Ends
  run-Finished max c v fits =
      let (r, found, f) =
        run_loop-Ends (suc max) max 0 (record c { stop_reason = StopReason.cycle_budget })
          (record { regs_fit = v.regs_fit; insn_pc_fits = v.insn_pc_fits }) (omega arith)
          (omega arith) (omega arith) fits in
      (
        r,
        found,
        record {
          valid = f.valid;
          exit = f.exit;
          bounded = f.bounded;
          booked = f.booked;
          same_irq = f.same_irq;
          same_firq = f.same_firq;
        },
      )
