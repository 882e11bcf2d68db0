-- ===== src/Cpu/Valid/Step.antt =====
-- `CPU::step`: what it returns, what it books, and that it keeps the registers valid.
use pugputer6309_emulator.Base.{
  ℕ, ◌+◌, ◌%◌, ◌^◌, ◌≤◌, ◌≡◌, refl, ap, arith, Bool, true, false, ◌⊎◌, inl, inr, if◌then◌else◌,
  take_else,
}
use pugputer6309_emulator.Cpu.Types.{Cpu, Callbacks, ReadsBytes, StopReason}
use pugputer6309_emulator.Cpu.Monad.{◌>>=◌}
use pugputer6309_emulator.Cpu.Interrupts.{pending, service_interrupts}
use pugputer6309_emulator.Cpu.Run.{
  book_cycles, run_instruction, step_waiting, step_instruction, step_unserved, step_running, step,
}
use pugputer6309_emulator.Cpu.Valid.Spec.{IsValid, Ran, Any, bind}
use pugputer6309_emulator.Cpu.Valid.Memory.{fetch8-Runs}
use pugputer6309_emulator.Cpu.Valid.Interrupts.{serve-cases}
use pugputer6309_emulator.Cpu.Valid.Opcodes.Execute.{execute-Runs}

-- The result of a step of a CPU that is not halted.
pub record Stepped {S : Type 0} (c : Cpu S) (r : ℕ × Cpu S) : Type 0 where
  pub valid : IsValid r.1
  pub spends : 1 ≤ r.0
  pub bounded : r.0 ≤ 200000
  pub booked : r.1.total_cycles ≡ (c.total_cycles + r.0) % 2 ^ 64
  pub same_halted : r.1.is_halted ≡ c.is_halted
  pub same_irq : r.1.irq_line ≡ c.irq_line
  pub same_firq : r.1.firq_line ≡ c.firq_line

module _ {S : Type 0} where
  book_cycles-Stepped :
      {A : Type 0} {P : A → Type 0} (c : Cpu S) (r : A × Cpu S)
      → c.cycles ≡ 0
      → Ran 1 200000 P c r
      → Stepped c (book_cycles r.1)
  unfolding book_cycles ◌>>=◌
  book_cycles-Stepped c r z h = record {
    valid = record { regs_fit = h.valid.regs_fit; insn_pc_fits = h.valid.insn_pc_fits };
    spends = omega (arith, h.least);
    bounded = omega (arith, h.most);
    booked = ap (λ t. (t + r.1.cycles) % 2 ^ 64) h.frame.same_total;
    same_halted = h.frame.same_halted;
    same_irq = h.frame.same_irq;
    same_firq = h.frame.same_firq;
  }

module _ {S : Type 0} ⦃io : Callbacks S⦄ (bytes : ReadsBytes io) where
  step_waiting-Stepped : (c : Cpu S) → IsValid c → Stepped c (step_waiting c)
  unfolding step_waiting book_cycles ◌>>=◌
  step_waiting-Stepped c v = record {
    valid = record { regs_fit = v.regs_fit; insn_pc_fits = v.insn_pc_fits };
    spends = omega arith;
    bounded = omega arith;
    booked = refl;
    same_halted = refl;
    same_irq = refl;
    same_firq = refl;
  }

  run_instruction-Ran :
      (c : Cpu S) → IsValid c → Ran 1 200000 Any (record c { insn_pc = c.pc }) (run_instruction c)
  unfolding run_instruction ◌>>=◌
  run_instruction-Ran c v =
      (bind (fetch8-Runs bytes) λ opcode _. execute-Runs bytes opcode).run
        (record c { insn_pc = c.pc })
        (record { regs_fit = v.regs_fit; insn_pc_fits = v.regs_fit.pc_fits })

  step_instruction-Stepped : (c : Cpu S) → IsValid c → c.cycles ≡ 0 → Stepped c (step_instruction c)
  unfolding step_instruction ◌>>=◌
  step_instruction-Stepped c v z =
      let h =
        book_cycles-Stepped (record c { insn_pc = c.pc }) (run_instruction c) z
          (run_instruction-Ran c v) in
      record {
        valid = h.valid;
        spends = h.spends;
        bounded = h.bounded;
        booked = h.booked;
        same_halted = h.same_halted;
        same_irq = h.same_irq;
        same_firq = h.same_firq;
      }

  step_unserved-Stepped : (c : Cpu S) → IsValid c → c.cycles ≡ 0 → Stepped c (step_unserved c)
  unfolding step_unserved ◌>>=◌
  step_unserved-Stepped c v z = choose c.wait_sync
    where
      choose : (waiting : Bool) → Stepped c ((if waiting then step_waiting else step_instruction) c)
      choose true = step_waiting-Stepped c v
      choose false = step_instruction-Stepped c v z

  -- The two ways on from `service_interrupts`.
  served-Stepped :
      (c : Cpu S) (r : Bool × Cpu S)
      → IsValid c
      → c.cycles ≡ 0
      → Ran 8 21 (λ b. b ≡ true) c r ⊎ (r.0 ≡ false) × (r.1 ≡ c)
      → Stepped c ((if r.0 then book_cycles else step_unserved) r.1)
  served-Stepped c (b, d) v z (inl h) = rw (h.result) (book_cycles-Stepped c (b, d) z (widen h))
    where
      widen : Ran 8 21 (λ b. b ≡ true) c (b, d) → Ran 1 200000 (λ b. b ≡ true) c (b, d)
      widen h = record {
        valid = h.valid;
        result = h.result;
        least = omega (arith, h.least);
        most = omega (arith, h.most);
        frame = h.frame;
      }
  served-Stepped c (b, d) v z (inr (e, same)) = rw (e, same) (step_unserved-Stepped c v z)

  step_running-Stepped : (c : Cpu S) → IsValid c → c.cycles ≡ 0 → Stepped c (step_running c)
  unfolding step_running service_interrupts ◌>>=◌
  step_running-Stepped c v z = served-Stepped c _ v z (serve-cases bytes (pending c) c v)

  -- A step of a CPU that is not halted keeps every register in the range of its type, returns a
  -- number of cycles from 1 to 200,000, adds exactly these to the total, modulo 2^64, and changes
  -- neither the halt nor an interrupt line; on a bus that reads bytes.
  pub step-Stepped : (c : Cpu S) → IsValid c → c.is_halted ≡ false → Stepped c (step c)
  unfolding step ◌>>=◌
  step-Stepped c v running =
      rw (take_else c.is_halted _ _ running) (restart (step_running-Stepped started valid refl))
    where
      started : Cpu S
      started = record c { cycles = 0; stop_reason = StopReason.cycle_budget }

      valid : IsValid started
      valid = record { regs_fit = v.regs_fit; insn_pc_fits = v.insn_pc_fits }

      restart : {r : ℕ × Cpu S} → Stepped started r → Stepped c r
      restart h = record {
        valid = h.valid;
        spends = h.spends;
        bounded = h.bounded;
        booked = h.booked;
        same_halted = h.same_halted;
        same_irq = h.same_irq;
        same_firq = h.same_firq;
      }
