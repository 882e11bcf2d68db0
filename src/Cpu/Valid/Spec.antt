-- ===== src/Cpu/Valid/Spec.antt =====
-- The ranges of the registers, and a specification of the members of `class CPU` by what they
-- keep: valid registers, the lines and the totals, and a bounded number of cycles spent.
use pugputer6309_emulator.Base.{
  ℕ, ◌+◌, ◌≤◌, ◌<◌, ◌≡◌, refl, ◌∙◌, arith, Bool, true, false, if◌then◌else◌,
}
use pugputer6309_emulator.Cpu.Types.{Cpu, Regs}
use pugputer6309_emulator.Cpu.Monad.{M, ◌>>=◌, pure, gets, modify, modify_regs, add_cycles}

-- Every register is in the range of its C++ type.
pub record IsValidRegs (r : Regs) : Type 0 where
  pub pc_fits : r.pc < 65536
  pub x_fits : r.x < 65536
  pub y_fits : r.y < 65536
  pub u_fits : r.u < 65536
  pub s_fits : r.s < 65536
  pub v_fits : r.v < 65536
  pub a_fits : r.a < 256
  pub b_fits : r.b < 256
  pub dp_fits : r.dp < 256
  pub cc_fits : r.cc < 256
  pub e_fits : r.e < 256
  pub f_fits : r.f < 256
  pub md_fits : r.md < 256

pub record IsValid {S : Type 0} (c : Cpu S) : Type 0 where
  pub regs_fit : IsValidRegs c.regs
  pub insn_pc_fits : c.insn_pc < 65536

-- What no instruction changes.
pub record SameFrame {S : Type 0} (c d : Cpu S) : Type 0 where
  pub same_halted : d.is_halted ≡ c.is_halted
  pub same_total : d.total_cycles ≡ c.total_cycles
  pub same_irq : d.irq_line ≡ c.irq_line
  pub same_firq : d.firq_line ≡ c.firq_line
  pub same_insn_pc : d.insn_pc ≡ c.insn_pc

-- From `c`, the result satisfies `P`, and from `lo` to `hi` cycles were spent.
pub record Ran {S A : Type 0} (lo hi : ℕ) (P : A → Type 0) (c : Cpu S) (r : A × Cpu S)
    : Type 0 where
  pub valid : IsValid r.1
  pub result : P r.0
  pub least : c.cycles + lo ≤ r.1.cycles
  pub most : r.1.cycles ≤ c.cycles + hi
  pub frame : SameFrame c r.1

pub record Runs {S A : Type 0} (lo hi : ℕ) (P : A → Type 0) (m : M S A) : Type 0 where
  pub run : (c : Cpu S) → IsValid c → Ran lo hi P c (m c)

abbrev pub Lt : ℕ → ℕ → Type 0
Lt n x = x < n

abbrev pub Any : {A : Type 0} → A → Type 0
Any x = Unit {0}

SameFrame-trans : {S : Type 0} {c d e : Cpu S} → SameFrame c d → SameFrame d e → SameFrame c e
SameFrame-trans p q = record {
  same_halted = q.same_halted ∙ p.same_halted;
  same_total = q.same_total ∙ p.same_total;
  same_irq = q.same_irq ∙ p.same_irq;
  same_firq = q.same_firq ∙ p.same_firq;
  same_insn_pc = q.same_insn_pc ∙ p.same_insn_pc;
}

pub SameFrame-refl : {S : Type 0} (c : Cpu S) → SameFrame c c
SameFrame-refl c = record {
  same_halted = refl;
  same_total = refl;
  same_irq = refl;
  same_firq = refl;
  same_insn_pc = refl;
}

module _ {S A : Type 0} {P : A → Type 0} {m : M S A} where
  pub weaken : {lo hi lo' hi' : ℕ} → lo' ≤ lo → hi ≤ hi' → Runs lo hi P m → Runs lo' hi' P m
  weaken p q h = record {
    run = λ c v.
        let r = h.run c v in
        record {
          valid = r.valid;
          result = r.result;
          least = omega (arith, r.least);
          most = omega (arith, r.most);
          frame = r.frame;
        };
  }

  pub forget : {lo hi : ℕ} → Runs lo hi P m → Runs lo hi Any m
  forget h = record {
    run = λ c v.
        let r = h.run c v in
        record { valid = r.valid; result = tt; least = r.least; most = r.most; frame = r.frame };
  }

  -- Costs add up in a sequence.
  pub bind :
      {B : Type 0} {Q : B → Type 0} {k : A → M S B} {lo hi lo' hi' : ℕ}
      → Runs lo hi P m
      → ((a : A) → P a → Runs lo' hi' Q (k a))
      → Runs (lo + lo') (hi + hi') Q (m >>= k)
  unfolding ◌>>=◌
  bind h g = record {
    run = λ c v.
        let r = h.run c v in
        let t = (g (m c).0 r.result).run (m c).1 r.valid in
        record {
          valid = t.valid;
          result = t.result;
          least = omega (arith, r.least, t.least);
          most = omega (arith, r.most, t.most);
          frame = SameFrame-trans r.frame t.frame;
        };
  }

module _ {S A B : Type 0} {P : A → Type 0} {Q : B → Type 0} {m : M S A} {k : A → M S B} where
  -- The same behind a part that spends no cycles.
  pub after :
      {lo hi : ℕ} → Runs 0 0 P m → ((a : A) → P a → Runs lo hi Q (k a)) → Runs lo hi Q (m >>= k)
  after {lo} {hi} h g = weaken (omega arith) (omega arith) (bind h g)

module _ {S : Type 0} where
  -- A state change that keeps the registers valid and touches neither frame nor cycles.
  pub pure-Runs : {A : Type 0} {P : A → Type 0} (a : A) → P a → Runs {S = S} 0 0 P (pure a)
  unfolding pure
  pure-Runs a p = record {
    run = λ c v. record {
      valid = v;
      result = p;
      least = omega arith;
      most = omega arith;
      frame = SameFrame-refl c;
    };
  }

  pub gets-Runs :
      {A : Type 0} {P : A → Type 0} (get : Cpu S → A)
      → ((c : Cpu S) → IsValid c → P (get c))
      → Runs 0 0 P (gets get)
  unfolding gets
  gets-Runs get p = record {
    run = λ c v. record {
      valid = v;
      result = p c v;
      least = omega arith;
      most = omega arith;
      frame = SameFrame-refl c;
    };
  }

  pub modify_regs-Runs :
      (change : Regs → Regs)
      → ((r : Regs) → IsValidRegs r → IsValidRegs (change r))
      → Runs {S = S} 0 0 Any (modify_regs change)
  unfolding modify_regs
  modify_regs-Runs change p = record {
    run = λ c v. record {
      valid = record { regs_fit = p c.regs v.regs_fit; insn_pc_fits = v.insn_pc_fits };
      result = tt;
      least = omega arith;
      most = omega arith;
      frame = record {
        same_halted = refl;
        same_total = refl;
        same_irq = refl;
        same_firq = refl;
        same_insn_pc = refl;
      };
    };
  }

  pub add_cycles-Runs : (n : ℕ) → Runs {S = S} n n Any (add_cycles n)
  unfolding add_cycles
  add_cycles-Runs n = record {
    run = λ c v. record {
      valid = record { regs_fit = v.regs_fit; insn_pc_fits = v.insn_pc_fits };
      result = tt;
      least = omega arith;
      most = omega arith;
      frame = record {
        same_halted = refl;
        same_total = refl;
        same_irq = refl;
        same_firq = refl;
        same_insn_pc = refl;
      };
    };
  }

  pub if-Runs :
      {A : Type 0} {P : A → Type 0} {lo hi : ℕ} (b : Bool) {m n : M S A}
      → Runs lo hi P m
      → Runs lo hi P n
      → Runs lo hi P (if b then m else n)
  if-Runs true p q = p
  if-Runs false p q = q

  pub when-Runs :
      (b : Bool) {m : M S (Unit {0})} → Runs 0 0 Any m → Runs 0 0 Any (if b then m else pure tt)
  when-Runs b p = if-Runs b p (pure-Runs tt tt)

module _ {S A B : Type 0} {P : A → Type 0} {Q : B → Type 0} {m : M S A} {n : M S B} where
  -- `after`, where the rest does not depend on the value.
  infixr 5 ◌▸◌
  pub ◌▸◌ : {lo hi : ℕ} → Runs 0 0 P m → Runs lo hi Q n → Runs lo hi Q (m >>= λ _. n)
  h ▸ g = after h (λ _ _. g)

module _ {S : Type 0} where
  pub modify-Runs :
      (change : Cpu S → Cpu S)
      → ((c : Cpu S) → IsValid c → IsValid (change c))
      → ((c : Cpu S) → SameFrame c (change c))
      → ((c : Cpu S) → (change c).cycles ≡ c.cycles)
      → Runs 0 0 Any (modify change)
  unfolding modify
  modify-Runs change p q e = record {
    run = λ c v. record {
      valid = p c v;
      result = tt;
      least = omega (arith, e c);
      most = omega (arith, e c);
      frame = q c;
    };
  }
