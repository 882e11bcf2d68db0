-- ===== src/Cpu/Valid/Memory.antt =====
-- Memory, fetch and the stacks: bytes and addresses stay in range.
use pugputer6309_emulator.Base.{ℕ, ◌<◌, arith, negsuc, refl, add_u16-lt}
use pugputer6309_emulator.Cpu.Types.{
  Regs, Callbacks, ReadsBytes, pair16, get_d, set_d, get_w, set_w, set_q,
}
use pugputer6309_emulator.Cpu.Memory.{
  StackPointer, stack_s, stack_u, get_sp, set_sp, read8, write8, read16, write16, fetch8, fetch16,
  push8, pull8, push16, pull16, ea_direct, ea_extended, rel8, rel16,
}
use pugputer6309_emulator.Cpu.Valid.Spec.{
  IsValidRegs, Runs, Lt, Any, after, ◌▸◌, pure-Runs, gets-Runs, modify_regs-Runs,
}

pub pair16-lt : (hi lo : ℕ) → pair16 hi lo < 65536
unfolding pair16
pair16-lt hi lo = omega arith

pub get_d-lt : (r : Regs) → get_d r < 65536
unfolding get_d
get_d-lt r = pair16-lt r.a r.b

pub get_w-lt : (r : Regs) → get_w r < 65536
unfolding get_w
get_w-lt r = pair16-lt r.e r.f

pub set_d-valid : (n : ℕ) (r : Regs) → IsValidRegs r → IsValidRegs (set_d n r)
unfolding set_d
set_d-valid n r h = omega arith

pub set_w-valid : (n : ℕ) (r : Regs) → IsValidRegs r → IsValidRegs (set_w n r)
unfolding set_w
set_w-valid n r h = omega arith

pub set_q-valid : (n : ℕ) (r : Regs) → IsValidRegs r → IsValidRegs (set_q n r)
unfolding set_q
set_q-valid n r h = set_w-valid _ _ (set_d-valid _ r h)

pub get_sp-lt : (sp : StackPointer) (r : Regs) → IsValidRegs r → get_sp sp r < 65536
get_sp-lt stack_s r h = h.s_fits
get_sp-lt stack_u r h = h.u_fits

pub set_sp-valid :
    (sp : StackPointer) (n : ℕ) (r : Regs) → n < 65536 → IsValidRegs r → IsValidRegs (set_sp sp n r)
set_sp-valid stack_s n r k h = omega arith
set_sp-valid stack_u n r k h = omega arith

module _ {S : Type 0} ⦃io : Callbacks S⦄ where
  pub write8-Runs : (addr v : ℕ) → Runs {S = S} 0 0 Any (write8 addr v)
  unfolding write8
  write8-Runs addr v = record {
    run = λ c h. record {
      valid = record { regs_fit = h.regs_fit; insn_pc_fits = h.insn_pc_fits };
      result = tt;
      least = omega arith;
      most = omega arith;
      frame = record {
        same_halted = refl;
        same_total = refl;
        same_irq = refl;
        same_firq = refl;
        same_insn_pc = refl;
      };
    };
  }

  pub write16-Runs : (addr v : ℕ) → Runs {S = S} 0 0 Any (write16 addr v)
  unfolding write16
  write16-Runs addr v = write8-Runs _ _ ▸ write8-Runs _ _

  pub push8-Runs : (sp : StackPointer) (v : ℕ) → Runs {S = S} 0 0 Any (push8 sp v)
  unfolding push8
  push8-Runs sp v =
      modify_regs-Runs _ (λ r h. set_sp-valid sp _ r (add_u16-lt (get_sp sp r) (negsuc 0)) h)
      ▸ after {P = Any} (gets-Runs _ (λ c h. tt)) λ at _. write8-Runs at v

  pub push16-Runs : (sp : StackPointer) (v : ℕ) → Runs {S = S} 0 0 Any (push16 sp v)
  unfolding push16
  push16-Runs sp v = push8-Runs sp _ ▸ push8-Runs sp _

module _ {S : Type 0} ⦃io : Callbacks S⦄ (bytes : ReadsBytes io) where
  pub read8-Runs : (addr : ℕ) → Runs {S = S} 0 0 (Lt 256) (read8 addr)
  unfolding read8
  read8-Runs addr = record {
    run = λ c h. record {
      valid = record { regs_fit = h.regs_fit; insn_pc_fits = h.insn_pc_fits };
      result = bytes c.bus addr;
      least = omega arith;
      most = omega arith;
      frame = record {
        same_halted = refl;
        same_total = refl;
        same_irq = refl;
        same_firq = refl;
        same_insn_pc = refl;
      };
    };
  }

  pub read16-Runs : (addr : ℕ) → Runs {S = S} 0 0 (Lt 65536) (read16 addr)
  unfolding read16
  read16-Runs addr =
      after (read8-Runs addr) λ hi _. after (read8-Runs _) λ lo _. pure-Runs _ (pair16-lt hi lo)

  pub fetch8-Runs : Runs {S = S} 0 0 (Lt 256) fetch8
  unfolding fetch8
  fetch8-Runs =
      after {P = Any} (gets-Runs _ (λ c h. tt))
        λ at _. after (read8-Runs at) λ v k. modify_regs-Runs _ (λ r h. omega arith) ▸ pure-Runs v k

  pub fetch16-Runs : Runs {S = S} 0 0 (Lt 65536) fetch16
  unfolding fetch16
  fetch16-Runs = after fetch8-Runs λ hi _. after fetch8-Runs λ lo _. pure-Runs _ (pair16-lt hi lo)

  pub pull8-Runs : (sp : StackPointer) → Runs {S = S} 0 0 (Lt 256) (pull8 sp)
  unfolding pull8
  pull8-Runs sp = after {P = Any} (gets-Runs _ (λ c h. tt)) λ at _.
      after (read8-Runs at)
        λ v k. modify_regs-Runs _ (λ r h. set_sp-valid sp _ r (omega arith) h) ▸ pure-Runs v k

  pub pull16-Runs : (sp : StackPointer) → Runs {S = S} 0 0 (Lt 65536) (pull16 sp)
  unfolding pull16
  pull16-Runs sp =
      after (pull8-Runs sp) λ hi _. after (pull8-Runs sp) λ lo _. pure-Runs _ (pair16-lt hi lo)

  pub ea_direct-Runs : Runs {S = S} 0 0 (Lt 65536) ea_direct
  unfolding ea_direct
  ea_direct-Runs =
      after {P = Any} (gets-Runs _ (λ c h. tt))
        λ dp _. after fetch8-Runs λ lo _. pure-Runs _ (omega arith)

  pub ea_extended-Runs : Runs {S = S} 0 0 (Lt 65536) ea_extended
  unfolding ea_extended
  ea_extended-Runs = fetch16-Runs

  pub rel8-Runs : Runs {S = S} 0 0 Any rel8
  unfolding rel8
  rel8-Runs = after fetch8-Runs λ v _. pure-Runs _ tt

  pub rel16-Runs : Runs {S = S} 0 0 Any rel16
  unfolding rel16
  rel16-Runs = after fetch16-Runs λ v _. pure-Runs _ tt
