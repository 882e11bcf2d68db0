-- ===== src/Cpu/Masking.antt =====
-- Interrupt entry masks what it must: no maskable interrupt is taken twice in a row.
use Prim.Native.Nat.{max}
use pugputer6309_emulator.Base.{
  ℕ, ◌<◌, ◌≡◌, ◌≢◌, refl, ◌∙◌, arith, Bool, true, false, bit_or, if◌then◌else◌,
}
use pugputer6309_emulator.Base.Bits.{is_one, bit-lt, bit-bit_or}
use pugputer6309_emulator.Cpu.Types.{Cpu, Callbacks, cc_f, cc_i}
use pugputer6309_emulator.Cpu.Monad.{◌>>=◌}
use pugputer6309_emulator.Cpu.Flags.{has_flag, native}
use pugputer6309_emulator.Cpu.FlagBits.{has_flag-bit}
use pugputer6309_emulator.Cpu.Memory.{read8, read16}
use pugputer6309_emulator.Cpu.Interrupts.{
  set_pc, or_cc, enter_interrupt, serve_nmi, serve_firq, serve_irq, Served, nmi, firq, irq, nothing,
  pending, serve, service_interrupts, mask_both, mask_irq, add_cycles_by_mode, vec_nmi, vec_irq,
  vec_firq,
}

set_by_or : (b : ℕ) → b < 2 → is_one (max b 1) ≡ true
set_by_or b h = ground arith

has_f-or : (cc : ℕ) → has_flag cc_f (bit_or cc mask_both) ≡ true
has_f-or cc =
    rw (has_flag-bit cc_f (bit_or cc mask_both), bit-bit_or 6 cc mask_both)
      (set_by_or _ (bit-lt 6 cc))

has_i-or : (cc : ℕ) → has_flag cc_i (bit_or cc mask_both) ≡ true
has_i-or cc =
    rw (has_flag-bit cc_i (bit_or cc mask_both), bit-bit_or 4 cc mask_both)
      (set_by_or _ (bit-lt 4 cc))

has_i-or_irq : (cc : ℕ) → has_flag cc_i (bit_or cc mask_irq) ≡ true
has_i-or_irq cc =
    rw (has_flag-bit cc_i (bit_or cc mask_irq), bit-bit_or 4 cc mask_irq)
      (set_by_or _ (bit-lt 4 cc))

module _ {S : Type 0} ⦃io : Callbacks S⦄ where
  -- The flags behind an interrupt entry.
  enter_interrupt-cc :
      (vector bits : ℕ) (full : Bool) (c : Cpu S)
      → (before : ℕ) × ((enter_interrupt vector bits full c).1.cc ≡ bit_or before bits)
  unfolding enter_interrupt or_cc set_pc read16 read8 ◌>>=◌
  enter_interrupt-cc vector bits full c = (_, refl)

  serve_nmi-cc : (c : Cpu S) → (before : ℕ) × ((serve_nmi c).1.cc ≡ bit_or before mask_both)
  unfolding serve_nmi add_cycles_by_mode native ◌>>=◌
  serve_nmi-cc c = enter_interrupt-cc vec_nmi mask_both true _

  serve_irq-cc : (c : Cpu S) → (before : ℕ) × ((serve_irq c).1.cc ≡ bit_or before mask_irq)
  unfolding serve_irq add_cycles_by_mode native ◌>>=◌
  serve_irq-cc c = enter_interrupt-cc vec_irq mask_irq true _

  cycles_keep_cc :
      (b : Bool) (d : Cpu S)
      → ((if b then add_cycles_by_mode 19 21 else add_cycles_by_mode 10 8) d).1.cc ≡ d.cc
  unfolding add_cycles_by_mode native ◌>>=◌
  cycles_keep_cc true d = refl
  cycles_keep_cc false d = refl

  serve_firq-cc : (c : Cpu S) → (before : ℕ) × ((serve_firq c).1.cc ≡ bit_or before mask_both)
  unfolding serve_firq ◌>>=◌
  serve_firq-cc c =
      let (before, e) = enter_interrupt-cc vec_firq mask_both _ (record c { wait_sync = false }) in
      (before, cycles_keep_cc _ _ ∙ e)

  pending_irq : (d : Cpu S) → has_flag cc_i d.cc ≡ true → pending d ≢ irq
  unfolding pending
  pending_irq d h = ground arith

  pending_firq : (d : Cpu S) → has_flag cc_f d.cc ≡ true → pending d ≢ firq
  unfolding pending
  pending_firq d h = ground arith

  masked_both :
      (d : Cpu S) (before : ℕ)
      → d.cc ≡ bit_or before mask_both
      → (pending d ≢ firq) × (pending d ≢ irq)
  masked_both d before e =
      (pending_firq d (rw e (has_f-or before)), pending_irq d (rw e (has_i-or before)))

  serve-masks :
      (which : Served) (c : Cpu S)
      → which ≢ nothing
      → (pending (serve which c).1 ≢ irq) × (which ≢ irq → pending (serve which c).1 ≢ firq)
  unfolding serve ◌>>=◌
  serve-masks nmi c h =
      let (before, e) = serve_nmi-cc c in
      let (f, i) = masked_both (serve_nmi c).1 before e in (i, λ n. f)
  serve-masks firq c h =
      let (before, e) = serve_firq-cc c in
      let (f, i) = masked_both (serve_firq c).1 before e in (i, λ n. f)
  serve-masks irq c h =
      let (before, e) = serve_irq-cc c in
      (pending_irq (serve_irq c).1 (rw e (has_i-or_irq before)), λ n. absurd (n refl))
  serve-masks nothing c h = absurd (h refl)

  -- After an interrupt was served, IRQ is not pending, and after an NMI or a FIRQ neither is FIRQ,
  -- even where the devices still hold the lines: the entry has masked them.
  pub service_interrupts-masks :
      (c : Cpu S)
      → pending c ≢ nothing
      → (pending (service_interrupts c).1 ≢ irq)
        × (pending c ≢ irq → pending (service_interrupts c).1 ≢ firq)
  unfolding service_interrupts ◌>>=◌
  service_interrupts-masks c h = serve-masks (pending c) c h
