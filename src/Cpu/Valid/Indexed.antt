-- ===== src/Cpu/Valid/Indexed.antt =====
-- Registers by name and by code, and the indexed addressing modes.
use pugputer6309_emulator.Base.{
  ℕ, ◌≤◌, ◌<◌, arith, Bool, ℤ, negsuc, bit_and, bit_or, bit_test, add_u16, add_u16-lt, ◌==◌,
  if◌then◌else◌, nil, cons, AllCases-switch, AllEntries, AllEntries-table_at, if_both,
}
use pugputer6309_emulator.Base.Bits.{bit_or-lt}
use pugputer6309_emulator.Cpu.Types.{Regs, Callbacks, ReadsBytes, get_w}
use pugputer6309_emulator.Cpu.Monad.{gets, modify_regs}
use pugputer6309_emulator.Cpu.Registers.{
  Reg8, acc_a, acc_b, acc_e, acc_f, Reg16, reg_x, reg_y, reg_u, reg_s, reg_d, reg_w, get8, set8,
  get16, set16, reg_by_code, raw8_by_code, with_reg_by_code, get_reg_by_code, get_reg_raw8,
  set_reg_by_code,
}
use pugputer6309_emulator.Cpu.Indexed.{
  indexed_extra_cycles, idx_em, idx_nm, indir, clamp, post_step, pre_step, w_offset, w_post_inc,
  w_pre_dec, ea_by_mode, ea_by_postbyte, ea_indexed,
}
use pugputer6309_emulator.Cpu.Valid.Spec.{
  IsValidRegs, Runs, Lt, Any, bind, after, ◌▸◌, weaken, pure-Runs, gets-Runs, modify_regs-Runs,
  add_cycles-Runs, if-Runs,
}
use pugputer6309_emulator.Cpu.Valid.Flags.{native-Runs}
use pugputer6309_emulator.Cpu.Valid.Memory.{
  get_d-lt, get_w-lt, set_d-valid, set_w-valid, read16-Runs, fetch8-Runs, fetch16-Runs,
}

pub get8-lt : (reg : Reg8) (r : Regs) → IsValidRegs r → get8 reg r < 256
get8-lt acc_a r h = h.a_fits
get8-lt acc_b r h = h.b_fits
get8-lt acc_e r h = h.e_fits
get8-lt acc_f r h = h.f_fits

pub set8-valid :
    (reg : Reg8) (n : ℕ) (r : Regs) → n < 256 → IsValidRegs r → IsValidRegs (set8 reg n r)
set8-valid acc_a n r k h = omega arith
set8-valid acc_b n r k h = omega arith
set8-valid acc_e n r k h = omega arith
set8-valid acc_f n r k h = omega arith

pub get16-lt : (reg : Reg16) (r : Regs) → IsValidRegs r → get16 reg r < 65536
get16-lt reg_x r h = h.x_fits
get16-lt reg_y r h = h.y_fits
get16-lt reg_u r h = h.u_fits
get16-lt reg_s r h = h.s_fits
get16-lt reg_d r h = get_d-lt r
get16-lt reg_w r h = get_w-lt r

pub set16-valid :
    (reg : Reg16) (n : ℕ) (r : Regs) → n < 65536 → IsValidRegs r → IsValidRegs (set16 reg n r)
set16-valid reg_x n r k h = omega arith
set16-valid reg_y n r k h = omega arith
set16-valid reg_u n r k h = omega arith
set16-valid reg_s n r k h = omega arith
set16-valid reg_d n r k h = set_d-valid n r h
set16-valid reg_w n r k h = set_w-valid n r h

padded : (n : ℕ) → n < 256 → bit_or 0xff00 n < 65536
padded n h = bit_or-lt 16 0xff00 n (omega arith) (omega arith)

pub reg_by_code-lt : (code : ℕ) (r : Regs) → IsValidRegs r → reg_by_code code r < 65536
unfolding reg_by_code
reg_by_code-lt code r h =
    AllCases-switch {P = Lt 65536} (bit_and code 0xf)
      (cons (get_d-lt r) (
        cons h.x_fits (
          cons h.y_fits (
            cons h.u_fits (
              cons h.s_fits (
                cons h.pc_fits (
                  cons (get_w-lt r) (
                    cons h.v_fits (
                      cons (padded r.a h.a_fits) (
                        cons (padded r.b h.b_fits) (
                          cons (padded r.cc h.cc_fits) (
                            cons (padded r.dp h.dp_fits) (
                              cons (omega arith)
                                (cons (omega arith) (cons (padded r.e h.e_fits) nil)))))))))))))))
      (padded r.f h.f_fits)

pub raw8_by_code-lt : (code : ℕ) (r : Regs) → IsValidRegs r → raw8_by_code code r < 256
unfolding raw8_by_code
raw8_by_code-lt code r h =
    AllCases-switch {P = Lt 256} (bit_and code 0xf)
      (cons h.a_fits (cons h.b_fits (cons h.cc_fits (cons h.dp_fits (cons h.e_fits nil))))) h.f_fits

pub with_reg_by_code-valid :
    (code n : ℕ) (r : Regs) → n < 65536 → IsValidRegs r → IsValidRegs (with_reg_by_code code n r)
unfolding with_reg_by_code
with_reg_by_code-valid code n r k h =
    AllCases-switch {P = IsValidRegs} (bit_and code 0xf)
      (cons (set_d-valid n r h) (
        cons (omega arith) (
          cons (omega arith) (
            cons (omega arith) (
              cons (omega arith) (
                cons (omega arith) (
                  cons (set_w-valid n r h) (
                    cons (omega arith) (
                      cons (omega arith) (
                        cons (omega arith) (
                          cons (omega arith) (
                            cons (omega arith)
                              (cons h (cons h (cons (omega arith) nil)))))))))))))))
      (omega arith)

-- The table of extra cycles has entries from 0 to 8.
pub indexed_extra_cycles-le : (nm : Bool) (pb : ℕ) → indexed_extra_cycles nm pb ≤ 8
unfolding indexed_extra_cycles
indexed_extra_cycles-le nm pb = if_both Small (bit_and pb 0x80 == 0) (omega arith) (
    AllCases-switch {P = Small} pb
      (cons (omega arith) (
        cons (omega arith) (
          cons (omega arith) (
            cons (omega arith) (
              cons (omega arith)
                (cons (omega arith) (cons (omega arith) (cons (omega arith) nil))))))))
      (AllEntries-table_at (λ z. clamp z ≤ 8) _ (bit_and pb 0x0f) (negsuc 0) tables (omega arith)))
  where
    Small : ℕ → Type 0
    Small n = n ≤ 8

    tables :
        AllEntries
          (λ z. clamp z ≤ 8)
          (if bit_test pb 0x10 then indir else (if nm then idx_nm else idx_em))
    tables =
        if_both (AllEntries (λ z. clamp z ≤ 8)) (bit_test pb 0x10) (omega arith)
          (if_both (AllEntries (λ z. clamp z ≤ 8)) nm (omega arith) (omega arith))

module _ {S : Type 0} where
  pub get_reg_by_code-Runs : (code : ℕ) → Runs {S = S} 0 0 (Lt 65536) (get_reg_by_code code)
  unfolding get_reg_by_code
  get_reg_by_code-Runs code = gets-Runs _ (λ c h. reg_by_code-lt code c.regs h.regs_fit)

  pub get_reg_raw8-Runs : (code : ℕ) → Runs {S = S} 0 0 (Lt 256) (get_reg_raw8 code)
  unfolding get_reg_raw8
  get_reg_raw8-Runs code = gets-Runs _ (λ c h. raw8_by_code-lt code c.regs h.regs_fit)

  pub set_reg_by_code-Runs :
      (code n : ℕ) → n < 65536 → Runs {S = S} 0 0 Any (set_reg_by_code code n)
  unfolding set_reg_by_code
  set_reg_by_code-Runs code n k = modify_regs-Runs _ (λ r h. with_reg_by_code-valid code n r k h)

  pub get16-Runs : (reg : Reg16) → Runs {S = S} 0 0 (Lt 65536) (gets (λ c. get16 reg c.regs))
  get16-Runs reg = gets-Runs _ (λ c h. get16-lt reg c.regs h.regs_fit)

  pub get8-Runs : (reg : Reg8) → Runs {S = S} 0 0 (Lt 256) (gets (λ c. get8 reg c.regs))
  get8-Runs reg = gets-Runs _ (λ c h. get8-lt reg c.regs h.regs_fit)

  pub get_w-Runs : Runs {S = S} 0 0 (Lt 65536) (gets (λ c. get_w c.regs))
  get_w-Runs = gets-Runs _ (λ c h. get_w-lt c.regs)

  pub set16-Runs :
      (reg : Reg16) (n : ℕ) → n < 65536 → Runs {S = S} 0 0 Any (modify_regs (set16 reg n))
  set16-Runs reg n k = modify_regs-Runs _ (λ r h. set16-valid reg n r k h)

  pub set8-Runs : (reg : Reg8) (n : ℕ) → n < 256 → Runs {S = S} 0 0 Any (modify_regs (set8 reg n))
  set8-Runs reg n k = modify_regs-Runs _ (λ r h. set8-valid reg n r k h)

module _ {S : Type 0} ⦃io : Callbacks S⦄ (bytes : ReadsBytes io) where
  offset-Runs :
      (rp : Reg16) (off : Regs → ℤ)
      → Runs {S = S} 0 0 (Lt 65536) (gets (λ c. add_u16 (get16 rp c.regs) (off c.regs)))
  offset-Runs rp off = gets-Runs _ (λ c h. add_u16-lt _ _)

  post_step-Runs : (rp : Reg16) (n : ℕ) → Runs {S = S} 0 0 (Lt 65536) (post_step rp n)
  unfolding post_step
  post_step-Runs rp n =
      after (get16-Runs rp)
        λ addr k. modify_regs-Runs _ (λ r h. set16-valid rp _ r (omega arith) h) ▸ pure-Runs addr k

  pre_step-Runs : (rp : Reg16) (n : ℤ) → Runs {S = S} 0 0 (Lt 65536) (pre_step rp n)
  unfolding pre_step
  pre_step-Runs rp n =
      modify_regs-Runs _ (λ r h. set16-valid rp _ r (add_u16-lt _ _) h) ▸ get16-Runs rp

  w_offset-Runs : Runs {S = S} 0 0 (Lt 65536) w_offset
  unfolding w_offset
  w_offset-Runs =
      after (fetch16-Runs bytes) λ off _. after get_w-Runs λ w _. pure-Runs _ (add_u16-lt _ _)

  w_post_inc-Runs : Runs {S = S} 0 0 (Lt 65536) w_post_inc
  unfolding w_post_inc
  w_post_inc-Runs = after get_w-Runs λ v k. modify_regs-Runs _ (set_w-valid _) ▸ pure-Runs v k

  w_pre_dec-Runs : Runs {S = S} 0 0 (Lt 65536) w_pre_dec
  unfolding w_pre_dec
  w_pre_dec-Runs =
      after get_w-Runs
        λ v k. modify_regs-Runs _ (set_w-valid _) ▸ pure-Runs _ (add_u16-lt v (negsuc 1))

  pc_offset-Runs : (off : ℤ) → Runs {S = S} 0 0 (Lt 65536) (gets (λ c. add_u16 c.pc off))
  pc_offset-Runs off = gets-Runs _ (λ c h. add_u16-lt _ _)

  ea_by_mode-Runs : (rp : Reg16) (ssss : ℕ) → Runs {S = S} 0 0 (Lt 65536) (ea_by_mode rp ssss)
  unfolding ea_by_mode
  ea_by_mode-Runs rp ssss =
      AllCases-switch {P = Runs 0 0 (Lt 65536)} ssss
        (cons (post_step-Runs rp 1) (
          cons (post_step-Runs rp 2) (
            cons (pre_step-Runs rp (negsuc 0)) (
              cons (pre_step-Runs rp (negsuc 1)) (
                cons (get16-Runs rp) (
                  cons (offset-Runs rp _) (
                    cons (offset-Runs rp _) (
                      cons (offset-Runs rp _) (
                        cons (after (fetch8-Runs bytes) λ off _. offset-Runs rp _) (
                          cons (after (fetch16-Runs bytes) λ off _. offset-Runs rp _) (
                            cons (offset-Runs rp _) (
                              cons (offset-Runs rp _) (
                                cons (after (fetch8-Runs bytes) λ off _. pc_offset-Runs _) (
                                  cons (after (fetch16-Runs bytes) λ off _. pc_offset-Runs _) (
                                    cons (offset-Runs rp _)
                                      (cons (fetch16-Runs bytes) nil))))))))))))))))
        (pure-Runs 0 (omega arith))

  ea_by_postbyte-Runs : (pb : ℕ) → Runs {S = S} 0 0 (Lt 65536) (ea_by_postbyte pb)
  unfolding ea_by_postbyte
  ea_by_postbyte-Runs pb =
      AllCases-switch {P = Runs 0 0 (Lt 65536)} pb
        (cons get_w-Runs (
          cons w_offset-Runs (
            cons w_post_inc-Runs (
              cons w_pre_dec-Runs (
                cons (after get_w-Runs λ w _. read16-Runs bytes w) (
                  cons (after w_offset-Runs λ w _. read16-Runs bytes w) (
                    cons (after w_post_inc-Runs λ w _. read16-Runs bytes w)
                      (cons (after w_pre_dec-Runs λ w _. read16-Runs bytes w) nil))))))))
        (after (ea_by_mode-Runs _ _)
          λ addr k. if-Runs (bit_test pb 0x10) (read16-Runs bytes addr) (pure-Runs addr k))

  pub ea_indexed-Runs : Runs {S = S} 0 8 (Lt 65536) ea_indexed
  unfolding ea_indexed
  ea_indexed-Runs = after (fetch8-Runs bytes) λ pb _. after native-Runs λ nm _.
      weaken (omega arith) (omega (arith, indexed_extra_cycles-le nm pb)) (
        bind (add_cycles-Runs (indexed_extra_cycles nm pb))
          λ _ _. if-Runs (bit_and pb 0x80 == 0) (offset-Runs _ _) (ea_by_postbyte-Runs pb))
