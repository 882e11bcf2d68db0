-- ===== src/Cpu/Valid/Flags.antt =====
-- The flags and the ALU stay in range.
use pugputer6309_emulator.Base.{
  ℕ, ◌-◌, ◌<◌, arith, Bool, true, false, if◌then◌else◌, u8_ℤ-lt, u16_ℤ-lt,
}
use pugputer6309_emulator.Base.Bits.{bit_or-lt, bit_and-lt}
use pugputer6309_emulator.Cpu.Types.{CcBit, cc_c, cc_v, cc_z, cc_n, cc_i, cc_h, cc_f, cc_e, mask}
use pugputer6309_emulator.Cpu.Types.{
  AluOp, sub, cmp, sbc, and, bit, ld, eor, adc, or, add, RmwOp, neg, complement, lsr, ror, asr, asl,
  rol, dec, inc, tst, clr,
}
use pugputer6309_emulator.Cpu.Monad.{◌>>=◌, pure}
use pugputer6309_emulator.Cpu.Flags.{
  put_flag, set_flag, get_flag, native, set_nz8, set_nz16, test_condition,
}
use pugputer6309_emulator.Cpu.Alu.{
  add8, sub8, add16, sub16, logic8, logic16, and8, or8, eor8, and16, or16, eor16, bit8, bit16, cmp8,
  cmp16, apply_alu8, apply_alu16,
}
use pugputer6309_emulator.Cpu.Rmw.{rmw8, rmw16, do_daa}
use pugputer6309_emulator.Cpu.Valid.Spec.{
  Runs, Lt, Any, after, ◌▸◌, pure-Runs, gets-Runs, modify_regs-Runs, when-Runs,
}

pub put_flag-lt : (k : CcBit) (v : Bool) (cc : ℕ) → cc < 256 → put_flag k v cc < 256
unfolding put_flag
put_flag-lt k true cc h = bit_or-lt 8 cc (mask k) h (mask-lt k)
  where
    mask-lt : (k : CcBit) → mask k < 256
    mask-lt cc_c = omega arith
    mask-lt cc_v = omega arith
    mask-lt cc_z = omega arith
    mask-lt cc_n = omega arith
    mask-lt cc_i = omega arith
    mask-lt cc_h = omega arith
    mask-lt cc_f = omega arith
    mask-lt cc_e = omega arith
put_flag-lt k false cc h = bit_and-lt 8 cc (255 - mask k) h

module _ {S : Type 0} where
  pub set_flag-Runs : (k : CcBit) (v : Bool) → Runs {S = S} 0 0 Any (set_flag k v)
  unfolding set_flag
  set_flag-Runs k v = modify_regs-Runs _ (λ r h. omega (arith, put_flag-lt k v r.cc))

  pub get_flag-Runs : (k : CcBit) → Runs {S = S} 0 0 Any (get_flag k)
  unfolding get_flag
  get_flag-Runs k = gets-Runs _ (λ c v. tt)

  pub native-Runs : Runs {S = S} 0 0 Any native
  unfolding native
  native-Runs = gets-Runs _ (λ c v. tt)

  pub set_nz8-Runs : (v : ℕ) → Runs {S = S} 0 0 Any (set_nz8 v)
  unfolding set_nz8
  set_nz8-Runs v = set_flag-Runs cc_n _ ▸ set_flag-Runs cc_z _

  pub set_nz16-Runs : (v : ℕ) → Runs {S = S} 0 0 Any (set_nz16 v)
  unfolding set_nz16
  set_nz16-Runs v = set_flag-Runs cc_n _ ▸ set_flag-Runs cc_z _

  -- The tail of every ALU operation: flags, then the result.
  nz8_then : (r : ℕ) → r < 256 → Runs {S = S} 0 0 (Lt 256) (set_nz8 r >>= λ _. pure r)
  nz8_then r h = set_nz8-Runs r ▸ pure-Runs r h

  nz16_then : (r : ℕ) → r < 65536 → Runs {S = S} 0 0 (Lt 65536) (set_nz16 r >>= λ _. pure r)
  nz16_then r h = set_nz16-Runs r ▸ pure-Runs r h

  pub test_condition-Runs : (n : ℕ) → Runs {S = S} 0 0 Any (test_condition n)
  unfolding test_condition
  test_condition-Runs n = gets-Runs _ (λ c v. tt)

  add8-Runs : (a b : ℕ) (c h : Bool) → Runs {S = S} 0 0 (Lt 256) (add8 a b c h)
  unfolding add8
  add8-Runs a b c h =
      when-Runs h (set_flag-Runs cc_h _)
      ▸ set_flag-Runs cc_c _
      ▸ set_flag-Runs cc_v _
      ▸ nz8_then _ (omega arith)

  sub8-Runs : (a b : ℕ) (c : Bool) → Runs {S = S} 0 0 (Lt 256) (sub8 a b c)
  unfolding sub8
  sub8-Runs a b c = set_flag-Runs cc_c _ ▸ set_flag-Runs cc_v _ ▸ nz8_then _ (u8_ℤ-lt _)

  add16-Runs : (a b : ℕ) (c : Bool) → Runs {S = S} 0 0 (Lt 65536) (add16 a b c)
  unfolding add16
  add16-Runs a b c = set_flag-Runs cc_c _ ▸ set_flag-Runs cc_v _ ▸ nz16_then _ (omega arith)

  sub16-Runs : (a b : ℕ) (c : Bool) → Runs {S = S} 0 0 (Lt 65536) (sub16 a b c)
  unfolding sub16
  sub16-Runs a b c = set_flag-Runs cc_c _ ▸ set_flag-Runs cc_v _ ▸ nz16_then _ (u16_ℤ-lt _)

  logic8-Runs : (r : ℕ) → r < 256 → Runs {S = S} 0 0 (Lt 256) (logic8 r)
  unfolding logic8
  logic8-Runs r h = set_flag-Runs cc_v false ▸ nz8_then r h

  logic16-Runs : (r : ℕ) → r < 65536 → Runs {S = S} 0 0 (Lt 65536) (logic16 r)
  unfolding logic16
  logic16-Runs r h = set_flag-Runs cc_v false ▸ nz16_then r h

  cmp8-Runs : (a b : ℕ) → Runs {S = S} 0 0 Any (cmp8 a b)
  unfolding cmp8
  cmp8-Runs a b = sub8-Runs a b false ▸ pure-Runs tt tt

  pub cmp16-Runs : (a b : ℕ) → Runs {S = S} 0 0 Any (cmp16 a b)
  unfolding cmp16
  cmp16-Runs a b = sub16-Runs a b false ▸ pure-Runs tt tt

  bit8-Runs : (a b : ℕ) → Runs {S = S} 0 0 Any (bit8 a b)
  unfolding bit8
  bit8-Runs a b = logic8-Runs _ (omega arith) ▸ pure-Runs tt tt

  bit16-Runs : (a b : ℕ) → Runs {S = S} 0 0 Any (bit16 a b)
  unfolding bit16
  bit16-Runs a b = logic16-Runs _ (omega arith) ▸ pure-Runs tt tt

  pub apply_alu8-Runs :
      (op : AluOp) (reg v : ℕ)
      → reg < 256
      → v < 256
      → Runs {S = S} 0 0 (Lt 256) (apply_alu8 op reg v)
  unfolding apply_alu8 and8 or8 eor8
  apply_alu8-Runs sub reg v h k = sub8-Runs reg v false
  apply_alu8-Runs cmp reg v h k = cmp8-Runs reg v ▸ pure-Runs reg h
  apply_alu8-Runs sbc reg v h k = after (get_flag-Runs cc_c) λ c _. sub8-Runs reg v c
  apply_alu8-Runs and reg v h k = logic8-Runs _ (omega arith)
  apply_alu8-Runs bit reg v h k = bit8-Runs reg v ▸ pure-Runs reg h
  apply_alu8-Runs ld reg v h k = logic8-Runs v k
  apply_alu8-Runs eor reg v h k = logic8-Runs _ (omega arith)
  apply_alu8-Runs adc reg v h k = after (get_flag-Runs cc_c) λ c _. add8-Runs reg v c true
  apply_alu8-Runs or reg v h k = logic8-Runs _ (omega arith)
  apply_alu8-Runs add reg v h k = add8-Runs reg v false true

  pub apply_alu16-Runs :
      (op : AluOp) (reg v : ℕ)
      → reg < 65536
      → v < 65536
      → Runs {S = S} 0 0 (Lt 65536) (apply_alu16 op reg v)
  unfolding apply_alu16 and16 or16 eor16
  apply_alu16-Runs sub reg v h k = sub16-Runs reg v false
  apply_alu16-Runs cmp reg v h k = cmp16-Runs reg v ▸ pure-Runs reg h
  apply_alu16-Runs sbc reg v h k = after (get_flag-Runs cc_c) λ c _. sub16-Runs reg v c
  apply_alu16-Runs and reg v h k = logic16-Runs _ (omega arith)
  apply_alu16-Runs bit reg v h k = bit16-Runs reg v ▸ pure-Runs reg h
  apply_alu16-Runs ld reg v h k = logic16-Runs v k
  apply_alu16-Runs eor reg v h k = logic16-Runs _ (omega arith)
  apply_alu16-Runs adc reg v h k = after (get_flag-Runs cc_c) λ c _. add16-Runs reg v c
  apply_alu16-Runs or reg v h k = logic16-Runs _ (omega arith)
  apply_alu16-Runs add reg v h k = add16-Runs reg v false

  pub rmw8-Runs : (op : RmwOp) (v : ℕ) → v < 256 → Runs {S = S} 0 0 (Lt 256) (rmw8 op v)
  unfolding rmw8
  rmw8-Runs neg v h = set_flag-Runs cc_c _ ▸ set_flag-Runs cc_v _ ▸ nz8_then _ (u8_ℤ-lt _)
  rmw8-Runs complement v h = set_flag-Runs cc_c _ ▸ set_flag-Runs cc_v _ ▸ nz8_then _ (omega arith)
  rmw8-Runs lsr v h = set_flag-Runs cc_c _ ▸ nz8_then _ (omega arith)
  rmw8-Runs ror v h =
      after (get_flag-Runs cc_c)
        λ c _. set_flag-Runs cc_c _ ▸ nz8_then _ (bit_or-lt 8 _ _ (omega arith) (top_or_zero c))
    where
      top_or_zero : (c : Bool) → (if c then 0x80 else 0) < 256
      top_or_zero true = omega arith
      top_or_zero false = omega arith
  rmw8-Runs asr v h =
      set_flag-Runs cc_c _ ▸ nz8_then _ (bit_or-lt 8 _ _ (omega arith) (bit_and-lt 8 v 0x80 h))
  rmw8-Runs asl v h = set_flag-Runs cc_c _ ▸ set_flag-Runs cc_v _ ▸ nz8_then _ (omega arith)
  rmw8-Runs rol v h =
      after (get_flag-Runs cc_c)
        λ c _. set_flag-Runs cc_c _ ▸ set_flag-Runs cc_v _ ▸ nz8_then _ (omega arith)
  rmw8-Runs dec v h = set_flag-Runs cc_v _ ▸ nz8_then _ (u8_ℤ-lt _)
  rmw8-Runs inc v h = set_flag-Runs cc_v _ ▸ nz8_then _ (omega arith)
  rmw8-Runs tst v h = set_flag-Runs cc_v _ ▸ nz8_then _ h
  rmw8-Runs clr v h =
      set_flag-Runs cc_n _
      ▸ set_flag-Runs cc_z _
      ▸ set_flag-Runs cc_v _
      ▸ set_flag-Runs cc_c _
      ▸ pure-Runs 0 (omega arith)

  pub rmw16-Runs : (op : RmwOp) (v : ℕ) → v < 65536 → Runs {S = S} 0 0 (Lt 65536) (rmw16 op v)
  unfolding rmw16
  rmw16-Runs neg v h = set_flag-Runs cc_c _ ▸ set_flag-Runs cc_v _ ▸ nz16_then _ (u16_ℤ-lt _)
  rmw16-Runs complement v h =
      set_flag-Runs cc_c _ ▸ set_flag-Runs cc_v _ ▸ nz16_then _ (omega arith)
  rmw16-Runs lsr v h = set_flag-Runs cc_c _ ▸ nz16_then _ (omega arith)
  rmw16-Runs ror v h =
      after (get_flag-Runs cc_c)
        λ c _. set_flag-Runs cc_c _ ▸ nz16_then _ (bit_or-lt 16 _ _ (omega arith) (top_or_zero c))
    where
      top_or_zero : (c : Bool) → (if c then 0x8000 else 0) < 65536
      top_or_zero true = omega arith
      top_or_zero false = omega arith
  rmw16-Runs asr v h =
      set_flag-Runs cc_c _ ▸ nz16_then _ (bit_or-lt 16 _ _ (omega arith) (bit_and-lt 16 v 0x8000 h))
  rmw16-Runs asl v h = set_flag-Runs cc_c _ ▸ set_flag-Runs cc_v _ ▸ nz16_then _ (omega arith)
  rmw16-Runs rol v h =
      after (get_flag-Runs cc_c)
        λ c _. set_flag-Runs cc_c _ ▸ set_flag-Runs cc_v _ ▸ nz16_then _ (omega arith)
  rmw16-Runs dec v h = set_flag-Runs cc_v _ ▸ nz16_then _ (u16_ℤ-lt _)
  rmw16-Runs inc v h = set_flag-Runs cc_v _ ▸ nz16_then _ (omega arith)
  rmw16-Runs tst v h = set_flag-Runs cc_v _ ▸ nz16_then _ h
  rmw16-Runs clr v h =
      set_flag-Runs cc_n _
      ▸ set_flag-Runs cc_z _
      ▸ set_flag-Runs cc_v _
      ▸ set_flag-Runs cc_c _
      ▸ pure-Runs 0 (omega arith)

  pub do_daa-Runs : Runs {S = S} 0 0 Any do_daa
  unfolding do_daa
  do_daa-Runs = after {P = Any} (gets-Runs _ (λ c v. tt)) λ a _.
      after (get_flag-Runs cc_c) λ carry _.
        after (get_flag-Runs cc_h)
          λ half _. modify_regs-Runs _ (λ r h. omega arith) ▸ set_flag-Runs cc_c _ ▸ set_nz8-Runs _
