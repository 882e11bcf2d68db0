-- ===== src/Cpu/Alu.antt =====
-- The ALU primitives of hd6309_core.cpp: each computes a result and sets the flags.
use pugputer6309_emulator.Base.{
  ℕ, ◌+◌, ◌-◌, Bool, true, false, not, bit_and, bit_or, bit_xor, ltb, ◌==◌, u8, u16, sub_ℕ, is_neg,
  u8_ℤ, u16_ℤ,
}
use pugputer6309_emulator.Cpu.Types.{
  AluOp, sub, cmp, sbc, and, bit, ld, eor, adc, or, add, cc_c, cc_v, cc_h,
}
use pugputer6309_emulator.Cpu.Monad.{M, ◌>>=◌, ◌>>◌, pure, when}
use pugputer6309_emulator.Cpu.Flags.{set_flag, get_flag, set_nz8, set_nz16}

abbrev pub bool_ℕ : Bool → ℕ
bool_ℕ true = 1
bool_ℕ false = 0

-- `(~(a ^ b)) & (a ^ r) & top`, and `(a ^ b) & (a ^ r) & top`: overflow of a sum, of a difference.
-- The complement is that of a word of the width, which is all that `top` keeps of it.
abbrev pub add_overflow : ℕ → ℕ → ℕ → ℕ → ℕ → Bool
add_overflow ones top a b r = not (bit_and (bit_and (ones - bit_xor a b) (bit_xor a r)) top == 0)

abbrev pub sub_overflow : ℕ → ℕ → ℕ → ℕ → Bool
sub_overflow top a b r = not (bit_and (bit_and (bit_xor a b) (bit_xor a r)) top == 0)

module _ {S : Type 0} where
  unfoldable pub add8 : ℕ → ℕ → Bool → Bool → M S ℕ
  add8 a b carry_in affect_h = do
    let sum = a + b + bool_ℕ carry_in
    let r8 = u8 sum
    when affect_h (set_flag cc_h (ltb 0xf (bit_and a 0xf + bit_and b 0xf + bool_ℕ carry_in)))
    set_flag cc_c (ltb 0xff sum)
    set_flag cc_v (add_overflow 0xff 0x80 a b r8)
    set_nz8 r8
    pure r8

  unfoldable pub sub8 : ℕ → ℕ → Bool → M S ℕ
  sub8 a b borrow_in = do
    let diff = sub_ℕ a (b + bool_ℕ borrow_in)
    let r8 = u8_ℤ diff
    set_flag cc_c (is_neg diff)
    set_flag cc_v (sub_overflow 0x80 a b r8)
    set_nz8 r8
    pure r8

  unfoldable pub add16 : ℕ → ℕ → Bool → M S ℕ
  add16 a b carry_in = do
    let sum = a + b + bool_ℕ carry_in
    let r16 = u16 sum
    set_flag cc_c (ltb 0xffff sum)
    set_flag cc_v (add_overflow 0xffff 0x8000 a b r16)
    set_nz16 r16
    pure r16

  unfoldable pub sub16 : ℕ → ℕ → Bool → M S ℕ
  sub16 a b borrow_in = do
    let diff = sub_ℕ a (b + bool_ℕ borrow_in)
    let r16 = u16_ℤ diff
    set_flag cc_c (is_neg diff)
    set_flag cc_v (sub_overflow 0x8000 a b r16)
    set_nz16 r16
    pure r16

  -- The tail that the logical operations and the loads share.
  unfoldable pub logic8 : ℕ → M S ℕ
  logic8 r = do set_flag cc_v false; set_nz8 r; pure r

  unfoldable pub logic16 : ℕ → M S ℕ
  logic16 r = do set_flag cc_v false; set_nz16 r; pure r

  unfoldable pub and8 : ℕ → ℕ → M S ℕ
  and8 a b = logic8 (u8 (bit_and a b))

  unfoldable pub or8 : ℕ → ℕ → M S ℕ
  or8 a b = logic8 (u8 (bit_or a b))

  unfoldable pub eor8 : ℕ → ℕ → M S ℕ
  eor8 a b = logic8 (u8 (bit_xor a b))

  unfoldable pub and16 : ℕ → ℕ → M S ℕ
  and16 a b = logic16 (u16 (bit_and a b))

  unfoldable pub or16 : ℕ → ℕ → M S ℕ
  or16 a b = logic16 (u16 (bit_or a b))

  unfoldable pub eor16 : ℕ → ℕ → M S ℕ
  eor16 a b = logic16 (u16 (bit_xor a b))

  -- These set the flags only.
  unfoldable pub bit8 : ℕ → ℕ → M S (Unit {0})
  bit8 a b = do _ ← logic8 (u8 (bit_and a b)); pure tt

  unfoldable pub bit16 : ℕ → ℕ → M S (Unit {0})
  bit16 a b = do _ ← logic16 (u16 (bit_and a b)); pure tt

  unfoldable pub cmp8 : ℕ → ℕ → M S (Unit {0})
  cmp8 a b = do _ ← sub8 a b false; pure tt

  unfoldable pub cmp16 : ℕ → ℕ → M S (Unit {0})
  cmp16 a b = do _ ← sub16 a b false; pure tt

  unfoldable pub apply_alu8 : AluOp → ℕ → ℕ → M S ℕ
  apply_alu8 sub reg operand = sub8 reg operand false
  apply_alu8 cmp reg operand = do cmp8 reg operand; pure reg
  apply_alu8 sbc reg operand = do c ← get_flag cc_c; sub8 reg operand c
  apply_alu8 and reg operand = and8 reg operand
  apply_alu8 bit reg operand = do bit8 reg operand; pure reg
  apply_alu8 ld reg operand = logic8 operand
  apply_alu8 eor reg operand = eor8 reg operand
  apply_alu8 adc reg operand = do c ← get_flag cc_c; add8 reg operand c true
  apply_alu8 or reg operand = or8 reg operand
  apply_alu8 add reg operand = add8 reg operand false true

  unfoldable pub apply_alu16 : AluOp → ℕ → ℕ → M S ℕ
  apply_alu16 sub reg operand = sub16 reg operand false
  apply_alu16 cmp reg operand = do cmp16 reg operand; pure reg
  apply_alu16 sbc reg operand = do c ← get_flag cc_c; sub16 reg operand c
  apply_alu16 and reg operand = and16 reg operand
  apply_alu16 bit reg operand = do bit16 reg operand; pure reg
  apply_alu16 ld reg operand = logic16 operand
  apply_alu16 eor reg operand = eor16 reg operand
  apply_alu16 adc reg operand = do c ← get_flag cc_c; add16 reg operand c
  apply_alu16 or reg operand = or16 reg operand
  apply_alu16 add reg operand = add16 reg operand false
