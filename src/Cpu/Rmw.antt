-- ===== src/Cpu/Rmw.antt =====
-- `rmw8`, `rmw16` and `do_daa` of hd6309_core.cpp. `~v` on a word of width w is 2 ^ w - 1 - v.
use pugputer6309_emulator.Base.{
  ℕ, ◌+◌, ◌-◌, ◌*◌, ◌/◌, true, false, not, xor, ◌&&◌, ◌||◌, bit_and, bit_or, bit_test, ltb, leb,
  ◌==◌, if◌then◌else◌, u8, u16, sub_ℕ, u8_ℤ, u16_ℤ,
}
use pugputer6309_emulator.Cpu.Types.{
  RmwOp, neg, complement, lsr, ror, asr, asl, rol, dec, inc, tst, clr, cc_c, cc_v, cc_z, cc_n, cc_h,
}
use pugputer6309_emulator.Cpu.Monad.{M, ◌>>=◌, ◌>>◌, pure, gets, modify_regs}
use pugputer6309_emulator.Cpu.Flags.{set_flag, get_flag, set_nz8, set_nz16}

module _ {S : Type 0} where
  unfoldable pub rmw8 : RmwOp → ℕ → M S ℕ
  rmw8 neg v = do
    let r = u8_ℤ (sub_ℕ 0 v)
    set_flag cc_c (not (v == 0))
    set_flag cc_v (v == 0x80)
    set_nz8 r
    pure r
  rmw8 complement v = do
    let r = 0xff - v
    set_flag cc_c true
    set_flag cc_v false
    set_nz8 r
    pure r
  rmw8 lsr v = do let r = v / 2; set_flag cc_c (bit_test v 1); set_nz8 r; pure r
  rmw8 ror v = do
    oldc ← get_flag cc_c
    let r = bit_or (v / 2) (if oldc then 0x80 else 0)
    set_flag cc_c (bit_test v 1)
    set_nz8 r
    pure r
  rmw8 asr v = do
    let r = bit_or (v / 2) (bit_and v 0x80)
    set_flag cc_c (bit_test v 1)
    set_nz8 r
    pure r
  rmw8 asl v = do
    let r = u8 (v * 2)
    set_flag cc_c (bit_test v 0x80)
    set_flag cc_v (xor (bit_test v 0x80) (bit_test v 0x40))
    set_nz8 r
    pure r
  rmw8 rol v = do
    oldc ← get_flag cc_c
    let r = u8 (bit_or (v * 2) (if oldc then 1 else 0))
    set_flag cc_c (bit_test v 0x80)
    set_flag cc_v (xor (bit_test v 0x80) (bit_test v 0x40))
    set_nz8 r
    pure r
  rmw8 dec v = do let r = u8_ℤ (sub_ℕ v 1); set_flag cc_v (v == 0x80); set_nz8 r; pure r
  rmw8 inc v = do let r = u8 (v + 1); set_flag cc_v (v == 0x7f); set_nz8 r; pure r
  rmw8 tst v = do set_flag cc_v false; set_nz8 v; pure v
  rmw8 clr v = do
    set_flag cc_n false
    set_flag cc_z true
    set_flag cc_v false
    set_flag cc_c false
    pure 0

  unfoldable pub rmw16 : RmwOp → ℕ → M S ℕ
  rmw16 neg v = do
    let r = u16_ℤ (sub_ℕ 0 v)
    set_flag cc_c (not (v == 0))
    set_flag cc_v (v == 0x8000)
    set_nz16 r
    pure r
  rmw16 complement v = do
    let r = 0xffff - v
    set_flag cc_c true
    set_flag cc_v false
    set_nz16 r
    pure r
  rmw16 lsr v = do let r = v / 2; set_flag cc_c (bit_test v 1); set_nz16 r; pure r
  rmw16 ror v = do
    oldc ← get_flag cc_c
    let r = bit_or (v / 2) (if oldc then 0x8000 else 0)
    set_flag cc_c (bit_test v 1)
    set_nz16 r
    pure r
  rmw16 asr v = do
    let r = bit_or (v / 2) (bit_and v 0x8000)
    set_flag cc_c (bit_test v 1)
    set_nz16 r
    pure r
  rmw16 asl v = do
    let r = u16 (v * 2)
    set_flag cc_c (bit_test v 0x8000)
    set_flag cc_v (xor (bit_test v 0x8000) (bit_test v 0x4000))
    set_nz16 r
    pure r
  rmw16 rol v = do
    oldc ← get_flag cc_c
    let r = u16 (bit_or (v * 2) (if oldc then 1 else 0))
    set_flag cc_c (bit_test v 0x8000)
    set_flag cc_v (xor (bit_test v 0x8000) (bit_test v 0x4000))
    set_nz16 r
    pure r
  rmw16 dec v = do let r = u16_ℤ (sub_ℕ v 1); set_flag cc_v (v == 0x8000); set_nz16 r; pure r
  rmw16 inc v = do let r = u16 (v + 1); set_flag cc_v (v == 0x7fff); set_nz16 r; pure r
  rmw16 tst v = do set_flag cc_v false; set_nz16 v; pure v
  rmw16 clr v = do
    set_flag cc_n false
    set_flag cc_z true
    set_flag cc_v false
    set_flag cc_c false
    pure 0

  unfoldable pub do_daa : M S (Unit {0})
  do_daa = do
    a ← gets (λ c. c.a)
    let lo = bit_and a 0x0f
    let hi = u8 (bit_and (a / 16) 0x0f)
    carry ← get_flag cc_c
    half ← get_flag cc_h
    let low = half || ltb 9 lo
    let high = carry || ltb 9 hi || (leb 9 hi && ltb 9 lo)
    let low_correction = if low then 0x06 else 0
    let correction = if high then bit_or low_correction 0x60 else low_correction
    let carry_out = if high then true else carry
    let result = a + correction
    modify_regs (λ r. record r { a = u8 result })
    set_flag cc_c carry_out
    set_nz8 (u8 result)
