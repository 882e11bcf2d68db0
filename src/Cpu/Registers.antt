-- ===== src/Cpu/Registers.antt =====
-- Registers as the operands of instructions: by name, and by the codes 0 to 15 of TFR, EXG, TFM
-- and the register-to-register operations.
use pugputer6309_emulator.Base.{ℕ, Bool, bit_and, bit_or, leb, switch, ◌∷◌, [], u8}
use pugputer6309_emulator.Cpu.Types.{Regs, get_d, set_d, get_w, set_w}
use pugputer6309_emulator.Cpu.Monad.{M, gets, modify_regs}

-- The lvalues that the macros of hd6309_opcodes.cpp are applied to.
pub data Reg8 : Type 0 where
  acc_a acc_b acc_e acc_f : Reg8

pub data Reg16 : Type 0 where
  reg_x reg_y reg_u reg_s reg_d reg_w : Reg16

abbrev pub get8 : Reg8 → Regs → ℕ
get8 acc_a r = r.a
get8 acc_b r = r.b
get8 acc_e r = r.e
get8 acc_f r = r.f

abbrev pub set8 : Reg8 → ℕ → Regs → Regs
set8 acc_a n r = record r { a = n }
set8 acc_b n r = record r { b = n }
set8 acc_e n r = record r { e = n }
set8 acc_f n r = record r { f = n }

abbrev pub get16 : Reg16 → Regs → ℕ
get16 reg_x r = r.x
get16 reg_y r = r.y
get16 reg_u r = r.u
get16 reg_s r = r.s
get16 reg_d r = get_d r
get16 reg_w r = get_w r

abbrev pub set16 : Reg16 → ℕ → Regs → Regs
set16 reg_x n r = record r { x = n }
set16 reg_y n r = record r { y = n }
set16 reg_u n r = record r { u = n }
set16 reg_s n r = record r { s = n }
set16 reg_d n r = set_d n r
set16 reg_w n r = set_w n r

-- 0=D 1=X 2=Y 3=U 4=S 5=PC 6=W 7=V 8=A 9=B 10=CC 11=DP 12/13=unused 14=E 15=F
unfoldable pub reg_code_is_16bit : ℕ → Bool
reg_code_is_16bit code = leb code 7

-- An 8-bit register reads as $FFxx.
unfoldable pub reg_by_code : ℕ → Regs → ℕ
unfolding switch
reg_by_code code r =
    switch (bit_and code 0xf)
      ((0, get_d r)
        ∷ (1, r.x)
        ∷ (2, r.y)
        ∷ (3, r.u)
        ∷ (4, r.s)
        ∷ (5, r.pc)
        ∷ (6, get_w r)
        ∷ (7, r.v)
        ∷ (8, bit_or 0xff00 r.a)
        ∷ (9, bit_or 0xff00 r.b)
        ∷ (10, bit_or 0xff00 r.cc)
        ∷ (11, bit_or 0xff00 r.dp)
        ∷ (12, 0xffff)
        ∷ (13, 0xffff)
        ∷ (14, bit_or 0xff00 r.e)
        ∷ [])
      (bit_or 0xff00 r.f)

unfoldable pub raw8_by_code : ℕ → Regs → ℕ
unfolding switch
raw8_by_code code r =
    switch (bit_and code 0xf) ((8, r.a) ∷ (9, r.b) ∷ (10, r.cc) ∷ (11, r.dp) ∷ (14, r.e) ∷ []) r.f

unfoldable pub with_reg_by_code : ℕ → ℕ → Regs → Regs
unfolding switch
with_reg_by_code code n r =
    switch (bit_and code 0xf)
      ((0, set_d n r)
        ∷ (1, record r { x = n })
        ∷ (2, record r { y = n })
        ∷ (3, record r { u = n })
        ∷ (4, record r { s = n })
        ∷ (5, record r { pc = n })
        ∷ (6, set_w n r)
        ∷ (7, record r { v = n })
        ∷ (8, record r { a = u8 n })
        ∷ (9, record r { b = u8 n })
        ∷ (10, record r { cc = u8 n })
        ∷ (11, record r { dp = u8 n })
        ∷ (12, r)
        ∷ (13, r)
        ∷ (14, record r { e = u8 n })
        ∷ [])
      (record r { f = u8 n })

module _ {S : Type 0} where
  unfoldable pub get_reg_by_code : ℕ → M S ℕ
  get_reg_by_code code = gets (λ c. reg_by_code code c.regs)

  unfoldable pub get_reg_raw8 : ℕ → M S ℕ
  get_reg_raw8 code = gets (λ c. raw8_by_code code c.regs)

  unfoldable pub set_reg_by_code : ℕ → ℕ → M S (Unit {0})
  set_reg_by_code code n = modify_regs (with_reg_by_code code n)
