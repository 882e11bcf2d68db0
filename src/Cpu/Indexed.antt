-- ===== src/Cpu/Indexed.antt =====
-- `ea_indexed`, `indexed_extra_cycles` and `rlist_extra_cycles` of hd6309_core.cpp.
use pugputer6309_emulator.Base.{
  ℕ, zero, suc, ◌+◌, ◌-◌, ◌/◌, ◌^◌, Bool, bit_and, bit_test, leb, ◌==◌, if◌then◌else◌, switch,
  table_at, List, ◌∷◌, [], ℤ, pos, negsuc, u16, add_u16, i8, i16,
}
use pugputer6309_emulator.Cpu.Types.{Callbacks, Regs, get_w, set_w, get_d}
use pugputer6309_emulator.Cpu.Monad.{M, ◌>>=◌, ◌>>◌, pure, gets, modify_regs, add_cycles}
use pugputer6309_emulator.Cpu.Flags.{native}
use pugputer6309_emulator.Cpu.Registers.{Reg16, reg_x, reg_y, reg_u, reg_s, get16, set16}
use pugputer6309_emulator.Cpu.Memory.{read16, fetch8, fetch16}

-- `idx_em`, `idx_nm`, and `indir_em`, which is `indir_nm` too.
abbrev pub idx_em : List ℤ
idx_em =
    pos 2
    ∷ pos 3
    ∷ pos 2
    ∷ pos 3
    ∷ pos 0
    ∷ pos 1
    ∷ pos 1
    ∷ pos 1
    ∷ pos 1
    ∷ pos 4
    ∷ pos 1
    ∷ pos 4
    ∷ pos 1
    ∷ pos 5
    ∷ pos 4
    ∷ negsuc 0
    ∷ []

abbrev pub idx_nm : List ℤ
idx_nm =
    pos 1
    ∷ pos 2
    ∷ pos 1
    ∷ pos 2
    ∷ pos 0
    ∷ pos 1
    ∷ pos 1
    ∷ pos 1
    ∷ pos 1
    ∷ pos 3
    ∷ pos 1
    ∷ pos 2
    ∷ pos 1
    ∷ pos 3
    ∷ pos 1
    ∷ negsuc 0
    ∷ []

abbrev pub indir : List ℤ
indir =
    negsuc 0
    ∷ pos 6
    ∷ negsuc 0
    ∷ pos 6
    ∷ pos 3
    ∷ pos 4
    ∷ pos 4
    ∷ pos 1
    ∷ pos 4
    ∷ pos 7
    ∷ pos 1
    ∷ pos 4
    ∷ pos 4
    ∷ pos 8
    ∷ pos 4
    ∷ pos 5
    ∷ []

abbrev pub clamp : ℤ → ℕ
clamp (pos n) = n
clamp (negsuc n) = 0

-- `nm` is `native()`.
unfoldable pub indexed_extra_cycles : Bool → ℕ → ℕ
unfolding switch table_at
indexed_extra_cycles nm pb =
    if bit_and pb 0x80 == 0
    then 1
    else switch pb
        ((0x8f, 0)
          ∷ (0xaf, 2)
          ∷ (0xcf, 1)
          ∷ (0xef, 1)
          ∷ (0x90, 3)
          ∷ (0xb0, 5)
          ∷ (0xd0, 4)
          ∷ (0xf0, 4)
          ∷ [])
        (clamp (
          table_at (if bit_test pb 0x10 then indir else (if nm then idx_nm else idx_em))
            (bit_and pb 0x0f) (negsuc 0)))

rlist_from : ℕ → ℕ → ℕ → ℕ
rlist_from zero i pb = 0
rlist_from (suc left) i pb =
    (if bit_test pb (2 ^ i) then (if leb i 3 then 1 else 2) else 0) + rlist_from left (i + 1) pb

-- The loop over the eight bits of a register list.
unfoldable pub rlist_extra_cycles : ℕ → ℕ
unfolding rlist_from
rlist_extra_cycles pb = rlist_from 8 0 pb

-- `regs4[(pb >> 5) & 3]`
unfoldable pub index_reg : ℕ → Reg16
unfolding switch
index_reg pb = switch (bit_and (pb / 32) 3) ((0, reg_x) ∷ (1, reg_y) ∷ (2, reg_u) ∷ []) reg_s

-- `off5`, a five-bit offset with its sign.
abbrev pub off5 : ℕ → ℤ
off5 pb = let n = bit_and pb 0x1f in if bit_test n 0x10 then negsuc (31 - n) else pos n

module _ {S : Type 0} ⦃io : Callbacks S⦄ where
  -- `*rp`, and the register plus a signed offset.
  abbrev base_reg : Reg16 → M S ℕ
  base_reg rp = gets (λ c. get16 rp c.regs)

  abbrev offset_by : Reg16 → (Regs → ℤ) → M S ℕ
  offset_by rp off = gets (λ c. add_u16 (get16 rp c.regs) (off c.regs))

  -- `*rp += n` after, or before, its value is taken; n is -1 or -2 in the second.
  unfoldable pub post_step : Reg16 → ℕ → M S ℕ
  post_step rp n = do
    addr ← base_reg rp
    modify_regs (λ r. set16 rp (u16 (get16 rp r + n)) r)
    pure addr

  unfoldable pub pre_step : Reg16 → ℤ → M S ℕ
  pre_step rp n = do modify_regs (λ r. set16 rp (add_u16 (get16 rp r) n) r); base_reg rp

  -- The postbytes that index by W.
  unfoldable pub w_offset : M S ℕ
  w_offset = do off ← fetch16; w ← gets (λ c. get_w c.regs); pure (add_u16 w (i16 off))

  unfoldable pub w_post_inc : M S ℕ
  w_post_inc = do v ← gets (λ c. get_w c.regs); modify_regs (set_w (u16 (v + 2))); pure v

  unfoldable pub w_pre_dec : M S ℕ
  w_pre_dec = do
    w ← gets (λ c. get_w c.regs)
    let v = add_u16 w (negsuc 1)
    modify_regs (set_w v)
    pure v

  -- The second `switch`, over the low four bits, on the register `rp`.
  unfoldable pub ea_by_mode : Reg16 → ℕ → M S ℕ
  unfolding switch
  ea_by_mode rp ssss =
      switch ssss
        ((0x0, post_step rp 1)
          ∷ (0x1, post_step rp 2)
          ∷ (0x2, pre_step rp (negsuc 0))
          ∷ (0x3, pre_step rp (negsuc 1))
          ∷ (0x4, base_reg rp)
          ∷ (0x5, offset_by rp (λ r. i8 r.b))
          ∷ (0x6, offset_by rp (λ r. i8 r.a))
          ∷ (0x7, offset_by rp (λ r. i8 r.e))
          ∷ (0x8, (do off ← fetch8; offset_by rp (λ r. i8 off)))
          ∷ (0x9, (do off ← fetch16; offset_by rp (λ r. i16 off)))
          ∷ (0xa, offset_by rp (λ r. i8 r.f))
          ∷ (0xb, offset_by rp (λ r. i16 (get_d r)))
          ∷ (0xc, (do off ← fetch8; gets (λ c. add_u16 c.pc (i8 off))))
          ∷ (0xd, (do off ← fetch16; gets (λ c. add_u16 c.pc (i16 off))))
          ∷ (0xe, offset_by rp (λ r. i16 (get_w r)))
          ∷ (0xf, fetch16)
          ∷ [])
        (pure 0)

  unfoldable pub ea_by_postbyte : ℕ → M S ℕ
  unfolding switch
  ea_by_postbyte pb =
      switch pb
        ((0x8f, gets (λ c. get_w c.regs))
          ∷ (0xaf, w_offset)
          ∷ (0xcf, w_post_inc)
          ∷ (0xef, w_pre_dec)
          ∷ (0x90, (do w ← gets (λ c. get_w c.regs); read16 w))
          ∷ (0xb0, (do w ← w_offset; read16 w))
          ∷ (0xd0, (do w ← w_post_inc; read16 w))
          ∷ (0xf0, (do w ← w_pre_dec; read16 w))
          ∷ [])
        (do
          addr ← ea_by_mode (index_reg pb) (bit_and pb 0x0f)
          if bit_test pb 0x10 then read16 addr else pure addr)

  unfoldable pub ea_indexed : M S ℕ
  ea_indexed = do
    pb ← fetch8
    nm ← native
    add_cycles (indexed_extra_cycles nm pb)
    if bit_and pb 0x80 == 0 then offset_by (index_reg pb) (λ r. off5 pb) else ea_by_postbyte pb
