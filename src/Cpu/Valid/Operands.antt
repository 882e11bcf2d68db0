-- ===== src/Cpu/Valid/Operands.antt =====
-- Every handler of the opcode tables spends from one to a bounded number of cycles.
use pugputer6309_emulator.Base.{ℕ, ◌≤◌, ◌<◌, arith, Bool, false}
use pugputer6309_emulator.Cpu.Types.{Callbacks, ReadsBytes, AluOp, RmwOp, tst, cc_v}
use pugputer6309_emulator.Cpu.Monad.{M, ◌>>=◌, add_cycles}
use pugputer6309_emulator.Cpu.Memory.{ea_direct, ea_extended}
use pugputer6309_emulator.Cpu.Registers.{Reg8, Reg16}
use pugputer6309_emulator.Cpu.Indexed.{ea_indexed}
use pugputer6309_emulator.Cpu.Interrupts.{add_cycles_by_mode}
use pugputer6309_emulator.Cpu.Handlers
use pugputer6309_emulator.Cpu.Handlers.{LogicOp}
use pugputer6309_emulator.Cpu.Valid.Spec.{
  Runs, Lt, Any, bind, after, ◌▸◌, weaken, add_cycles-Runs, when-Runs,
}
use pugputer6309_emulator.Cpu.Valid.Flags.{
  set_flag-Runs, set_nz8-Runs, set_nz16-Runs, apply_alu8-Runs, apply_alu16-Runs, cmp16-Runs,
  rmw8-Runs, rmw16-Runs,
}
use pugputer6309_emulator.Cpu.Valid.Memory.{
  read8-Runs, write8-Runs, read16-Runs, write16-Runs, fetch8-Runs, fetch16-Runs, ea_direct-Runs,
  ea_extended-Runs,
}
use pugputer6309_emulator.Cpu.Valid.Indexed.{
  get8-Runs, get16-Runs, set8-Runs, set16-Runs, ea_indexed-Runs,
}
use pugputer6309_emulator.Cpu.Valid.Interrupts.{Costs, add_cycles_by_mode-Runs}

-- One instruction.
abbrev pub Executes : {S : Type 0} → M S (Unit {0}) → Type 0
Executes m = Runs 1 200000 Any m

-- An effective address, and the two costs of a handler.
abbrev pub Addresses : {S : Type 0} → M S ℕ → Type 0
Addresses ea = Runs 0 8 (Lt 65536) ea

abbrev pub Small : ℕ → ℕ → Type 0
Small em nm = Costs 1 100 em nm

module _ {S : Type 0} where
  pub operate8-Runs :
      (reg : Reg8) (op : AluOp) (v : ℕ)
      → v < 256
      → Runs {S = S} 0 0 Any (Handlers.operate8 reg op v)
  unfolding Handlers.operate8
  operate8-Runs reg op v k =
      after (get8-Runs reg)
        λ old l. after (apply_alu8-Runs op old v l k) λ new m. set8-Runs reg new m

  pub operate16-Runs :
      (reg : Reg16) (op : AluOp) (v : ℕ)
      → v < 65536
      → Runs {S = S} 0 0 Any (Handlers.operate16 reg op v)
  unfolding Handlers.operate16
  operate16-Runs reg op v k =
      after (get16-Runs reg)
        λ old l. after (apply_alu16-Runs op old v l k) λ new m. set16-Runs reg new m

  pub flags8-Runs : (v : ℕ) → Runs {S = S} 0 0 Any (Handlers.flags8 v)
  unfolding Handlers.flags8
  flags8-Runs v = set_flag-Runs cc_v false ▸ set_nz8-Runs v

  pub flags16-Runs : (v : ℕ) → Runs {S = S} 0 0 Any (Handlers.flags16 v)
  unfolding Handlers.flags16
  flags16-Runs v = set_flag-Runs cc_v false ▸ set_nz16-Runs v

  pub load16-Runs : (reg : Reg16) (v : ℕ) → v < 65536 → Runs {S = S} 0 0 Any (Handlers.load16 reg v)
  unfolding Handlers.load16
  load16-Runs reg v k = flags16-Runs v ▸ set16-Runs reg v k

  pub compare16-Runs : (reg : Reg16) (v : ℕ) → Runs {S = S} 0 0 Any (Handlers.compare16 reg v)
  unfolding Handlers.compare16
  compare16-Runs reg v = after (get16-Runs reg) λ old _. cmp16-Runs old v

  -- The last statement of a handler.
  pub by_mode : (em nm : ℕ) → Small em nm → Runs {S = S} 1 100 Any (add_cycles_by_mode em nm)
  by_mode em nm h = add_cycles_by_mode-Runs em nm h

  pub spend : (n : ℕ) → 1 ≤ n → n ≤ 100 → Runs {S = S} 1 100 Any (add_cycles n)
  spend n h k = weaken h k (add_cycles-Runs n)

  pub short : {m : M S (Unit {0})} → Runs 1 100 Any m → Executes m
  short h = weaken (omega arith) (omega arith) h

  -- A handler that first computes an effective address.
  pub at_ea :
      {ea : M S ℕ} {k : ℕ → M S (Unit {0})}
      → Addresses ea
      → ((a : ℕ) → a < 65536 → Runs 1 100 Any (k a))
      → Executes (ea >>= k)
  at_ea h g = weaken (omega arith) (omega arith) (bind h g)

  pub rmw8_inh-Runs :
      (op : RmwOp) (reg : Reg8) (em nm : ℕ)
      → Small em nm
      → Executes {S = S} (Handlers.rmw8_inh op reg em nm)
  unfolding Handlers.rmw8_inh
  rmw8_inh-Runs op reg em nm h = short (
      after (get8-Runs reg)
        λ old k. after (rmw8-Runs op old k) λ new l. set8-Runs reg new l ▸ by_mode em nm h)

  pub rmw16_inh-Runs : (op : RmwOp) (reg : Reg16) → Executes {S = S} (Handlers.rmw16_inh op reg)
  unfolding Handlers.rmw16_inh
  rmw16_inh-Runs op reg = short (
      after (get16-Runs reg) λ old k.
        after (rmw16-Runs op old k) λ new l. set16-Runs reg new l ▸ by_mode 3 2 (omega arith))

module _ {S : Type 0} ⦃io : Callbacks S⦄ where
  pub st8_at-Runs :
      {ea : M S ℕ} (reg : Reg8) (em nm : ℕ)
      → Addresses ea
      → Small em nm
      → Executes (Handlers.st8_at ea reg em nm)
  unfolding Handlers.st8_at
  st8_at-Runs reg em nm e h =
      at_ea e
        λ at _. after (get8-Runs reg) λ v _. write8-Runs at v ▸ flags8-Runs v ▸ by_mode em nm h

  pub st16_at-Runs :
      {ea : M S ℕ} (reg : Reg16) (em nm : ℕ)
      → Addresses ea
      → Small em nm
      → Executes (Handlers.st16_at ea reg em nm)
  unfolding Handlers.st16_at
  st16_at-Runs reg em nm e h =
      at_ea e
        λ at _. after (get16-Runs reg) λ v _. write16-Runs at v ▸ flags16-Runs v ▸ by_mode em nm h

module _ {S : Type 0} ⦃io : Callbacks S⦄ (bytes : ReadsBytes io) where
  pub direct : Addresses {S = S} ea_direct
  direct = weaken (omega arith) (omega arith) (ea_direct-Runs bytes)

  pub indexed : Addresses {S = S} ea_indexed
  indexed = ea_indexed-Runs bytes

  pub extended : Addresses {S = S} ea_extended
  extended = weaken (omega arith) (omega arith) (ea_extended-Runs bytes)

  pub alu8_imm-Runs :
      (reg : Reg8) (op : AluOp) (n : ℕ)
      → 1 ≤ n
      → n ≤ 100
      → Executes {S = S} (Handlers.alu8_imm reg op n)
  unfolding Handlers.alu8_imm
  alu8_imm-Runs reg op n h k =
      short (after (fetch8-Runs bytes) λ v l. operate8-Runs reg op v l ▸ spend n h k)

  pub alu16_imm-Runs :
      (reg : Reg16) (op : AluOp) (em nm : ℕ)
      → Small em nm
      → Executes {S = S} (Handlers.alu16_imm reg op em nm)
  unfolding Handlers.alu16_imm
  alu16_imm-Runs reg op em nm h =
      short (after (fetch16-Runs bytes) λ v l. operate16-Runs reg op v l ▸ by_mode em nm h)

  pub ld16_imm-Runs :
      (reg : Reg16) (n : ℕ) → 1 ≤ n → n ≤ 100 → Executes {S = S} (Handlers.ld16_imm reg n)
  unfolding Handlers.ld16_imm
  ld16_imm-Runs reg n h k =
      short (after (fetch16-Runs bytes) λ v l. load16-Runs reg v l ▸ spend n h k)

  pub cmp16_imm-Runs :
      (reg : Reg16) (em nm : ℕ) → Small em nm → Executes {S = S} (Handlers.cmp16_imm reg em nm)
  unfolding Handlers.cmp16_imm
  cmp16_imm-Runs reg em nm h =
      short (after (fetch16-Runs bytes) λ v _. compare16-Runs reg v ▸ by_mode em nm h)

  module _ {ea : M S ℕ} (e : Addresses ea) where
    pub alu8_at-Runs :
        (reg : Reg8) (op : AluOp) (em nm : ℕ)
        → Small em nm
        → Executes (Handlers.alu8_at ea reg op em nm)
    unfolding Handlers.alu8_at
    alu8_at-Runs reg op em nm h =
        at_ea e
          λ at _. after (read8-Runs bytes at) λ v k. operate8-Runs reg op v k ▸ by_mode em nm h

    pub rmw8_at-Runs :
        (op : RmwOp) (em nm : ℕ) → Small em nm → Executes (Handlers.rmw8_at ea op em nm)
    unfolding Handlers.rmw8_at
    rmw8_at-Runs op em nm h = at_ea e λ at _.
        after (read8-Runs bytes at)
          λ v k. after (rmw8-Runs op v k) λ new _. write8-Runs at new ▸ by_mode em nm h

    pub tst_at-Runs : (em nm : ℕ) → Small em nm → Executes (Handlers.tst_at ea em nm)
    unfolding Handlers.tst_at
    tst_at-Runs em nm h =
        at_ea e λ at _. after (read8-Runs bytes at) λ v k. rmw8-Runs tst v k ▸ by_mode em nm h

    pub alu16_at-Runs :
        (reg : Reg16) (op : AluOp) (em nm : ℕ)
        → Small em nm
        → Executes (Handlers.alu16_at ea reg op em nm)
    unfolding Handlers.alu16_at
    alu16_at-Runs reg op em nm h =
        at_ea e
          λ at _. after (read16-Runs bytes at) λ v k. operate16-Runs reg op v k ▸ by_mode em nm h

    pub ld16_at-Runs :
        (reg : Reg16) (em nm : ℕ) → Small em nm → Executes (Handlers.ld16_at ea reg em nm)
    unfolding Handlers.ld16_at
    ld16_at-Runs reg em nm h =
        at_ea e λ at _. after (read16-Runs bytes at) λ v k. load16-Runs reg v k ▸ by_mode em nm h

    pub cmp16_at-Runs :
        (reg : Reg16) (em nm : ℕ) → Small em nm → Executes (Handlers.cmp16_at ea reg em nm)
    unfolding Handlers.cmp16_at
    cmp16_at-Runs reg em nm h =
        at_ea e λ at _. after (read16-Runs bytes at) λ v _. compare16-Runs reg v ▸ by_mode em nm h

    pub logicmem_at-Runs :
        (op : LogicOp) (write : Bool) (n : ℕ)
        → 1 ≤ n
        → n ≤ 100
        → Executes (Handlers.logicmem_at ea op write n)
    unfolding Handlers.logicmem_at
    logicmem_at-Runs op write n h k = after (fetch8-Runs bytes) λ bits _. at_ea e λ at _.
        after (read8-Runs bytes at)
          λ v _. when-Runs write (write8-Runs at _) ▸ flags8-Runs _ ▸ spend n h k
