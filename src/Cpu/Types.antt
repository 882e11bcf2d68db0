-- ===== src/Cpu/Types.antt =====
-- simulator/src/hd6309_types.hpp and the state of `class CPU` (hd6309_core.hpp).
-- A register is a number below 2 ^ 8 or 2 ^ 16; `Cpu.Valid` states the ranges.
use pugputer6309_emulator.Base.{ℕ, ◌*◌, ◌/◌, ◌<◌, Bool, List, bit_and, bit_or, u8, u16}

-- `enum CCBit`, with the value of each constant.
pub data CcBit : Type 0 where
  cc_c cc_v cc_z cc_n cc_i cc_h cc_f cc_e : CcBit

abbrev pub mask : CcBit → ℕ
mask cc_c = 0x01
mask cc_v = 0x02
mask cc_z = 0x04
mask cc_n = 0x08
mask cc_i = 0x10
mask cc_h = 0x20
mask cc_f = 0x40
mask cc_e = 0x80

-- `enum MDBit`
abbrev pub md_native : ℕ
md_native = 0x01

abbrev pub md_firq_native : ℕ
md_firq_native = 0x02

abbrev pub md_illegal : ℕ
md_illegal = 0x40

abbrev pub md_divzero : ℕ
md_divzero = 0x80

-- `struct Regs`
pub record Regs : Type 0 where
  pub pc : ℕ
  pub x : ℕ
  pub y : ℕ
  pub u : ℕ
  pub s : ℕ
  pub v : ℕ
  pub a : ℕ
  pub b : ℕ
  pub dp : ℕ
  pub cc : ℕ
  pub e : ℕ
  pub f : ℕ
  pub md : ℕ

-- `(hi << 8) | lo` as an unsigned 16-bit value.
unfoldable pub pair16 : ℕ → ℕ → ℕ
pair16 hi lo = u16 (bit_or (hi * 256) lo)

-- `Regs::d`, `set_d`, `w`, `set_w`, `q` and `set_q`.
unfoldable pub get_d : Regs → ℕ
get_d r = pair16 r.a r.b

unfoldable pub set_d : ℕ → Regs → Regs
set_d val r = record r { a = u8 (val / 256); b = u8 (bit_and val 0xff) }

unfoldable pub get_w : Regs → ℕ
get_w r = pair16 r.e r.f

unfoldable pub set_w : ℕ → Regs → Regs
set_w val r = record r { e = u8 (val / 256); f = u8 (bit_and val 0xff) }

unfoldable pub get_q : Regs → ℕ
get_q r = bit_or (get_d r * 65536) (get_w r)

unfoldable pub set_q : ℕ → Regs → Regs
set_q val r = set_w (u16 (bit_and val 0xffff)) (set_d (u16 (val / 65536)) r)

-- `enum class RmwOp` (`complement` is COM), `enum class AluOp`, `enum class StopReason`
pub data RmwOp : Type 0 where
  neg complement lsr ror asr asl rol dec inc tst clr : RmwOp

pub data AluOp : Type 0 where
  sub cmp sbc and bit ld eor adc or add : AluOp

pub data StopReason : Type 0 where
  cycle_budget breakpoint illegal_opcode_trap sync halted : StopReason

-- `struct Breakpoint`
pub record Breakpoint : Type 0 where
  pub id : ℕ
  pub addr : ℕ

-- The data members of `class CPU`. `bus` is what the context pointer `ctx_` points to.
pub record Cpu (S : Type 0) : Type 0 where
  pub regs : Regs
  pub open regs use *
  pub bus : S
  pub irq_line : Bool
  pub firq_line : Bool
  pub nmi_pending : Bool
  pub wait_sync : Bool
  pub is_halted : Bool
  pub cwai_pushed_pending : Bool
  pub total_cycles : ℕ
  pub stop_reason : StopReason
  pub breakpoints : List Breakpoint
  pub next_bp_id : ℕ
  pub cycles : ℕ
  pub insn_pc : ℕ

-- The callbacks `ReadFn` and `WriteFn`. A read may change the bus (a device register that clears
-- on a read), so it returns the new bus.
pub record Callbacks (S : Type 0) : Type 0 where
  pub read : S → ℕ → ℕ × S
  pub write : S → ℕ → ℕ → S

-- The result type `uint8_t` of `ReadFn`.
abbrev pub ReadsBytes : {S : Type 0} → Callbacks S → Type 0
ReadsBytes {S} io = (bus : S) (addr : ℕ) → (io.read bus addr).0 < 256
