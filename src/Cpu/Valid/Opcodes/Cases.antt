-- ===== src/Cpu/Valid/Opcodes/Cases.antt =====
-- The two ways in which a case of a `switch` ends, and lists of cases.
use pugputer6309_emulator.Base.{ℕ, arith, List, ◌∷◌, AllCases, cons}
use pugputer6309_emulator.Cpu.Types.{Callbacks, ReadsBytes}
use pugputer6309_emulator.Cpu.Monad.{M, ◌>>=◌}
use pugputer6309_emulator.Cpu.Interrupts.{illegal_opcode_trap}
use pugputer6309_emulator.Cpu.Valid.Spec.{Runs, Lt, after, weaken}
use pugputer6309_emulator.Cpu.Valid.Interrupts.{illegal_opcode_trap-Runs}
use pugputer6309_emulator.Cpu.Valid.Operands.{Executes}

module _ {S : Type 0} where
  infixr 4 ◌⊳◌
  pub ◌⊳◌ :
      {n : ℕ} {body : M S (Unit {0})} {cases : List (ℕ × M S (Unit {0}))}
      → Executes body
      → AllCases Executes cases
      → AllCases Executes ((n, body) ∷ cases)
  p ⊳ ps = cons p ps

  pub fetched :
      {m : M S ℕ} {k : ℕ → M S (Unit {0})}
      → Runs 0 0 (Lt 256) m
      → ((opcode : ℕ) → Executes (k opcode))
      → Executes (m >>= k)
  fetched h g = after h (λ opcode _. g opcode)

module _ {S : Type 0} ⦃io : Callbacks S⦄ (bytes : ReadsBytes io) where
  pub default : Executes {S = S} illegal_opcode_trap
  default = weaken (omega arith) (omega arith) (illegal_opcode_trap-Runs bytes)
