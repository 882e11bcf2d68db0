-- ===== src/Cpu/Monad.antt =====
-- A member function of `class CPU` is a state transformer; `do` blocks read as its statements.
use pugputer6309_emulator.Base.{ℕ, ◌+◌, Bool, if◌then◌else◌}
use pugputer6309_emulator.Cpu.Types.{Cpu, Regs}

abbrev pub M : Type 0 → Type 0 → Type 0
M S A = Cpu S → A × Cpu S

module _ {S : Type 0} where
  unfoldable pub pure : {A : Type 0} → A → M S A
  pure a c = (a, c)

  -- A member read, and an assignment to members.
  unfoldable pub gets : {A : Type 0} → (Cpu S → A) → M S A
  gets get c = (get c, c)

  unfoldable pub modify : (Cpu S → Cpu S) → M S (Unit {0})
  modify change c = (tt, change c)

  unfoldable pub modify_regs : (Regs → Regs) → M S (Unit {0})
  modify_regs change c = (tt, record c { regs = change c.regs })

  -- `cycles_ += n`
  unfoldable pub add_cycles : ℕ → M S (Unit {0})
  add_cycles n c = (tt, record c { cycles = c.cycles + n })

  -- A proof that opens `>>=` opens the statements above with it.
  infixl 5 ◌>>=◌ ◌>>◌
  unfoldable pub ◌>>=◌ : {A B : Type 0} → M S A → (A → M S B) → M S B
  unfolding pure gets modify modify_regs add_cycles
  ◌>>=◌ m k c = let (a, c') = m c in k a c'

  abbrev pub ◌>>◌ : {B : Type 0} → M S (Unit {0}) → M S B → M S B
  m >> n = m >>= λ _. n

  -- `if (test) m;`
  abbrev pub when : Bool → M S (Unit {0}) → M S (Unit {0})
  when test m = if test then m else pure tt
