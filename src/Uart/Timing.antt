-- ===== src/Uart/Timing.antt =====
-- The time of a character.
use native.Mathlib.Nat.{mul-div-le, lt-mul-div-succ, div-lt_iff_lt-mul}
use pugputer6309_emulator.Base.{
  ℕ, zero, suc, ◌+◌, ◌*◌, ◌/◌, ◌≤◌, ◌<◌, ◌≡◌, ◌≢◌, ◌⊎◌, inl, inr, refl, arith, ltb, bit_and,
  Bool-cases,
}
use pugputer6309_emulator.Uart.Types.{Uart, baud_rate, halves_per_char, cycles_per_char}

-- Twice the cycles of the CPU in which a baud clock of 1 Hz sends a character, and twice the rate.
abbrev pub char_work : Uart → ℕ
char_work u = u.cpu_clock_hz * halves_per_char u

abbrev pub char_rate : Uart → ℕ
char_rate u = 2 * baud_rate u

-- `n` is the quotient of the two, rounded to the nearest number, or 1 if the quotient is less.
abbrev pub IsCharTime : Uart → ℕ → Type 0
IsCharTime u n =
    (char_work u < char_rate u) × (n ≡ 1)
    ⊎ (2 * char_rate u * n ≤ 2 * char_work u + char_rate u)
      × (2 * char_work u + char_rate u < 2 * char_rate u * (n + 1))

-- `n` cycles are no less than that.
abbrev pub CoversChar : Uart → ℕ → Type 0
CoversChar u n = (1 ≤ n) × (2 * char_work u + char_rate u < (n + 1) * (2 * char_rate u))

pub cycles_per_char-IsCharTime : (u : Uart) → baud_rate u ≢ 0 → IsCharTime u (cycles_per_char u)
unfolding cycles_per_char
cycles_per_char-IsCharTime u rated = elim (Bool-cases (ltb (char_work u) (char_rate u))) [
  | inl t ↦ inl (ground arith)
  | inr t ↦
      let some : 0 < 2 * char_rate u = ground arith in
      let below = mul-div-le (2 * char_work u + char_rate u) (2 * char_rate u) in
      let above = lt-mul-div-succ (2 * char_work u + char_rate u) some in
      inr (ground (arith, below, above))
]

rate_some : (a b n : ℕ) → 2 * a + b < (n + 1) * (2 * b) → 0 < 2 * b
rate_some a zero n h = omega arith
rate_some a (suc b) n h = omega arith

pub cycles_per_char-le : (u : Uart) (n : ℕ) → CoversChar u n → cycles_per_char u ≤ n
unfolding cycles_per_char
cycles_per_char-le u n (one, h) =
    let some : 0 < 2 * char_rate u = rate_some (char_work u) (char_rate u) n h in
    let below : (2 * char_work u + char_rate u) / (2 * char_rate u) < n + 1 =
      (div-lt_iff_lt-mul some).1 h in
    ground arith

pub external_time : (u : Uart) → bit_and u.control 0x0f ≡ 0 → cycles_per_char u ≡ 0xffffffff
unfolding cycles_per_char baud_rate
external_time u e = rw e refl
