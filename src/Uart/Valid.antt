-- ===== src/Uart/Valid.antt =====
-- The invariant of a UART.
use native.Mathlib.Nat.{le-div_iff_mul-le}
use pugputer6309_emulator.Base.{
  All, ◌++◌, ℕ, ◌+◌, ◌*◌, ◌≤◌, ◌<◌, ◌≡◌, true, false, not, List, [], ◌∷◌, arith, length,
  length-append, u8,
}
use pugputer6309_emulator.Base.Bits.{bit_and-lt}
use pugputer6309_emulator.Uart.Types.{Uart, cycles_per_char, rounded_quotient, new_uart}
use pugputer6309_emulator.Uart.Control.{
  uart_read, uart_write, uart_reset, uart_tick, tick_transmit, begin_receive, shift_receive,
  rx_enqueue, tx_dequeue, pop_front, set_lines, begin_byte, start_transmit, write_command,
}
use pugputer6309_emulator.Uart.Events.{
  Event, read, write, reset, tick, enqueue, dequeue, lines, after, after_all,
}

rounded_quotient_pos : (a b : ℕ) → 0 < b → b ≤ a → 0 < rounded_quotient a b
rounded_quotient_pos a b p h =
    let twice : 0 < 2 * b = omega arith in
    let fits : 1 * (2 * b) ≤ 2 * a + b = omega arith in (le-div_iff_mul-le twice).1 fits

pub cycles_per_char_pos : (u : Uart) → 0 < cycles_per_char u
unfolding cycles_per_char
cycles_per_char_pos u = ground (arith, rounded_quotient_pos _ _)

-- The transmitter is busy exactly while its data register is full; a character in progress has
-- cycles left; the bytes that wait are within the limit; the registers, the two shift registers and
-- what waits are bytes.
pub record IsValid (u : Uart) : Type 0 where
  pub busy : u.tx_active ≡ not u.tdre
  pub tx_left : u.tx_active ≡ true → 0 < u.tx_cycles_remaining
  pub rx_left : u.rx_active ≡ true → 0 < u.rx_cycles_remaining
  pub waiting : length u.rx_pending ≤ 65536
  pub command_fits : u.command < 256
  pub control_fits : u.control < 256
  pub rx_data_fits : u.rx_data < 256
  pub tx_shift_fits : u.tx_shift_byte < 256
  pub rx_shift_fits : u.rx_shift_byte < 256
  pub pending_fit : All (λ b. b < 256) u.rx_pending
  pub no_framing : u.framing_error ≡ false
  pub no_parity : u.parity_error ≡ false

tick_transmit-IsValid : (u : Uart) (n : ℕ) → IsValid u → IsValid (tick_transmit u n)
unfolding tick_transmit
tick_transmit-IsValid u n v = ground arith

begin_byte-IsValid :
    (u : Uart) (bs : List ℕ)
    → length bs ≤ 65536
    → All (λ b. b < 256) bs
    → IsValid u
    → IsValid (begin_byte u bs)
begin_byte-IsValid u [] h k v = v
begin_byte-IsValid u (b ∷ bs) h k v = ground (arith, cycles_per_char_pos u)

begin_receive-IsValid : (u : Uart) → IsValid u → IsValid (begin_receive u)
unfolding begin_receive
begin_receive-IsValid u v = ground (arith, begin_byte-IsValid u u.rx_pending)

shift_receive-IsValid : (u : Uart) (n : ℕ) → IsValid u → IsValid (shift_receive u n)
unfolding shift_receive
shift_receive-IsValid u n v = ground arith

uart_tick-IsValid : (u : Uart) (n : ℕ) → IsValid u → IsValid (uart_tick u n)
unfolding uart_tick
uart_tick-IsValid u n v =
    shift_receive-IsValid _ n (begin_receive-IsValid _ (tick_transmit-IsValid u n v))

pop_front-IsValid : (u : Uart) (q : List ℕ) → IsValid u → IsValid (pop_front u q).1
pop_front-IsValid u [] v = v
pop_front-IsValid u (b ∷ q) v = ground arith

uart_write-IsValid :
    (u : Uart) (offset value : ℕ) → IsValid u → IsValid (uart_write u offset (u8 value))
unfolding uart_write start_transmit write_command
uart_write-IsValid u offset value v =
    ground (arith, cycles_per_char_pos u, bit_and-lt 8 u.command 0xe0)

pending-append :
    (bs : List ℕ) (b : ℕ) → All (λ c. c < 256) bs → b < 256 → All (λ c. c < 256) (bs ++ b ∷ [])
pending-append [] b h l = (l, tt)
pending-append (c ∷ bs) b h l = (h.0, pending-append bs b h.1 l)

after-IsValid : (u : Uart) (e : Event) → IsValid u → IsValid (after u e)
unfolding uart_read uart_reset rx_enqueue tx_dequeue set_lines
after-IsValid u (read offset) v = ground arith
after-IsValid u (write offset value) v = uart_write-IsValid u offset value v
after-IsValid u reset v = ground arith
after-IsValid u (tick n) v = uart_tick-IsValid u n v
after-IsValid u (enqueue b) v =
    ground (arith, length-append u.rx_pending (u8 b ∷ []), pending-append u.rx_pending (u8 b))
after-IsValid u dequeue v = pop_front-IsValid u u.tx_queue v
after-IsValid u (lines a b c) v = ground arith

after_all-keeps : (u : Uart) (es : List Event) → IsValid u → IsValid (after_all u es)
after_all-keeps u [] v = v
after_all-keeps u (e ∷ es) v = after_all-keeps (after u e) es (after-IsValid u e v)

-- After any sequence of calls on a new UART the invariant holds: the transmitter is busy exactly
-- while the transmit data register is full, a character in progress has cycles left, at most 65536
-- bytes wait, the four registers, the two shift registers and the bytes that wait are bytes, and
-- there are no framing or parity errors.
pub after_all-IsValid : (hz : ℕ) (es : List Event) → IsValid (after_all (new_uart hz) es)
after_all-IsValid hz es = after_all-keeps (new_uart hz) es (ground arith)
