-- ===== src/Uart/Interrupt.antt =====
-- The interrupt output of a UART.
use pugputer6309_emulator.Base.{
  ℕ, ◌≡◌, ◌⊎◌, refl, Bool, true, false, ◌||◌, ◌&&◌, List, [], ◌∷◌, arith, bit_and, ◌==◌,
}
use pugputer6309_emulator.Uart.Types.{Uart, tx_irq_enabled, rx_irq_enabled}
use pugputer6309_emulator.Uart.Control.{
  uart_read, uart_write, uart_reset, uart_tick, tick_transmit, begin_receive, shift_receive,
  rx_enqueue, tx_dequeue, pop_front, set_lines, begin_byte, start_transmit, write_command,
}
use pugputer6309_emulator.Uart.Events.{
  Event, read, write, reset, tick, enqueue, dequeue, lines, after,
}

-- A read of the status register, or a reset.
abbrev pub clears_irq : Event → Bool
clears_irq (read offset) = bit_and offset 0x3 == 1
clears_irq reset = true
clears_irq e = false

-- The transmitter is empty or the receiver is full, and its interrupt is enabled.
abbrev pub is_due : Uart → Bool
is_due u = u.tdre && tx_irq_enabled u || u.rdrf && rx_irq_enabled u

-- The flag keeps its value until it is cleared, and rises only to an interrupt that is due.
abbrev pub Latches : Event → Uart → Uart → Type 0
Latches e u v =
    (clears_irq e ≡ true → v.irq_flag ≡ false)
    × (clears_irq e ≡ false → u.irq_flag ≡ true → v.irq_flag ≡ true)
    × (v.irq_flag ≡ true → (u.irq_flag ≡ true) ⊎ (is_due v ≡ true))

-- The receiver's start changes nothing that an interrupt depends on.
abbrev SameInterrupt : Uart → Uart → Type 0
SameInterrupt u v =
    (u.irq_flag ≡ v.irq_flag) × (u.tdre ≡ v.tdre) × (u.rdrf ≡ v.rdrf) × (u.command ≡ v.command)

begin_byte-SameInterrupt : (u : Uart) (bs : List ℕ) → SameInterrupt u (begin_byte u bs)
begin_byte-SameInterrupt u [] = (refl, refl, refl, refl)
begin_byte-SameInterrupt u (b ∷ bs) = (refl, refl, refl, refl)

begin_receive-SameInterrupt : (u : Uart) → SameInterrupt u (begin_receive u)
unfolding begin_receive
begin_receive-SameInterrupt u = ground (arith, begin_byte-SameInterrupt u u.rx_pending)

pop_front-SameInterrupt : (u : Uart) (q : List ℕ) → SameInterrupt u (pop_front u q).1
pop_front-SameInterrupt u [] = (refl, refl, refl, refl)
pop_front-SameInterrupt u (b ∷ q) = (refl, refl, refl, refl)

uart_tick-Latches : (u : Uart) (n : ℕ) → Latches (tick n) u (uart_tick u n)
unfolding uart_tick tick_transmit shift_receive tx_irq_enabled rx_irq_enabled
uart_tick-Latches u n = let same = begin_receive-SameInterrupt (tick_transmit u n) in ground arith

-- A call of any kind: the interrupt flag is cleared by a read of the status register and by a
-- reset, and by nothing else; it rises only where the transmitter is empty or the receiver is full
-- with its interrupt enabled.
pub after-Latches : (u : Uart) (e : Event) → Latches e u (after u e)
unfolding uart_read uart_write uart_reset start_transmit write_command rx_enqueue tx_dequeue
    set_lines tx_irq_enabled rx_irq_enabled
after-Latches u (read offset) = ground arith
after-Latches u (write offset value) = ground arith
after-Latches u reset = ground arith
after-Latches u (tick n) = uart_tick-Latches u n
after-Latches u (enqueue b) = ground arith
after-Latches u dequeue = let same = pop_front-SameInterrupt u u.tx_queue in ground arith
after-Latches u (lines a b c) = ground arith
