-- ===== src/Uart/Events.antt =====
-- What happens to a UART: the calls of `class UartR65C51`, one after the other.
use pugputer6309_emulator.Base.{ℕ, ◌+◌, Bool, List, [], ◌∷◌, u8}
use pugputer6309_emulator.Uart.Types.{Uart}
use pugputer6309_emulator.Uart.Control.{
  uart_read, uart_write, uart_reset, uart_tick, rx_enqueue, tx_dequeue, set_lines,
}

pub data Event : Type 0 where
  read : ℕ → Event
  write : ℕ → ℕ → Event
  reset : Event
  tick : ℕ → Event
  enqueue : ℕ → Event
  dequeue : Event
  lines : Bool → Bool → Bool → Event

-- The state after a call; bytes are passed as `uint8_t`.
abbrev pub after : Uart → Event → Uart
after u (read offset) = (uart_read u offset).1
after u (write offset value) = uart_write u offset (u8 value)
after u reset = uart_reset u
after u (tick cpu_cycles) = uart_tick u cpu_cycles
after u (enqueue byte) = (rx_enqueue u (u8 byte)).1
after u dequeue = (tx_dequeue u).1
after u (lines dsr dcd cts) = set_lines u dsr dcd cts

abbrev pub after_all : Uart → List Event → Uart
after_all u [] = u
after_all u (e ∷ es) = after_all (after u e) es

-- The CPU cycles that pass in the calls.
abbrev pub cycles_of : Event → ℕ
cycles_of (tick cpu_cycles) = cpu_cycles
cycles_of e = 0

abbrev pub elapsed : List Event → ℕ
elapsed [] = 0
elapsed (e ∷ es) = cycles_of e + elapsed es
