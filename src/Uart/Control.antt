-- ===== src/Uart/Control.antt =====
-- The operations of `class UartR65C51`.
use pugputer6309_emulator.Base.{
  ℕ, ◌-◌, Bool, true, false, not, ◌&&◌, ◌||◌, Option, none, some, List, [], ◌∷◌, ◌++◌, leb, ◌==◌,
  if◌then◌else◌, bit_test, bit_and, u8, length,
}
use pugputer6309_emulator.Bus.Device.{IDevice}
use pugputer6309_emulator.Uart.Types.{
  Uart, status_register, cycles_per_char, tx_irq_enabled, rx_irq_enabled,
}

unfoldable pub uart_read : Uart → ℕ → ℕ × Uart
uart_read u offset =
    let reg = bit_and offset 0x3 in
    if reg == 0
    then (
      u8 u.rx_data,
      record u { rdrf = false; overrun = false; framing_error = false; parity_error = false },
    )
    else (if reg == 1
        then (u8 (status_register u), record u { irq_flag = false })
        else (if reg == 2 then (u8 u.command, u) else (u8 u.control, u)))

-- A write to the Transmit Data Register.
unfoldable pub start_transmit : Uart → ℕ → Uart
start_transmit u value = record u {
  tx_shift_byte = value;
  tx_active = true;
  tx_cycles_remaining = cycles_per_char u;
  tdre = false;
}

-- A write to the Command Register latches an interrupt whose condition holds already.
unfoldable pub write_command : Uart → ℕ → Uart
write_command u value =
    let v : Uart = record u { command = value } in
    record v { irq_flag = v.irq_flag || v.tdre && tx_irq_enabled v || v.rdrf && rx_irq_enabled v }

unfoldable pub uart_write : Uart → ℕ → ℕ → Uart
uart_write u offset value =
    let reg = bit_and offset 0x3 in
    if reg == 0
    then start_transmit u value
    else (if reg == 1
        then record u { command = bit_and u.command 0xe0; overrun = false }
        else (if reg == 2 then write_command u value else record u { control = value }))

unfoldable pub uart_reset : Uart → Uart
uart_reset u = record u {
  command = 0;
  control = 0;
  irq_flag = false;
  overrun = false;
  framing_error = false;
  parity_error = false;
  tdre = true;
  rdrf = false;
  rx_data = 0;
  tx_active = false;
  tx_cycles_remaining = 0;
  rx_active = false;
  rx_cycles_remaining = 0;
  rx_pending = [];
  tx_queue = [];
}

-- The transmitter's part of a tick.
unfoldable pub tick_transmit : Uart → ℕ → Uart
tick_transmit u cpu_cycles =
    if u.tx_active
    then (if leb u.tx_cycles_remaining cpu_cycles
        then record u {
          tx_cycles_remaining = 0;
          tx_active = false;
          tdre = true;
          called = if u.tx_cb then u.called ++ u.tx_shift_byte ∷ [] else u.called;
          tx_queue = u.tx_queue ++ u.tx_shift_byte ∷ [];
          irq_flag = u.irq_flag || tx_irq_enabled u;
        }
        else record u { tx_cycles_remaining = u.tx_cycles_remaining - cpu_cycles })
    else u

abbrev pub begin_byte : Uart → List ℕ → Uart
begin_byte u [] = u
begin_byte u (b ∷ pending) = record u {
  rx_active = true;
  rx_shift_byte = b;
  rx_pending = pending;
  rx_cycles_remaining = cycles_per_char u;
}

-- The receiver takes up a byte that waits, unless it is busy or DTR is off.
unfoldable pub begin_receive : Uart → Uart
begin_receive u =
    if not u.rx_active && bit_test u.command 0x01 then begin_byte u u.rx_pending else u

unfoldable pub shift_receive : Uart → ℕ → Uart
shift_receive u cpu_cycles =
    if u.rx_active
    then (if leb u.rx_cycles_remaining cpu_cycles
        then (if u.rdrf
            then record u { rx_cycles_remaining = 0; rx_active = false; overrun = true }
            else record u {
              rx_cycles_remaining = 0;
              rx_active = false;
              rx_data = u.rx_shift_byte;
              rdrf = true;
              irq_flag = u.irq_flag || rx_irq_enabled u;
            })
        else record u { rx_cycles_remaining = u.rx_cycles_remaining - cpu_cycles })
    else u

unfoldable pub uart_tick : Uart → ℕ → Uart
uart_tick u cpu_cycles = shift_receive (begin_receive (tick_transmit u cpu_cycles)) cpu_cycles

abbrev pub rx_limit : ℕ
rx_limit = 65536

unfoldable pub rx_enqueue : Uart → ℕ → Bool × Uart
rx_enqueue u byte =
    if leb rx_limit (length u.rx_pending)
    then (false, u)
    else (true, record u { rx_pending = u.rx_pending ++ byte ∷ [] })

abbrev pub pop_front : Uart → List ℕ → Option ℕ × Uart
pop_front u [] = (none, u)
pop_front u (b ∷ queue) = (some b, record u { tx_queue = queue })

-- `tx_dequeue(out)`, with `none` for `false`.
unfoldable pub tx_dequeue : Uart → Option ℕ × Uart
tx_dequeue u = pop_front u u.tx_queue

-- `set_dsr`, `set_dcd` and `set_cts`.
unfoldable pub set_lines : Uart → Bool → Bool → Bool → Uart
set_lines u dsr dcd cts = record u { dsr_ready = dsr; dcd_detected = dcd; cts_clear = cts }

abbrev pub uart_device : IDevice Uart
uart_device = record {
  read = uart_read;
  write = uart_write;
  reset = uart_reset;
  tick = uart_tick;
  irq_asserted = λ u. u.irq_flag;
}
