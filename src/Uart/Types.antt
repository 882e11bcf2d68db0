-- ===== src/Uart/Types.antt =====
-- The state of `class UartR65C51`, and the functions of its registers.
use pugputer6309_emulator.Base.{
  ℕ, ◌+◌, ◌*◌, ◌/◌, Bool, true, false, not, ◌&&◌, List, [], ◌∷◌, ltb, ◌==◌, if◌then◌else◌, bit_test,
  bit_and, bit_or, get_or,
}

-- The clock rates are whole numbers of Hz. A count of cycles left that the source lets fall below 0
-- stays at 0 here: it is only compared with 0. `called` are the bytes that `tx_cb_` has been called
-- with, the last one at the end; `tx_cb` tells if one is set.
pub record Uart : Type 0 where
  pub command : ℕ
  pub control : ℕ
  pub irq_flag : Bool
  pub dsr_ready : Bool
  pub dcd_detected : Bool
  pub cts_clear : Bool
  pub overrun : Bool
  pub framing_error : Bool
  pub parity_error : Bool
  pub tdre : Bool
  pub rdrf : Bool
  pub rx_data : ℕ
  pub tx_active : Bool
  pub tx_shift_byte : ℕ
  pub tx_cycles_remaining : ℕ
  pub rx_pending : List ℕ
  pub rx_active : Bool
  pub rx_shift_byte : ℕ
  pub rx_cycles_remaining : ℕ
  pub uart_crystal_hz : ℕ
  pub cpu_clock_hz : ℕ
  pub tx_cb : Bool
  pub called : List ℕ
  pub tx_queue : List ℕ

-- `UartR65C51(uart_crystal_hz)`, without a callback.
abbrev pub new_uart : ℕ → Uart
new_uart hz = record {
  command = 0;
  control = 0;
  irq_flag = false;
  dsr_ready = true;
  dcd_detected = true;
  cts_clear = true;
  overrun = false;
  framing_error = false;
  parity_error = false;
  tdre = true;
  rdrf = false;
  rx_data = 0;
  tx_active = false;
  tx_shift_byte = 0;
  tx_cycles_remaining = 0;
  rx_pending = [];
  rx_active = false;
  rx_shift_byte = 0;
  rx_cycles_remaining = 0;
  uart_crystal_hz = hz;
  cpu_clock_hz = 3579545;
  tx_cb = false;
  called = [];
  tx_queue = [];
}

abbrev pub flag : Bool → ℕ → ℕ → ℕ
flag true mask s = bit_or s mask
flag false mask s = s

unfoldable pub status_register : Uart → ℕ
status_register u = flag u.parity_error 0x01 (
    flag u.framing_error 0x02 (
      flag u.overrun 0x04 (
        flag u.rdrf 0x08 (
          flag u.tdre 0x10 (
            flag (not u.dcd_detected) 0x20
              (flag (not u.dsr_ready) 0x40 (flag u.irq_flag 0x80 0)))))))

abbrev pub divisors : List ℕ
divisors =
    0 ∷ 36864 ∷ 24576 ∷ 16769 ∷ 13704 ∷ 12288 ∷ 6144 ∷ 3072 ∷ 1536 ∷ 1024 ∷ 768 ∷ 512 ∷ 384 ∷ 256
    ∷ 192 ∷ 96 ∷ []

-- `floor(hz / div + 0.5)`
abbrev pub rounded_quotient : ℕ → ℕ → ℕ
rounded_quotient a b = (2 * a + b) / (2 * b)

-- The divisor 0 is that of the external clock.
unfoldable pub baud_rate : Uart → ℕ
baud_rate u =
    let div = get_or 0 divisors (bit_and u.control 0x0f) in
    if div == 0 then 0 else rounded_quotient u.uart_crystal_hz div

abbrev pub word_lengths : List ℕ
word_lengths = 8 ∷ 7 ∷ 6 ∷ 5 ∷ []

unfoldable pub data_bits : Uart → ℕ
data_bits u = get_or 0 word_lengths (bit_and (u.control / 32) 0x3)

abbrev pub parity_enabled : Uart → Bool
parity_enabled u = bit_test u.command 0x20

-- Twice the number of stop bits.
unfoldable pub stop_halves : Uart → ℕ
stop_halves u =
    if not (bit_test u.control 0x80)
    then 2
    else (if data_bits u == 5 && not (parity_enabled u)
        then 3
        else (if data_bits u == 8 && parity_enabled u then 2 else 4))

-- Twice `bits_per_char`.
unfoldable pub halves_per_char : Uart → ℕ
halves_per_char u = 2 + 2 * data_bits u + (if parity_enabled u then 2 else 0) + stop_halves u

-- `cpu_clock_hz / baud * bits_per_char`, at least 1 and rounded. Without a baud rate the count is
-- one that the source takes for never.
unfoldable pub cycles_per_char : Uart → ℕ
cycles_per_char u =
    let baud = baud_rate u in
    if baud == 0
    then 0xffffffff
    else (if ltb (u.cpu_clock_hz * halves_per_char u) (2 * baud)
        then 1
        else rounded_quotient (u.cpu_clock_hz * halves_per_char u) (2 * baud))

unfoldable pub tx_irq_enabled : Uart → Bool
tx_irq_enabled u = bit_test u.command 0x01 && bit_and (u.command / 4) 0x3 == 1

unfoldable pub rx_irq_enabled : Uart → Bool
rx_irq_enabled u = bit_test u.command 0x01 && bit_and (u.command / 2) 0x1 == 0
