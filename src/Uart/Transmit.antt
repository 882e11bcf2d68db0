-- ===== src/Uart/Transmit.antt =====
-- A byte on its way through the transmitter.
use mathlib.Core.Path.{subst}
use pugputer6309_emulator.Base.{
  ◌≢◌, ℕ, ◌+◌, ◌-◌, ◌≤◌, ◌<◌, ◌≡◌, refl, Bool, true, false, not, ◌&&◌, List, [], ◌∷◌, ◌++◌, arith,
  leb, bit_and, ◌==◌, if◌then◌else◌, All, Bool-cases, inl, inr, leb→le,
}
use pugputer6309_emulator.Uart.Types.{Uart, cycles_per_char, baud_rate}
use pugputer6309_emulator.Uart.Control.{
  uart_read, uart_write, uart_tick, tick_transmit, begin_receive, shift_receive, rx_enqueue,
  set_lines, begin_byte, start_transmit, write_command,
}
use pugputer6309_emulator.Uart.Events.{
  Event, read, write, reset, tick, enqueue, dequeue, lines, after, after_all, cycles_of, elapsed,
}
use pugputer6309_emulator.Uart.Timing.{IsCharTime, cycles_per_char-IsCharTime, external_time}
use pugputer6309_emulator.Uart.Valid.{cycles_per_char_pos}

-- Any call but another byte to send, a reset, or the host's taking of a byte that was sent.
abbrev pub lets_send : Event → Bool
lets_send (write offset value) = not (bit_and offset 0x3 == 0)
lets_send reset = false
lets_send dequeue = false
lets_send e = true

-- `w` is sending `byte`, with `left` cycles to go, and has sent what `u` had sent.
record Sends (u : Uart) (byte left : ℕ) (w : Uart) : Type 0 where
  active : w.tx_active ≡ true
  full : w.tdre ≡ false
  shifted : w.tx_shift_byte ≡ byte
  remaining : w.tx_cycles_remaining ≡ left
  some_left : 0 < left
  queue : w.tx_queue ≡ u.tx_queue
  calls : w.called ≡ u.called
  callback : w.tx_cb ≡ u.tx_cb

-- `w` has sent `byte` after what `u` had sent.
record Sent (u : Uart) (byte : ℕ) (w : Uart) : Type 0 where
  idle : w.tx_active ≡ false
  empty : w.tdre ≡ true
  queue : w.tx_queue ≡ u.tx_queue ++ byte ∷ []
  calls : w.called ≡ (if u.tx_cb then u.called ++ byte ∷ [] else u.called)

-- The receiver leaves the transmitter alone.
abbrev SameTransmitter : Uart → Uart → Type 0
SameTransmitter u v =
    (v.tx_active ≡ u.tx_active)
    × (v.tdre ≡ u.tdre)
    × (v.tx_shift_byte ≡ u.tx_shift_byte)
    × (v.tx_cycles_remaining ≡ u.tx_cycles_remaining)
    × (v.tx_queue ≡ u.tx_queue)
    × (v.called ≡ u.called)
    × (v.tx_cb ≡ u.tx_cb)

begin_byte-SameTransmitter : (u : Uart) (bs : List ℕ) → SameTransmitter u (begin_byte u bs)
begin_byte-SameTransmitter u [] = (refl, refl, refl, refl, refl, refl, refl)
begin_byte-SameTransmitter u (b ∷ bs) = (refl, refl, refl, refl, refl, refl, refl)

receive-SameTransmitter : (u : Uart) (n : ℕ) → SameTransmitter u (shift_receive (begin_receive u) n)
unfolding begin_receive shift_receive
receive-SameTransmitter u n = let same = begin_byte-SameTransmitter u u.rx_pending in ground arith

tick-Sends :
    (u : Uart) (byte left n : ℕ) (w : Uart)
    → Sends u byte left w
    → n < left
    → Sends u byte (left - n) (uart_tick w n)
unfolding uart_tick tick_transmit
tick-Sends u byte left n w s h =
    let same = receive-SameTransmitter (tick_transmit w n) n in ground arith

tick-Sent :
    (u : Uart) (byte left n : ℕ) (w : Uart)
    → Sends u byte left w
    → left ≤ n
    → Sent u byte (uart_tick w n)
unfolding uart_tick tick_transmit
tick-Sent u byte left n w s h =
    let same = receive-SameTransmitter (tick_transmit w n) n in ground arith

after-Sends :
    (u : Uart) (byte left : ℕ) (w : Uart) (e : Event)
    → Sends u byte left w
    → lets_send e ≡ true
    → cycles_of e < left
    → Sends u byte (left - cycles_of e) (after w e)
unfolding uart_read uart_write write_command rx_enqueue set_lines
after-Sends u byte left w (read offset) s q h = ground arith
after-Sends u byte left w (write offset value) s q h = ground arith
after-Sends u byte left w reset s q h = cc
after-Sends u byte left w (tick n) s q h = tick-Sends u byte left n w s h
after-Sends u byte left w (enqueue b) s q h = ground arith
after-Sends u byte left w dequeue s q h = cc
after-Sends u byte left w (lines a b c) s q h = ground arith

-- Only a tick takes time.
after-Sent :
    (u : Uart) (byte left : ℕ) (w : Uart) (e : Event)
    → Sends u byte left w
    → left ≤ cycles_of e
    → Sent u byte (after w e)
after-Sent u byte left w (tick n) s h = tick-Sent u byte left n w s h
after-Sent u byte left w e s h = absurd (omega (arith, s.some_left))

stays-Sent :
    (u : Uart) (byte : ℕ) (w : Uart) (e : Event)
    → Sent u byte w
    → lets_send e ≡ true
    → Sent u byte (after w e)
unfolding uart_read uart_write write_command uart_tick tick_transmit rx_enqueue set_lines
stays-Sent u byte w (read offset) s q = ground arith
stays-Sent u byte w (write offset value) s q = ground arith
stays-Sent u byte w reset s q = cc
stays-Sent u byte w (tick n) s q =
    let same = receive-SameTransmitter (tick_transmit w n) n in ground arith
stays-Sent u byte w (enqueue b) s q = ground arith
stays-Sent u byte w dequeue s q = cc
stays-Sent u byte w (lines a b c) s q = ground arith

abbrev pub AllLetSend : List Event → Type 0
AllLetSend es = All (λ e. lets_send e ≡ true) es

all_stay-Sent :
    (u : Uart) (byte : ℕ) (w : Uart) (es : List Event)
    → Sent u byte w
    → AllLetSend es
    → Sent u byte (after_all w es)
all_stay-Sent u byte w [] s q = s
all_stay-Sent u byte w (e ∷ es) s q =
    all_stay-Sent u byte (after w e) es (stays-Sent u byte w e s q.0) q.1

all-Sent :
    (u : Uart) (byte left : ℕ) (w : Uart) (es : List Event)
    → Sends u byte left w
    → AllLetSend es
    → left ≤ elapsed es
    → Sent u byte (after_all w es)
all-Sent u byte left w [] s q h = absurd (omega (arith, s.some_left))
all-Sent u byte left w (e ∷ es) s q h = elim (Bool-cases (leb left (cycles_of e))) [
  | inl t ↦ all_stay-Sent u byte (after w e) es (after-Sent u byte left w e s (leb→le _ _ t)) q.1
  | inr t ↦
      all-Sent u byte (left - cycles_of e) (after w e) es
        (after-Sends u byte left w e s q.0 (ground arith)) q.1 (ground arith)
]

all-Sends :
    (u : Uart) (byte left : ℕ) (w : Uart) (es : List Event)
    → Sends u byte left w
    → AllLetSend es
    → elapsed es < left
    → Sends u byte (left - elapsed es) (after_all w es)
all-Sends u byte left w [] s q h = ground arith
all-Sends u byte left w (e ∷ es) s q h =
    let rest : left - (cycles_of e + elapsed es) ≡ left - cycles_of e - elapsed es = omega arith in
    rw rest (
      all-Sends u byte (left - cycles_of e) (after w e) es
        (after-Sends u byte left w e s q.0 (omega arith)) q.1 (omega arith))

-- Whether `byte` has been sent when the calls are over, from the state `w` after its write to `u`,
-- where a character takes `time` cycles.
abbrev pub SentAfter : Uart → ℕ → ℕ → Uart → List Event → Type 0
SentAfter u byte time w es =
    let v = after_all w es in
    let done = leb time (elapsed es) in
    (v.tx_queue ≡ (if done then u.tx_queue ++ byte ∷ [] else u.tx_queue))
    × (v.called ≡ (if done && u.tx_cb then u.called ++ byte ∷ [] else u.called))
    × (v.tdre ≡ done)

transmit_ends :
    (u : Uart) (offset byte : ℕ) (es : List Event)
    → bit_and offset 0x3 ≡ 0
    → AllLetSend es
    → SentAfter u byte (cycles_per_char u) (uart_write u offset byte) es
unfolding uart_write start_transmit
transmit_ends u offset byte es at q =
    let w = uart_write u offset byte in
    let s : Sends u byte (cycles_per_char u) w = ground (arith, cycles_per_char_pos u) in
    elim (Bool-cases (leb (cycles_per_char u) (elapsed es))) [
      | inl t ↦
          let sent = all-Sent u byte (cycles_per_char u) w es s q (leb→le _ _ t) in ground arith
      | inr t ↦
          let sends = all-Sends u byte (cycles_per_char u) w es s q (ground arith) in ground arith
    ]

-- A byte that is written to the transmit data register while the baud rate is not 0, and then calls
-- of any kind but a second byte to send, a reset and the host's taking of a byte. Once the cycles of
-- one character have passed, the byte has been sent, exactly once, after the bytes before it: it
-- stands in the queue to the host, the callback has been called with it where one is set, and the
-- register is empty. Until then nothing has been sent and the register is full. The cycles of one
-- character are the CPU clock times the bits of a character over the baud rate, rounded to the
-- nearest number, and at least 1.
pub transmit_completes :
    (u : Uart) (offset byte : ℕ) (es : List Event)
    → baud_rate u ≢ 0
    → bit_and offset 0x3 ≡ 0
    → AllLetSend es
    → IsCharTime u (cycles_per_char u)
      × SentAfter u byte (cycles_per_char u) (uart_write u offset byte) es
transmit_completes u offset byte es rated at q =
    (cycles_per_char-IsCharTime u rated, transmit_ends u offset byte es at q)

-- A byte that is written to the transmit data register while the external clock is selected, the
-- low four bits of the control register 0, which the simulator does not have; and then calls of
-- any kind but a second byte to send, a reset and the host's taking of a byte. The byte is sent
-- all the same, once 0xFFFFFFFF cycles have passed, and not before.
pub transmit_external :
    (u : Uart) (offset byte : ℕ) (es : List Event)
    → bit_and u.control 0x0f ≡ 0
    → bit_and offset 0x3 ≡ 0
    → AllLetSend es
    → SentAfter u byte 0xffffffff (uart_write u offset byte) es
transmit_external u offset byte es external at q =
    subst (λ n. SentAfter u byte n (uart_write u offset byte) es) (external_time u external)
      (transmit_ends u offset byte es at q)
