-- ===== src/Uart/Receive.antt =====
-- The receiver as a channel: the bytes that have not arrived, and the one that waits to be read.
use mathlib.Core.Path.{subst}
use pugputer6309_emulator.Base.{
  ℕ, ◌/◌, ◌≤◌, ◌≡◌, refl, ap, ◌∙◌, ◌⊎◌, Bool, true, false, not, ◌&&◌, Option, none, some, List, [],
  ◌∷◌, ◌++◌, arith, leb, length, bit_and, ◌==◌, if◌then◌else◌, u8, inl, inr, bit_test, Bool-cases,
}
use pugputer6309_emulator.Uart.Types.{
  Uart, cycles_per_char, baud_rate, halves_per_char, data_bits, stop_halves, rx_irq_enabled,
}
use pugputer6309_emulator.Uart.Control.{
  uart_read, uart_write, uart_reset, uart_tick, tick_transmit, begin_receive, shift_receive,
  rx_enqueue, tx_dequeue, pop_front, set_lines, begin_byte, start_transmit, write_command,
}
use pugputer6309_emulator.Uart.Timing.{CoversChar, cycles_per_char-le}
use pugputer6309_emulator.Uart.Events.{
  Event, read, write, reset, tick, enqueue, dequeue, lines, after,
}

pub record Channel : Type 0 where
  pub waiting : List ℕ
  pub held : Option ℕ
  pub overrun : Bool

abbrev pub channel_of : Uart → Channel
channel_of u = record {
  waiting = if u.rx_active then u.rx_shift_byte ∷ u.rx_pending else u.rx_pending;
  held = if u.rdrf then some u.rx_data else none;
  overrun = u.overrun;
}

-- A byte that arrives is held, or is lost and an overrun where another one is held.
abbrev pub arrive : ℕ → List ℕ → Option ℕ → Bool → Channel
arrive b rest none overrun = record { waiting = rest; held = some b; overrun = overrun }
arrive b rest (some a) overrun = record { waiting = rest; held = some a; overrun = true }

abbrev pub Arrives : Channel → Channel → Type 0
Arrives c d =
    (b : ℕ) × (rest : List ℕ) × (c.waiting ≡ b ∷ rest) × (d ≡ arrive b rest c.held c.overrun)

-- What a call may do to the channel.
abbrev pub ChannelStep : Event → Channel → Channel → Type 0
ChannelStep (read offset) c d =
    d ≡ (if bit_and offset 0x3 == 0 then record c { held = none; overrun = false } else c)
ChannelStep (write offset value) c d =
    d ≡ (if bit_and offset 0x3 == 1 then record c { overrun = false } else c)
ChannelStep reset c d = d ≡ record { waiting = []; held = none; overrun = false }
ChannelStep (tick n) c d = (d ≡ c) ⊎ Arrives c d
ChannelStep (enqueue b) c d =
    (d ≡ record c { waiting = c.waiting ++ u8 b ∷ [] }) ⊎ ((65536 ≤ length c.waiting) × (d ≡ c))
ChannelStep dequeue c d = d ≡ c
ChannelStep (lines a b e) c d = d ≡ c

tick_transmit-channel : (u : Uart) (n : ℕ) → channel_of (tick_transmit u n) ≡ channel_of u
unfolding tick_transmit
tick_transmit-channel u n = ground arith

begin_byte-channel :
    (u : Uart) (bs : List ℕ)
    → u.rx_active ≡ false
    → u.rx_pending ≡ bs
    → channel_of (begin_byte u bs) ≡ channel_of u
begin_byte-channel u [] h k = refl
begin_byte-channel u (b ∷ bs) h k = ground arith

begin_receive-channel : (u : Uart) → channel_of (begin_receive u) ≡ channel_of u
unfolding begin_receive
begin_receive-channel u = ground (arith, begin_byte-channel u u.rx_pending)

-- The end of a character in progress.
shift_receive-Arrives :
    (u : Uart) (n : ℕ)
    → u.rx_active ≡ true
    → u.rx_cycles_remaining ≤ n
    → channel_of (shift_receive u n)
      ≡ arrive u.rx_shift_byte u.rx_pending (channel_of u).held u.overrun
unfolding shift_receive
shift_receive-Arrives u n h k = ground arith

shift_receive-waits :
    (u : Uart) (n : ℕ)
    → (u.rx_active && leb u.rx_cycles_remaining n) ≡ false
    → channel_of (shift_receive u n) ≡ channel_of u
unfolding shift_receive
shift_receive-waits u n h = ground arith

-- What the tick of the receiver does to the channel, from the state in which it starts to shift.
shift_receive-step :
    (u : Uart) (n : ℕ)
    → (channel_of (shift_receive u n) ≡ channel_of u)
      ⊎ Arrives (channel_of u) (channel_of (shift_receive u n))
shift_receive-step u n = elim (Bool-cases (u.rx_active && leb u.rx_cycles_remaining n)) [
  | inl t ↦ inr (
    u.rx_shift_byte,
    u.rx_pending,
    ground arith,
    shift_receive-Arrives u n (ground arith) (ground arith),
  )
  | inr t ↦ inl (shift_receive-waits u n t)
]

before_shift : (u : Uart) (n : ℕ) → channel_of (begin_receive (tick_transmit u n)) ≡ channel_of u
before_shift u n = begin_receive-channel (tick_transmit u n) ∙ tick_transmit-channel u n

uart_tick-step :
    (u : Uart) (n : ℕ) → ChannelStep (tick n) (channel_of u) (channel_of (uart_tick u n))
unfolding uart_tick
uart_tick-step u n =
    subst (λ c. (channel_of (uart_tick u n) ≡ c) ⊎ Arrives c (channel_of (uart_tick u n)))
      (before_shift u n) (shift_receive-step (begin_receive (tick_transmit u n)) n)

pop_front-channel : (u : Uart) (q : List ℕ) → channel_of (pop_front u q).1 ≡ channel_of u
pop_front-channel u [] = refl
pop_front-channel u (b ∷ q) = refl

enqueue-step :
    (u : Uart) (b : ℕ) → ChannelStep (enqueue b) (channel_of u) (channel_of (rx_enqueue u (u8 b)).1)
unfolding rx_enqueue
enqueue-step u b = elim (Bool-cases (leb 65536 (length u.rx_pending))) [
  | inl t ↦ inr (ground arith, ground arith)
  | inr t ↦ inl (ground arith)
]

-- Seen as a channel, the receiver does at each call what a channel may do: bytes wait in the order
-- in which they were enqueued, and none is added only where 65536 or more wait; at most the first of
-- them arrives in a tick, and it is lost only where another byte is held, with the overrun flag set;
-- the held byte goes only by a read of the data register or a reset; the overrun flag goes only by
-- these and by a write to the status register.
pub after-ChannelStep :
    (u : Uart) (e : Event) → ChannelStep e (channel_of u) (channel_of (after u e))
unfolding uart_read uart_write uart_reset start_transmit write_command tx_dequeue set_lines
after-ChannelStep u (read offset) = ground arith
after-ChannelStep u (write offset value) = ground arith
after-ChannelStep u reset = refl
after-ChannelStep u (tick n) = uart_tick-step u n
after-ChannelStep u (enqueue b) = enqueue-step u b
after-ChannelStep u dequeue = pop_front-channel u u.tx_queue
after-ChannelStep u (lines a b c) = refl

tick_transmit-rx :
    (u : Uart) (n : ℕ)
    → (cycles_per_char (tick_transmit u n) ≡ cycles_per_char u)
      × ((tick_transmit u n).rx_active ≡ u.rx_active)
      × ((tick_transmit u n).rx_pending ≡ u.rx_pending)
      × ((tick_transmit u n).rx_shift_byte ≡ u.rx_shift_byte)
      × ((tick_transmit u n).rx_cycles_remaining ≡ u.rx_cycles_remaining)
      × ((tick_transmit u n).rdrf ≡ u.rdrf)
      × ((tick_transmit u n).command ≡ u.command)
      × ((tick_transmit u n).overrun ≡ u.overrun)
unfolding tick_transmit cycles_per_char baud_rate halves_per_char data_bits stop_halves
tick_transmit-rx u n = ground arith

-- A byte that the receiver shifts in, with at most `n` cycles left and none held.
record Shifts (n b : ℕ) (rest : List ℕ) (overrun : Bool) (command : ℕ) (v : Uart) : Type 0 where
  active : v.rx_active ≡ true
  shifted : v.rx_shift_byte ≡ b
  pending : v.rx_pending ≡ rest
  left : v.rx_cycles_remaining ≤ n
  free : v.rdrf ≡ false
  same_overrun : v.overrun ≡ overrun
  same_command : v.command ≡ command

begin_byte-Shifts :
    (u : Uart) (n b : ℕ) (rest bs : List ℕ)
    → bs ≡ b ∷ rest
    → u.rdrf ≡ false
    → cycles_per_char u ≤ n
    → Shifts n b rest u.overrun u.command (begin_byte u bs)
begin_byte-Shifts u n b rest [] h k l = cc
begin_byte-Shifts u n b rest (c ∷ cs) h k l = ground arith

begin_receive-Shifts :
    (u : Uart) (n b : ℕ) (rest : List ℕ)
    → (channel_of u).waiting ≡ b ∷ rest
    → u.rdrf ≡ false
    → bit_test u.command 0x01 ≡ true
    → cycles_per_char u ≤ n
    → u.rx_cycles_remaining ≤ n
    → Shifts n b rest u.overrun u.command (begin_receive u)
unfolding begin_receive
begin_receive-Shifts u n b rest w free on le left =
    ground (arith, begin_byte-Shifts u n b rest u.rx_pending)

-- The byte is there.
record Delivered (b : ℕ) (rest : List ℕ) (overrun : Bool) (command : ℕ) (v : Uart) : Type 0 where
  channel : channel_of v ≡ record { waiting = rest; held = some b; overrun = overrun }
  byte : v.rx_data ≡ b
  irq : (bit_test command 0x01 && bit_and (command / 2) 0x1 == 0 && not v.irq_flag) ≡ false

shift_receive-Delivered :
    (n b : ℕ) (rest : List ℕ) (overrun : Bool) (command : ℕ) (v : Uart)
    → Shifts n b rest overrun command v
    → Delivered b rest overrun command (shift_receive v n)
unfolding shift_receive rx_irq_enabled
shift_receive-Delivered n b rest overrun command v s = ground arith

-- The first of the bytes that wait, the receiver on and no byte held: a tick of at least the time of
-- one character, which is the CPU clock times the bits of a character over the baud rate, rounded,
-- and of the cycles that a character in progress has left, delivers the byte. The data register then
-- reads as that byte, and the interrupt flag is set where its interrupt is enabled. A baud rate of 0
-- has no such time.
pub receive_completes :
    (u : Uart) (n b offset : ℕ) (rest : List ℕ)
    → (channel_of u).waiting ≡ b ∷ rest
    → u.rdrf ≡ false
    → bit_test u.command 0x01 ≡ true
    → CoversChar u n
    → u.rx_cycles_remaining ≤ n
    → bit_and offset 0x3 ≡ 0
    → ((uart_read (uart_tick u n) offset).0 ≡ u8 b)
      × (channel_of (uart_tick u n) ≡ record { waiting = rest; held = some b; overrun = u.overrun })
      × ((rx_irq_enabled u && not (uart_tick u n).irq_flag) ≡ false)
unfolding uart_tick uart_read rx_irq_enabled
receive_completes u n b offset rest w idle on covers left at =
    let le = cycles_per_char-le u n covers in
    let same = tick_transmit-rx u n in
    let there = shift_receive-Delivered n b rest _ _ _ (
      begin_receive-Shifts (tick_transmit u n) n b rest (ground arith) (ground arith) (ground arith)
        (ground arith) (ground arith)) in
    (
      ground arith,
      there.channel ∙ ap (λ o. record { waiting = rest; held = some b; overrun = o }) same.7,
      ground arith,
    )
