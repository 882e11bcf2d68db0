-- ===== src/Uart/Tests.antt =====
-- A UART at 19200 baud with 8 data bits and DTR on, for which a character takes 1864 cycles.
use pugputer6309_emulator.Base.{
  ◌≢◌, ◌≡◌, refl, true, false, not, ◌&&◌, some, List, [], ◌∷◌, arith, u8,
}
use pugputer6309_emulator.Uart.Types.{
  Uart, new_uart, cycles_per_char, baud_rate, halves_per_char, data_bits, stop_halves,
  status_register, rx_irq_enabled,
}
use pugputer6309_emulator.Uart.Control.{uart_read, uart_write, uart_tick}
use pugputer6309_emulator.Uart.Events.{Event, tick, read, after, after_all}
use pugputer6309_emulator.Uart.Status.{IsStatus, status_register-IsStatus}
use pugputer6309_emulator.Uart.Valid.{IsValid, after_all-IsValid}
use pugputer6309_emulator.Uart.Transmit.{SentAfter, transmit_completes, transmit_external}
use pugputer6309_emulator.Uart.Timing.{IsCharTime, CoversChar}
use pugputer6309_emulator.Uart.Receive.{
  ChannelStep, channel_of, after-ChannelStep, receive_completes,
}
use pugputer6309_emulator.Uart.Interrupt.{Latches, after-Latches}

abbrev uart : Uart
uart = record (new_uart 1843200) { command = 0x09; control = 0x0f; rx_pending = 65 ∷ 66 ∷ [] }

char_takes : cycles_per_char uart ≡ 1864
unfolding cycles_per_char baud_rate halves_per_char data_bits stop_halves
char_takes = refl

abbrev two_ticks : List Event
two_ticks = tick 1000 ∷ read 1 ∷ tick 1000 ∷ []

status_register-IsStatus_example :
    IsStatus (status_register uart) false true true true false false false false
status_register-IsStatus_example = status_register-IsStatus uart

after_all-IsValid_example : IsValid (after_all (new_uart 1843200) two_ticks)
after_all-IsValid_example = after_all-IsValid 1843200 two_ticks

after-Latches_example : Latches (tick 2000) uart (after uart (tick 2000))
after-Latches_example = after-Latches uart (tick 2000)

after-ChannelStep_example :
    ChannelStep (tick 2000) (channel_of uart) (channel_of (after uart (tick 2000)))
after-ChannelStep_example = after-ChannelStep uart (tick 2000)

uart_rated : baud_rate uart ≢ 0
unfolding baud_rate
uart_rated = omega arith

transmit_completes_example :
    IsCharTime uart (cycles_per_char uart)
    × SentAfter uart 72 (cycles_per_char uart) (uart_write uart 0 72) two_ticks
transmit_completes_example =
    transmit_completes uart 0 72 two_ticks uart_rated refl (refl, (refl, (refl, tt)))

-- The state after a reset, with DTR on.
abbrev external : Uart
external = record (new_uart 1843200) { command = 0x09 }

transmit_external_example : SentAfter external 72 0xffffffff (uart_write external 0 72) two_ticks
transmit_external_example =
    transmit_external external 0 72 two_ticks refl refl (refl, (refl, (refl, tt)))

uart_covers : CoversChar uart 2000
unfolding baud_rate halves_per_char data_bits stop_halves
uart_covers = omega arith

receive_completes_example :
    ((uart_read (uart_tick uart 2000) 0).0 ≡ u8 65)
    × (channel_of (uart_tick uart 2000)
        ≡ record { waiting = 66 ∷ []; held = some 65; overrun = false })
    × ((rx_irq_enabled uart && not (uart_tick uart 2000).irq_flag) ≡ false)
receive_completes_example =
    receive_completes uart 2000 65 0 (66 ∷ []) refl refl refl uart_covers (omega arith) refl
