-- ===== src/Uart/Status.antt =====
-- The bits of the status register.
use pugputer6309_emulator.Base.{ℕ, ◌<◌, ◌≡◌, Bool, not, bit_test, arith}
use pugputer6309_emulator.Uart.Types.{Uart, status_register}

-- A byte whose bits 7 to 0 are these flags, two of them inverted.
pub record IsStatus (s : ℕ) (irq dsr dcd tdre rdrf overrun framing parity : Bool) : Type 0 where
  pub irq_bit : bit_test s 0x80 ≡ irq
  pub dsr_bit : bit_test s 0x40 ≡ not dsr
  pub dcd_bit : bit_test s 0x20 ≡ not dcd
  pub tdre_bit : bit_test s 0x10 ≡ tdre
  pub rdrf_bit : bit_test s 0x08 ≡ rdrf
  pub overrun_bit : bit_test s 0x04 ≡ overrun
  pub framing_bit : bit_test s 0x02 ≡ framing
  pub parity_bit : bit_test s 0x01 ≡ parity
  pub fits : s < 256

-- The status register is a byte whose bits 7 to 0 are the interrupt flag, DSR and DCD inverted, the
-- two data registers' flags and the three errors.
pub status_register-IsStatus :
    (u : Uart)
    → IsStatus
        (status_register u)
        u.irq_flag
        u.dsr_ready
        u.dcd_detected
        u.tdre
        u.rdrf
        u.overrun
        u.framing_error
        u.parity_error
unfolding status_register
status_register-IsStatus u = ground arith
