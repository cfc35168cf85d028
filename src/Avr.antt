-- ===== src/Avr.antt =====
-- misc/c/avr.h: the serial port, with its receive interrupt (AVR_UART_INTR) and without, the static
-- input, and the set-up of the device. What the port sends is a list, and a character that arrives
-- is an event.
pub mod Uart
pub mod Static
pub mod Bits
pub mod Device
pub mod Polled
mod Tests
