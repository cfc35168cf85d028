-- ===== src/Avr/Device.antt =====
-- The set-up of the microcontroller in misc/c/avr.h: avr_init and wdt_init.
pub mod Setup
pub mod Reboot
use north_arm.Prelude.{
  ℕ, ◌+◌, ◌%◌, List, [], ◌∷◌, ◌++◌, Bool, true, false, Option, none, some, if◌then◌else◌,
}
use north_arm.Avr.Bits.{set_bit, clear_bit}

-- What <avr/io.h> and <util/setbaud.h> define for the device: the numbers of the bits, the divider
-- of the clock, and the time of WDTO_250MS.
pub record Device : Type 0 where
  pub ubrrh_value : ℕ
  pub ubrrl_value : ℕ
  pub use_2x : Bool
  pub u2x0 : ℕ
  pub ucsz01 : ℕ
  pub ucsz00 : ℕ
  pub rxen0 : ℕ
  pub txen0 : ℕ
  pub rxcie0 : ℕ
  pub rxc0 : ℕ
  pub udre0 : ℕ
  pub wdrf : ℕ
  pub wdto_250ms : ℕ

-- AVR_UART_INTR and STATIC_INPUT.
pub record Options : Type 0 where
  pub uart_intr : Bool
  pub static_input : Bool

pub data Stream : Type 0 where
  closed serial_in serial_out static_in : Stream

-- The registers, the streams of the C library, static_input_pos, whether interrupts are on, what
-- has been sent, and the time that the watchdog has left.
pub record Chip : Type 0 where
  pub ubrr0h : ℕ
  pub ubrr0l : ℕ
  pub ucsr0a : ℕ
  pub ucsr0b : ℕ
  pub ucsr0c : ℕ
  pub mcusr : ℕ
  pub stdin : Stream
  pub stdout : Stream
  pub stderr : Stream
  pub static_input_pos : ℕ
  pub interrupts : Bool
  pub sent : List ℕ
  pub watchdog : Option ℕ

-- `puts`, which ends the line.
abbrev pub puts : List ℕ → Chip → Chip
puts s c = record c { sent = c.sent ++ s ++ (b'\n' ∷ []) }

abbrev pub static_text : List ℕ
static_text = b'S' ∷ b't' ∷ b'a' ∷ b't' ∷ b'i' ∷ b'c' ∷ b' ' ∷ b'i' ∷ b'n' ∷ b'p' ∷ b'u' ∷ b't' ∷ []

module _ (d : Device) where
  -- Takes the watchdog's mark away and turns it off.
  unfoldable pub wdt_init : Chip → Chip
  wdt_init c = record c { mcusr = clear_bit c.mcusr d.wdrf; watchdog = none }

  module _ (o : Options) where
    -- The registers of the serial port, each of eight bits.
    unfoldable pub set_up_uart : Chip → Chip
    set_up_uart c = record c {
      ubrr0h = d.ubrrh_value % 256;
      ubrr0l = d.ubrrl_value % 256;
      ucsr0a = if d.use_2x then set_bit c.ucsr0a d.u2x0 else clear_bit c.ucsr0a d.u2x0;
      ucsr0c = set_bit (set_bit 0 d.ucsz01) d.ucsz00;
      ucsr0b =
          let enabled = set_bit (set_bit 0 d.rxen0) d.txen0 in
          if o.uart_intr then set_bit enabled d.rxcie0 else enabled;
    }

    unfoldable pub set_up_streams : Chip → Chip
    set_up_streams c =
        let c1 = record c { stdout = serial_out; stderr = serial_out } in
        if o.static_input
        then puts static_text (record c1 { static_input_pos = 0; stdin = static_in })
        else record c1 { stdin = serial_in }

    unfoldable pub avr_init : Chip → Chip
    avr_init c =
        let ready = set_up_streams (set_up_uart c) in
        if o.uart_intr then record ready { interrupts = true } else ready
