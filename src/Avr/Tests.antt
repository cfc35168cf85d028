-- ===== src/Avr/Tests.antt =====
-- The port on an ATmega328P.
use north_arm.Prelude.{ℕ, ◌≡◌, ◌++◌, true, false, none, some, List, [], ◌∷◌, suc, arith}
use north_arm.Prelude.Int.{pos, negsuc}
use north_arm.Avr.Bits.{bit}
use north_arm.Avr.Device.{Device, Options, Chip, closed, avr_init, puts}
use north_arm.Avr.Device.Setup.{IsSetUp, avr_init-IsSetUp}
use north_arm.Avr.Device.Reboot.{avr_reboot, reset, rebooting, points, avr_reboot_lem}
use north_arm.Avr.Polled.{Poll, gets, sends, gets-ready, sends_lem}

abbrev atmega328p : Device
atmega328p = record {
  ubrrh_value = 0;
  ubrrl_value = 51;
  use_2x = false;
  u2x0 = 1;
  ucsz01 = 2;
  ucsz00 = 1;
  rxen0 = 4;
  txen0 = 3;
  rxcie0 = 7;
  rxc0 = 7;
  udre0 = 5;
  wdrf = 3;
  wdto_250ms = 250;
}

-- After a reset of the device.
abbrev chip : Chip
chip = record {
  ubrr0h = 0;
  ubrr0l = 0;
  ucsr0a = 32;
  ucsr0b = 0;
  ucsr0c = 6;
  mcusr = 1;
  stdin = closed;
  stdout = closed;
  stderr = closed;
  static_input_pos = 0;
  interrupts = false;
  sent = [];
  watchdog = none;
}

abbrev with_interrupt : Options
with_interrupt = record { uart_intr = true; static_input = false }

avr_init-IsSetUp_example :
    IsSetUp atmega328p with_interrupt chip (avr_init atmega328p with_interrupt chip)
avr_init-IsSetUp_example = avr_init-IsSetUp atmega328p with_interrupt chip

avr_reboot_lem_example :
    (k : ℕ) × (c' : Chip) × (avr_reboot atmega328p true 1 chip ≡ reset c')
    × (c'.sent ≡ (puts rebooting chip).sent ++ points (suc k))
avr_reboot_lem_example = avr_reboot_lem atmega328p 1 chip (omega arith) (omega arith)

-- Nothing has come, then 65, then 200; the port can send all the time.
abbrev polls : List Poll
polls =
    record { status = 32; received = 0 }
    ∷ record { status = 160; received = 65 }
    ∷ record { status = 160; received = 200 }
    ∷ []

gets-ready_example : gets atmega328p 3 polls ≡ pos 65 ∷ negsuc 55 ∷ []
unfolding bit
gets-ready_example = gets-ready atmega328p 3 polls

sends_lem_example :
    (rest : List Poll) × (sends atmega328p (72 ∷ 105 ∷ []) [] polls ≡ some (72 ∷ 105 ∷ [], rest))
unfolding bit
sends_lem_example = sends_lem atmega328p (72 ∷ 105 ∷ []) [] polls (omega arith)
