-- ===== src/Avr/Device/Setup.antt =====
-- The registers, streams and interrupts that avr_init of misc/c/avr.h leaves.
use north_arm.Prelude.{ℕ, ◌≡◌, refl, Bool, true, false, ◌&&◌, ◌||◌, ◌==◌, arith, if◌then◌else◌}
use north_arm.Avr.Bits.{bit, set_bit, clear_bit, bit-set_bit, bit-clear_bit, bit_zero}
use north_arm.Avr.Device.{
  Device, Options, Chip, serial_in, serial_out, static_in, set_up_uart, set_up_streams, avr_init,
}

-- The chip `c'` that avr_init makes of `c`.
pub record IsSetUp (d : Device) (o : Options) (c c' : Chip) : Type 0 where
  pub speed : (b : ℕ) → bit c'.ucsr0a b ≡ (if b == d.u2x0 then d.use_2x else bit c.ucsr0a b)
  pub enabled :
      (b : ℕ) → bit c'.ucsr0b b ≡ (b == d.rxen0) || (b == d.txen0) || o.uart_intr && b == d.rxcie0
  pub format : (b : ℕ) → bit c'.ucsr0c b ≡ (b == d.ucsz01) || (b == d.ucsz00)
  pub interrupts : c'.interrupts ≡ o.uart_intr || c.interrupts
  pub input : c'.stdin ≡ (if o.static_input then static_in else serial_in)
  pub output : (c'.stdout ≡ serial_out) × (c'.stderr ≡ serial_out)
  pub position : c'.static_input_pos ≡ (if o.static_input then 0 else c.static_input_pos)

two_bits : (j k b : ℕ) → bit (set_bit (set_bit 0 j) k) b ≡ (b == j) || (b == k)
two_bits j k b = ground (arith, bit-set_bit (set_bit 0 j) k b, bit-set_bit 0 j b, bit_zero b)

one_bit :
    (u n k b : ℕ) (x : Bool)
    → bit (if x then set_bit n k else clear_bit n k) b ≡ (if b == k then x else bit n b)
one_bit u n k b true = ground (arith, bit-set_bit n k b)
one_bit u n k b false = ground (arith, bit-clear_bit n k b)

three_bits :
    (j k l b : ℕ) (x : Bool)
    → bit (let e = set_bit (set_bit 0 j) k in if x then set_bit e l else e) b
      ≡ (b == j) || (b == k) || x && b == l
three_bits j k l b true = ground (arith, bit-set_bit (set_bit (set_bit 0 j) k) l b, two_bits j k b)
three_bits j k l b false = ground (arith, two_bits j k b)

with_options :
    (d : Device) (c : Chip) (i s : Bool)
    → let o : Options = record { uart_intr = i; static_input = s } in IsSetUp d o c (avr_init d o c)
unfolding avr_init set_up_uart set_up_streams
with_options d c true true = record {
  speed = λ b. one_bit d.u2x0 c.ucsr0a d.u2x0 b d.use_2x;
  enabled = λ b. three_bits d.rxen0 d.txen0 d.rxcie0 b true;
  format = two_bits d.ucsz01 d.ucsz00;
  interrupts = refl;
  input = refl;
  output = (refl, refl);
  position = refl;
}
with_options d c true false = record {
  speed = λ b. one_bit d.u2x0 c.ucsr0a d.u2x0 b d.use_2x;
  enabled = λ b. three_bits d.rxen0 d.txen0 d.rxcie0 b true;
  format = two_bits d.ucsz01 d.ucsz00;
  interrupts = refl;
  input = refl;
  output = (refl, refl);
  position = refl;
}
with_options d c false true = record {
  speed = λ b. one_bit d.u2x0 c.ucsr0a d.u2x0 b d.use_2x;
  enabled = λ b. three_bits d.rxen0 d.txen0 d.rxcie0 b false;
  format = two_bits d.ucsz01 d.ucsz00;
  interrupts = refl;
  input = refl;
  output = (refl, refl);
  position = refl;
}
with_options d c false false = record {
  speed = λ b. one_bit d.u2x0 c.ucsr0a d.u2x0 b d.use_2x;
  enabled = λ b. three_bits d.rxen0 d.txen0 d.rxcie0 b false;
  format = two_bits d.ucsz01 d.ucsz00;
  interrupts = refl;
  input = refl;
  output = (refl, refl);
  position = refl;
}

-- After avr_init, for any device and earlier state: UCSR0A differs at most in the bit U2X0,
-- which says whether the speed is doubled; UCSR0B has just the bits of the receiver, the
-- transmitter and, with AVR_UART_INTR, the receive interrupt; UCSR0C has the two of 8-bit data;
-- interrupts are on with AVR_UART_INTR; the streams are those of the options, and a static input
-- starts over.
pub avr_init-IsSetUp : (d : Device) (o : Options) (c : Chip) → IsSetUp d o c (avr_init d o c)
avr_init-IsSetUp d o c = with_options d c o.uart_intr o.static_input
