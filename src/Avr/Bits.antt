-- ===== src/Avr/Bits.antt =====
-- Bits of a register: `|= 1 << k`, `&= ~(1 << k)` and the test of misc/c/avr.h and <avr/io.h>.
use north_arm.Prelude.{
  ℕ, zero, suc, ◌+◌, ◌*◌, ◌/◌, ◌%◌, ◌<◌, ◌≡◌, refl, Bool, false, not, ◌&&◌, ◌||◌, ◌==◌, arith,
}

-- Bit `k` of a number.
unfoldable pub bit : ℕ → ℕ → Bool
bit n zero = n % 2 == 1
bit n (suc k) = bit (n / 2) k

unfoldable pub set_bit : ℕ → ℕ → ℕ
set_bit n zero = 2 * (n / 2) + 1
set_bit n (suc k) = 2 * set_bit (n / 2) k + n % 2

unfoldable pub clear_bit : ℕ → ℕ → ℕ
clear_bit n zero = 2 * (n / 2)
clear_bit n (suc k) = 2 * clear_bit (n / 2) k + n % 2

half : (n r : ℕ) → r < 2 → (2 * n + r) / 2 ≡ n
half n r h = omega arith

odd : (n r : ℕ) → r < 2 → (2 * n + r) % 2 ≡ r
odd n r h = omega arith

pub bit-set_bit : (n k b : ℕ) → bit (set_bit n k) b ≡ (b == k) || bit n b
unfolding bit set_bit
bit-set_bit n zero zero = ground (arith, odd (n / 2) 1)
bit-set_bit n zero (suc b) = ground (arith, half (n / 2) 1)
bit-set_bit n (suc k) zero = ground (arith, odd (set_bit (n / 2) k) (n % 2))
bit-set_bit n (suc k) (suc b) =
    ground (arith, half (set_bit (n / 2) k) (n % 2), bit-set_bit (n / 2) k b)

pub bit-clear_bit : (n k b : ℕ) → bit (clear_bit n k) b ≡ not (b == k) && bit n b
unfolding bit clear_bit
bit-clear_bit n zero zero = ground arith
bit-clear_bit n zero (suc b) = ground (arith, half (n / 2) 0)
bit-clear_bit n (suc k) zero = ground (arith, odd (clear_bit (n / 2) k) (n % 2))
bit-clear_bit n (suc k) (suc b) =
    ground (arith, half (clear_bit (n / 2) k) (n % 2), bit-clear_bit (n / 2) k b)

pub bit_zero : (b : ℕ) → bit 0 b ≡ false
unfolding bit
bit_zero zero = refl
bit_zero (suc b) = bit_zero b
