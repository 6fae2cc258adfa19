-- ===== src/Prelude/Bits.antt =====
-- Single bits of a machine word, by its binary digits. `bits w` words are the numbers below 2 ^ w.
use mathlib.Core.Bool.{Bool, true, false}
use mathlib.Core.Path.{◌≡◌}
use mathlib.Core.Logic.{◌≢◌}
use Prim.Native.Nat.{ℕ, zero, suc, ◌+◌, ◌-◌, ◌*◌, ◌/◌, ◌%◌, ◌^◌, ◌<◌}
use native.Mathlib.Nat.{pow-suc}
use native.Mathlib.Omega.{arith}
use scylla_rust_driver.Prelude.Tests.{◌==◌, if◌then◌else◌}

-- `b & (1 << i) != 0`.
unfoldable pub test_bit : ℕ → ℕ → Bool
test_bit b zero = b % 2 == 1
test_bit b (suc i) = test_bit (b / 2) i

-- `b | (1 << i)`.
unfoldable pub set_bit : ℕ → ℕ → ℕ
set_bit b zero = b / 2 * 2 + 1
set_bit b (suc i) = set_bit (b / 2) i * 2 + b % 2

-- `b & !(1 << i)`.
unfoldable pub clear_bit : ℕ → ℕ → ℕ
clear_bit b zero = b / 2 * 2
clear_bit b (suc i) = clear_bit (b / 2) i * 2 + b % 2

-- `b.trailing_ones()` of a word of `w` bits.
unfoldable pub trailing_ones : ℕ → ℕ → ℕ
trailing_ones zero b = 0
trailing_ones (suc w) b = if b % 2 == 1 then suc (trailing_ones w (b / 2)) else 0

half_double : (x r : ℕ) → r < 2 → (x * 2 + r) / 2 ≡ x
half_double x r h = omega arith

half_zero : (x : ℕ) → x * 2 / 2 ≡ x
half_zero x = omega arith

low_double : (x r : ℕ) → r < 2 → (x * 2 + r) % 2 ≡ r
low_double x r h = omega arith

pub test_bit-set_bit :
    (b i j : ℕ) → test_bit (set_bit b i) j ≡ (if j == i then true else test_bit b j)
unfolding test_bit set_bit
test_bit-set_bit b zero zero = ground arith
test_bit-set_bit b zero (suc j) = rw (half_double (b / 2) 1 (omega arith)) (ground arith)
test_bit-set_bit b (suc i) zero = ground arith
test_bit-set_bit b (suc i) (suc j) =
    rw (half_double (set_bit (b / 2) i) (b % 2) (omega arith))
      (ground (arith, test_bit-set_bit (b / 2) i j))

pub test_bit-clear_bit :
    (b i j : ℕ) → test_bit (clear_bit b i) j ≡ (if j == i then false else test_bit b j)
unfolding test_bit clear_bit
test_bit-clear_bit b zero zero = ground arith
test_bit-clear_bit b zero (suc j) = rw (half_zero (b / 2)) (ground arith)
test_bit-clear_bit b (suc i) zero = ground arith
test_bit-clear_bit b (suc i) (suc j) =
    rw (half_double (clear_bit (b / 2) i) (b % 2) (omega arith))
      (ground (arith, test_bit-clear_bit (b / 2) i j))

pub set_bit-lt : (w b i : ℕ) → i < w → b < 2 ^ w → set_bit b i < 2 ^ w
unfolding set_bit
set_bit-lt zero b i h k = absurd (omega arith)
set_bit-lt (suc w) b zero h k = omega (arith, pow-suc 2 w)
set_bit-lt (suc w) b (suc i) h k =
    omega (arith, pow-suc 2 w, set_bit-lt w (b / 2) i (omega arith) (omega (arith, pow-suc 2 w)))

pub clear_bit-lt : (w b i : ℕ) → i < w → b < 2 ^ w → clear_bit b i < 2 ^ w
unfolding clear_bit
clear_bit-lt zero b i h k = absurd (omega arith)
clear_bit-lt (suc w) b zero h k = omega arith
clear_bit-lt (suc w) b (suc i) h k =
    omega (arith, pow-suc 2 w, clear_bit-lt w (b / 2) i (omega arith) (omega (arith, pow-suc 2 w)))

two_pow_pos : (w : ℕ) → 0 < 2 ^ w
two_pow_pos zero = omega arith
two_pow_pos (suc w) = omega (arith, pow-suc 2 w, two_pow_pos w)

-- In a word that is not all ones the trailing ones end at a zero.
pub trailing_ones_lem :
    (w b : ℕ)
    → b < 2 ^ w
    → b ≢ 2 ^ w - 1
    → (trailing_ones w b < w) × (test_bit b (trailing_ones w b) ≡ false)
unfolding trailing_ones test_bit
trailing_ones_lem zero b h n = absurd (omega arith)
trailing_ones_lem (suc w) b h n =
    ground
      (arith, pow-suc 2 w, two_pow_pos w, trailing_ones_lem w (b / 2) (omega (arith, pow-suc 2 w)))

pub test_bit_below_trailing : (w b j : ℕ) → j < trailing_ones w b → test_bit b j ≡ true
unfolding trailing_ones test_bit
test_bit_below_trailing zero b j h = absurd (omega arith)
test_bit_below_trailing (suc w) b zero h = ground arith
test_bit_below_trailing (suc w) b (suc j) h = ground (arith, test_bit_below_trailing w (b / 2) j)

pub test_bit_ones : (w j : ℕ) → j < w → test_bit (2 ^ w - 1) j ≡ true
unfolding test_bit
test_bit_ones zero j h = absurd (omega arith)
test_bit_ones (suc w) zero h = ground (arith, pow-suc 2 w, two_pow_pos w)
test_bit_ones (suc w) (suc j) h =
    let half : (2 ^ suc w - 1) / 2 ≡ 2 ^ w - 1 = omega (arith, pow-suc 2 w, two_pow_pos w) in
    rw half (test_bit_ones w j (omega arith))
