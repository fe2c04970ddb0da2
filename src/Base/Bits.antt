-- ===== src/Base/Bits.antt =====
-- The bits of a non-negative big.Int: Bit, SetBit and And of math/big, and their laws.
use Prim.Native.Nat.{bit_and, bit_and-bitwise, digits, min, ℕ, suc, zero, ◌%◌, ◌*◌, ◌+◌, ◌/◌, ◌≤◌}
use mathlib.Core.Path.{◌≡◌, refl}
use native.Mathlib.Omega.{arith}
use package.dauth.Base.Tests.{if◌then◌else◌, ◌==◌}

-- Bit `i` of `n`, the lowest first.
unfoldable pub bit : ℕ → ℕ → ℕ
bit n zero = n % 2
bit n (suc i) = bit (n / 2) i

-- `n` with bit `i` set to 1.
unfoldable pub set_bit : ℕ → ℕ → ℕ
set_bit n zero = n / 2 * 2 + 1
set_bit n (suc i) = set_bit (n / 2) i * 2 + n % 2

pub bit-set_bit : (n i j : ℕ) → bit (set_bit n i) j ≡ (if i == j then 1 else bit n j)
unfolding bit set_bit
bit-set_bit n zero zero = ground arith
bit-set_bit n zero (suc j) = let e : (n / 2 * 2 + 1) / 2 ≡ n / 2 = omega arith in ground (arith, e)
bit-set_bit n (suc i) zero = ground arith
bit-set_bit n (suc i) (suc j) =
    let e : (set_bit (n / 2) i * 2 + n % 2) / 2 ≡ set_bit (n / 2) i = omega arith in
    ground (arith, e, bit-set_bit (n / 2) i j)

pub bit-zero : (j : ℕ) → bit 0 j ≡ 0
unfolding bit
bit-zero zero = refl
bit-zero (suc j) = bit-zero j

and_fuel :
    (n m a b : ℕ) → a ≤ n → a ≤ m → digits (λ b. zero) min n a b ≡ digits (λ b. zero) min m a b
and_fuel zero zero a b p q = refl
and_fuel zero (suc m) zero b p q = refl
and_fuel zero (suc m) (suc a) b p q = absurd (omega arith)
and_fuel (suc n) zero zero b p q = refl
and_fuel (suc n) zero (suc a) b p q = absurd (omega arith)
and_fuel (suc n) (suc m) zero b p q = refl
and_fuel (suc n) (suc m) (suc a) b p q =
    omega (arith, and_fuel n m (suc a / 2) (b / 2) (omega arith) (omega arith))

-- The lowest bit of a conjunction, and the rest of it.
and_halves : (m n : ℕ) → min (m % 2) (n % 2) + 2 * bit_and (m / 2) (n / 2) ≡ bit_and m n
and_halves (suc k) n =
    let fuel = and_fuel k (suc k / 2) (suc k / 2) (n / 2) (omega arith) (omega arith) in
    omega (arith, fuel, bit_and-bitwise (suc k / 2) (n / 2), bit_and-bitwise (suc k) n)
and_halves zero n = omega (arith, bit_and-bitwise 0 (n / 2), bit_and-bitwise 0 n)

pub bit-bit_and : (a b j : ℕ) → bit (bit_and a b) j ≡ min (bit a j) (bit b j)
unfolding bit
bit-bit_and a b zero = omega (arith, and_halves a b)
bit-bit_and a b (suc j) =
    let e : bit_and a b / 2 ≡ bit_and (a / 2) (b / 2) = omega (arith, and_halves a b) in
    ground (arith, e, bit-bit_and (a / 2) (b / 2) j)

pub bit-le-one : (a j : ℕ) → bit a j ≤ 1
unfolding bit
bit-le-one a zero = omega arith
bit-le-one a (suc j) = bit-le-one (a / 2) j
