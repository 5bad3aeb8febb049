-- ===== src/Base/Bits.antt =====
-- `bit_or` of a multiple of a power of two and a number below that power.
use Prim.Native.Nat.{
  ℕ, zero, suc, ◌+◌, ◌*◌, ◌/◌, ◌%◌, ◌^◌, ◌≤◌, ◌<◌, max, bit_or, digits, bit_or-bitwise,
}
use mathlib.Core.Path.{◌≡◌, refl, ap, sym, ◌∙◌}
use native.Mathlib.Nat.{pow-suc, mul_assoc}
use native.Mathlib.Omega.{arith}

abbrev joined : ℕ → ℕ → ℕ → ℕ
joined n a b = digits (λ b. b) max n a b

-- The count of digits only has to be large enough.
joined_count : (n m a b : ℕ) → a ≤ n → a ≤ m → joined n a b ≡ joined m a b
joined_count zero zero a b p q = refl
joined_count zero (suc m) zero b p q = refl
joined_count zero (suc m) (suc a) b p q = absurd (omega arith)
joined_count (suc n) zero zero b p q = refl
joined_count (suc n) zero (suc a) b p q = absurd (omega arith)
joined_count (suc n) (suc m) zero b p q = refl
joined_count (suc n) (suc m) (suc a) b p q =
    omega (arith, joined_count n m (suc a / 2) (b / 2) (omega arith) (omega arith))

bit_or-zero_left : (b : ℕ) → bit_or 0 b ≡ b
bit_or-zero_left b = bit_or-bitwise 0 b

-- The lowest digit, and the rest.
bit_or-lowest : (a b : ℕ) → bit_or a b ≡ bit_or (a / 2) (b / 2) * 2 + max (a % 2) (b % 2)
bit_or-lowest zero b = omega (arith, bit_or-zero_left b, bit_or-zero_left (b / 2))
bit_or-lowest (suc a) b = omega (
  arith,
  bit_or-bitwise (suc a) b,
  bit_or-bitwise (suc a / 2) (b / 2),
  joined_count a (suc a / 2) (suc a / 2) (b / 2) (omega arith) (omega arith),
)

bit_or-zero_below : (n a : ℕ) → a ≤ n → bit_or a 0 ≡ a
bit_or-zero_below n zero h = bit_or-zero_left 0
bit_or-zero_below zero (suc a) h = absurd (omega arith)
bit_or-zero_below (suc n) (suc a) h =
    omega (arith, bit_or-lowest (suc a) 0, bit_or-zero_below n (suc a / 2) (omega arith))

pub bit_or-disjoint : (k a b : ℕ) → b < 2 ^ k → bit_or (a * 2 ^ k) b ≡ a * 2 ^ k + b
bit_or-disjoint zero a b h = ground (arith, bit_or-zero_below (a * 1) (a * 1) (omega arith))
bit_or-disjoint (suc k) a b h =
    let p : ℕ = a * 2 ^ k in
    let double : a * 2 ^ suc k ≡ p * 2 =
      ap (λ z. a * z) (pow-suc 2 k) ∙ sym (mul_assoc a (2 ^ k) 2) in
    let rest = bit_or-disjoint k a (b / 2) (omega (arith, pow-suc 2 k)) in
    let halved : p * 2 / 2 ≡ p = omega arith in
    let lowest : bit_or (p * 2) b ≡ bit_or p (b / 2) * 2 + max (p * 2 % 2) (b % 2) =
      let l = bit_or-lowest (p * 2) b in rw halved at l in
    rw double (omega (arith, lowest, rest))
