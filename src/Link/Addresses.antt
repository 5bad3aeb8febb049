-- ===== src/Link/Addresses.antt =====
-- The first byte of a generated MAC address.
use Prim.Native.Nat.{bit_and, bit_or}
use native.Mathlib.Nat.{
  pow-suc, mul_comm, add-mul, mul_assoc, mul-add-mod_self_right, mod-eq_of_lt,
  mul-lt-mul_of_pos_right, mul-div_cancel, div-mul-le_self, div-add-mod, mod-lt, mul-add-div_right,
  div-eq_of_lt,
}
use kosmos.Base.Bits.{bit_or-disjoint}
use kosmos.Base.{
  ap, sym, ◌∙◌, ◌+◌, ◌*◌, ◌-◌, ◌^◌, ◌≤◌, ℕ, zero, suc, ◌<◌, ◌/◌, ◌%◌, ◌≡◌, refl, Bool, true, ◌&&◌,
  some, List, [], ◌∷◌, nat_beq, arith,
}
use kosmos.Link.Vxlan.{generate_mac, merge_ipv4}

-- Every number below a bound passes the test.
passes_below : ℕ → (ℕ → Bool) → Bool
passes_below zero test = true
passes_below (suc n) test = test n && passes_below n test

below : (n : ℕ) (test : ℕ → Bool) (b : ℕ) → passes_below n test ≡ true → b < n → test b ≡ true
unfolding passes_below
below zero test b h lt = absurd (omega arith)
below (suc n) test b h lt = ground (arith, below n test b)

first_byte_test : ℕ → Bool
first_byte_test b =
    nat_beq (bit_and (bit_or b 2) 0xfe % 2) 0 && nat_beq (bit_and (bit_or b 2) 0xfe / 2 % 2) 1

first_byte_table : passes_below 256 first_byte_test ≡ true
unfolding passes_below first_byte_test
first_byte_table = refl

abbrev pub IsLocalUnicast : List ℕ → Type 0
IsLocalUnicast [] = ⊥
IsLocalUnicast (b ∷ mac) = (b % 2 ≡ 0) × (b / 2 % 2 ≡ 1)

-- Whatever the first of the bytes that are read, the address that is generated from them is locally
-- administered and not a group address.
pub generate_mac-IsLocalUnicast :
    (b : ℕ) (rest : List ℕ) → b < 256 → IsLocalUnicast (generate_mac (some (b ∷ rest)))
unfolding generate_mac first_byte_test
generate_mac-IsLocalUnicast b rest h =
    let t = below 256 first_byte_test b first_byte_table h in (ground arith, ground arith)

pow-add : (a b : ℕ) → 2 ^ (a + b) ≡ 2 ^ a * 2 ^ b
pow-add zero b = grind arith
pow-add (suc a) b = let rest = pow-add a b in grind (arith, pow-suc 2 a, pow-suc 2 (a + b))

pow-positive : (a : ℕ) → zero < 2 ^ a
pow-positive zero = omega arith
pow-positive (suc a) = omega (arith, pow-suc 2 a, pow-positive a)

div-add-mod_left : (n m : ℕ) → n / m * m + n % m ≡ n
div-add-mod_left n m = ap (λ k. k + n % m) (mul_comm (n / m) m) ∙ div-add-mod n m

-- Shifting left and right again in a word of `h` and `m` bits drops the upper bits.
shift_twice :
    (q r high low : ℕ) → r < high → zero < low → (q * high + r) * low % (high * low) / low ≡ r
shift_twice q r high low h p =
    let split : (q * high + r) * low ≡ q * (high * low) + r * low =
      add-mul (q * high) r low ∙ ap (λ z. z + r * low) (mul_assoc q high low) in
    rw
      (
        split,
        mul-add-mod_self_right q (high * low) (r * low),
        mod-eq_of_lt (mul-lt-mul_of_pos_right h p),
      )
      (mul-div_cancel r p)

-- For a prefix of `m` bits, 32 at most, and two 32-bit addresses, the address that is generated has
-- the network part of the destination and the host part of the underlay address.
pub merge_ipv4-parts :
    (m dest ip : ℕ)
    → m ≤ 32
    → dest < 2 ^ 32
    → ip < 2 ^ 32
    → (merge_ipv4 m dest ip / 2 ^ (32 - m) ≡ dest / 2 ^ (32 - m))
      × (merge_ipv4 m dest ip % 2 ^ (32 - m) ≡ ip % 2 ^ (32 - m))
unfolding merge_ipv4
merge_ipv4-parts m dest ip le d i =
    let high = 2 ^ (32 - m) in
    let low = 2 ^ m in
    let positive : zero < high = pow-positive (32 - m) in
    let bits : (32 - m) + m ≡ 32 = omega arith in
    let word : high * low ≡ 4294967296 = sym (pow-add (32 - m) m) ∙ ap (λ k. 2 ^ k) bits in
    let upper : dest / high * high % 4294967296 ≡ dest / high * high =
      mod-eq_of_lt (omega (arith, div-mul-le_self dest high)) in
    let whole : ip / high * high + ip % high ≡ ip = div-add-mod_left ip high in
    let shifted =
      shift_twice (ip / high) (ip % high) high low (mod-lt ip positive) (pow-positive m) in
    let lower : ip * low % 4294967296 / low ≡ ip % high = rw (whole, word) at shifted in
    let both = bit_or-disjoint (32 - m) (dest / high) (ip % high) (mod-lt ip positive) in
    let small = mod-lt ip positive in
    rw (upper, lower, both)
      (
        mul-add-div_right positive (dest / high) (ip % high) ∙ omega (arith, div-eq_of_lt small),
        mul-add-mod_self_right (dest / high) high (ip % high) ∙ mod-eq_of_lt small,
      )
