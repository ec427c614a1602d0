-- ===== src/Crc32/Xor.antt =====
-- Laws of the exclusive or, from the law for its lowest bit.
use Prim.Native.Nat.{bit_xor, bit_xor-bitwise, digits, differ}
use deprecated_tcode.Common.{
  ℕ, zero, suc, ◌+◌, ◌*◌, ◌/◌, ◌%◌, ◌<◌, ◌≤◌, ◌≡◌, refl, sym, ◌∙◌, ap, arith,
}

abbrev xor_digits : ℕ → ℕ → ℕ → ℕ
xor_digits n a b = digits (λ b. b) differ n a b

enough_digits : (n k a b : ℕ) → a ≤ n → a ≤ k → xor_digits n a b ≡ xor_digits k a b
enough_digits zero zero a b h h' = refl
enough_digits zero (suc k) zero b h h' = refl
enough_digits zero (suc k) (suc a) b h h' = absurd (omega (arith, h))
enough_digits (suc n) zero zero b h h' = refl
enough_digits (suc n) zero (suc a) b h h' = absurd (omega (arith, h'))
enough_digits (suc n) (suc k) zero b h h' = refl
enough_digits (suc n) (suc k) (suc a) b h h' =
    omega (arith, enough_digits n k (suc a / 2) (b / 2) (omega (arith, h)) (omega (arith, h')))

zero-xor : (b : ℕ) → bit_xor 0 b ≡ b
zero-xor b = bit_xor-bitwise 0 b

differ_bits : (x y : ℕ) → x < 2 → y < 2 → differ x y ≡ (x + y) % 2
differ_bits zero y hx hy = omega (arith, hy)
differ_bits (suc zero) zero hx hy = omega arith
differ_bits (suc zero) (suc zero) hx hy = omega arith
differ_bits (suc zero) (suc (suc y)) hx hy = absurd (omega (arith, hy))
differ_bits (suc (suc x)) y hx hy = absurd (omega (arith, hx))

-- The lowest bit, and the bits above it.
pub xor_bit : (a b : ℕ) → bit_xor a b ≡ bit_xor (a / 2) (b / 2) * 2 + (a + b) % 2
xor_bit zero b = omega (arith, zero-xor b, zero-xor (b / 2))
xor_bit (suc a) b = omega (
  arith,
  bit_xor-bitwise (suc a) b,
  bit_xor-bitwise (suc a / 2) (b / 2),
  differ_bits (suc a % 2) (b % 2) (omega arith) (omega arith),
  enough_digits a (suc a / 2) (suc a / 2) (b / 2) (omega arith) (omega arith),
)

-- By induction on a bound of the operands, which halving makes smaller.
xor-zero_below : (n a : ℕ) → a ≤ n → bit_xor a 0 ≡ a
xor-zero_below n zero h = refl
xor-zero_below zero (suc a) h = absurd (omega (arith, h))
xor-zero_below (suc n) (suc a) h =
    omega (arith, xor_bit (suc a) 0, xor-zero_below n (suc a / 2) (omega (arith, h)))

pub xor-zero : (a : ℕ) → bit_xor a 0 ≡ a
xor-zero a = xor-zero_below a a (omega arith)

comm_below : (n a b : ℕ) → a ≤ n → bit_xor a b ≡ bit_xor b a
comm_below n zero b h = zero-xor b ∙ sym (xor-zero b)
comm_below zero (suc a) b h = absurd (omega (arith, h))
comm_below (suc n) (suc a) b h = omega (
  arith,
  xor_bit (suc a) b,
  xor_bit b (suc a),
  comm_below n (suc a / 2) (b / 2) (omega (arith, h)),
)

pub xor_comm : (a b : ℕ) → bit_xor a b ≡ bit_xor b a
xor_comm a b = comm_below a a b (omega arith)

swap_below : (n a b c : ℕ) → a ≤ n → bit_xor (bit_xor a b) c ≡ bit_xor (bit_xor a c) b
swap_below n zero b c h =
    ap (λ z. bit_xor z c) (zero-xor b) ∙ xor_comm b c ∙ sym (ap (λ z. bit_xor z b) (zero-xor c))
swap_below zero (suc a) b c h = absurd (omega (arith, h))
swap_below (suc n) (suc a) b c h =
    let ab = xor_bit (suc a) b in
    let ac = xor_bit (suc a) c in
    let half_ab : bit_xor (suc a) b / 2 ≡ bit_xor (suc a / 2) (b / 2) = omega (arith, ab) in
    let half_ac : bit_xor (suc a) c / 2 ≡ bit_xor (suc a / 2) (c / 2) = omega (arith, ac) in
    let left =
      xor_bit (bit_xor (suc a) b) c
      ∙ ap (λ z. bit_xor z (c / 2) * 2 + (bit_xor (suc a) b + c) % 2) half_ab in
    let right =
      xor_bit (bit_xor (suc a) c) b
      ∙ ap (λ z. bit_xor z (b / 2) * 2 + (bit_xor (suc a) c + b) % 2) half_ac in
    omega (arith, ab, ac, left, right, swap_below n (suc a / 2) (b / 2) (c / 2) (omega (arith, h)))

-- The order in which two words are added does not matter.
pub xor_swap : (a b c : ℕ) → bit_xor (bit_xor a b) c ≡ bit_xor (bit_xor a c) b
xor_swap a b c = swap_below a a b c (omega arith)
