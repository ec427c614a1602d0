-- ===== src/Crc32/Bitwise.antt =====
-- The table against the division by the polynomial, bit by bit.
use Prim.Native.Nat.{bit_xor}
use deprecated_tcode.Common.Maps.{all_below, all_below_lem}
use deprecated_tcode.Common.{
  ℕ, zero, suc, ◌+◌, ◌*◌, ◌/◌, ◌%◌, ◌<◌, ◌≡◌, refl, sym, ◌∙◌, ap, ap₂, arith, Bool, true, ◌==◌,
  if◌then◌else◌, List, [], ◌∷◌, ◌++◌, get_or, Bool-cases, inl, inr, All,
}
use deprecated_tcode.Crc32.{table, update_byte, update}
use deprecated_tcode.Crc32.Xor.{xor_bit, xor-zero, xor_comm, xor_swap}

-- The polynomial of CRC-32, with its bits in reverse.
abbrev polynomial : ℕ
polynomial = 0xedb88320

-- One bit of the division.
unfoldable pub divide_bit : ℕ → ℕ
divide_bit x = if x % 2 == 1 then bit_xor (x / 2) polynomial else x / 2

unfoldable pub divide_bits : ℕ → ℕ → ℕ
divide_bits zero x = x
divide_bits (suc k) x = divide_bits k (divide_bit x)

-- The checksum of a byte, with no table.
unfoldable pub reference_byte : (crc byte : ℕ) → ℕ
reference_byte crc byte = divide_bits 8 (bit_xor byte crc)

is_right : ℕ → Bool
is_right i = get_or table i 0 == divide_bits 8 i

table_checked : all_below is_right 256 ≡ true
unfolding all_below is_right divide_bits divide_bit
table_checked = refl

table_lem : (i : ℕ) → i < 256 → get_or table i 0 ≡ divide_bits 8 i
unfolding is_right
table_lem i h = ground (arith, all_below_lem is_right 256 i table_checked h)

-- A word whose lowest bit is 0 passes through one bit of the division.
divide_bit-xor : (x m : ℕ) → divide_bit (bit_xor x (m * 2)) ≡ bit_xor (divide_bit x) m
unfolding divide_bit
divide_bit-xor x m =
    let b = xor_bit x (m * 2) in
    let half : m * 2 / 2 ≡ m = omega arith in
    let b' : bit_xor x (m * 2) ≡ bit_xor (x / 2) m * 2 + x % 2 =
      b ∙ ap (λ z. bit_xor (x / 2) z * 2 + (x + m * 2) % 2) half ∙ omega arith in
    let top : bit_xor x (m * 2) / 2 ≡ bit_xor (x / 2) m = omega (arith, b') in
    let low : bit_xor x (m * 2) % 2 ≡ x % 2 = omega (arith, b') in
    elim (Bool-cases (x % 2 == 1)) [
      | inl odd ↦ rw (low, top, odd) (xor_swap (x / 2) m polynomial)
      | inr even ↦ rw (low, top, even) refl
    ]

abbrev shifted : ℕ → ℕ → ℕ
shifted zero m = m
shifted (suc k) m = shifted k m * 2

divide_bits-xor :
    (k x m : ℕ) → divide_bits k (bit_xor x (shifted k m)) ≡ bit_xor (divide_bits k x) m
unfolding divide_bits
divide_bits-xor zero x m = refl
divide_bits-xor (suc k) x m =
    ap (divide_bits k) (divide_bit-xor x (shifted k m)) ∙ divide_bits-xor k (divide_bit x) m

-- A word is the sum, exclusive or not, of its low bits and the bits above them.
split_word :
    (k d q r : ℕ)
    → r < shifted k 1
    → bit_xor d (shifted k q + r) ≡ bit_xor (bit_xor d r) (shifted k q)
split_word zero d q r h =
    let none_left : r ≡ 0 = omega (arith, h) in
    let same : q + r ≡ q = omega (arith, h) in
    ap (bit_xor d) same ∙ sym (ap (λ z. bit_xor z q) (ap (bit_xor d) none_left ∙ xor-zero d))
split_word (suc k) d q r h =
    let s = shifted k q in
    let half : (s * 2 + r) / 2 ≡ s + r / 2 = omega arith in
    let half' : s * 2 / 2 ≡ s = omega arith in
    let dr = xor_bit d r in
    let top : bit_xor d r / 2 ≡ bit_xor (d / 2) (r / 2) = omega (arith, dr) in
    let left =
      xor_bit d (s * 2 + r) ∙ ap (λ z. bit_xor (d / 2) z * 2 + (d + (s * 2 + r)) % 2) half in
    let right =
      xor_bit (bit_xor d r) (s * 2)
      ∙ ap₂ (λ y z. bit_xor y z * 2 + (bit_xor d r + s * 2) % 2) top half' in
    omega (arith, left, right, dr, split_word k (d / 2) q (r / 2) (omega (arith, h)))

xor_below : (k a b : ℕ) → a < shifted k 1 → b < shifted k 1 → bit_xor a b < shifted k 1
xor_below zero a b ha hb =
    let e : b ≡ 0 = omega (arith, hb) in omega (arith, ap (bit_xor a) e ∙ xor-zero a, ha)
xor_below (suc k) a b ha hb =
    omega (arith, xor_bit a b, xor_below k (a / 2) (b / 2) (omega (arith, ha)) (omega (arith, hb)))

-- The table takes eight bits of the division at once.
update_byte_lem : (crc byte : ℕ) → byte < 256 → update_byte crc byte ≡ reference_byte crc byte
unfolding update_byte reference_byte
update_byte_lem crc byte h =
    let r = crc % 256 in
    let q = crc / 256 in
    let below : bit_xor byte r < 256 = xor_below 8 byte r (omega (arith, h)) (omega arith) in
    let whole : crc ≡ shifted 8 q + r = omega arith in
    ap (bit_xor q) (table_lem (bit_xor byte r) below)
    ∙ xor_comm q (divide_bits 8 (bit_xor byte r))
    ∙ sym (divide_bits-xor 8 (bit_xor byte r) q)
    ∙ ap (divide_bits 8) (sym (split_word 8 byte q r (omega arith)) ∙ ap (bit_xor byte) (sym whole))

-- The checksum of a list of bytes, with no table.
unfoldable pub reference : (crc : ℕ) → List ℕ → ℕ
reference crc [] = crc
reference crc (byte ∷ bytes) = reference (reference_byte crc byte) bytes

-- Updating with one block of bytes after another computes what the division of all of them by the
-- polynomial of CRC-32 leaves, bit by bit, from any word on.
pub update-update :
    (crc : ℕ) (xs ys : List ℕ)
    → All (λ b. b < 256) xs
    → All (λ b. b < 256) ys
    → update (update crc xs) ys ≡ reference crc (xs ++ ys)
unfolding update reference
update-update crc [] [] hx hy = refl
update-update crc [] (y ∷ ys) hx (h, hy) =
    update-update (update_byte crc y) [] ys tt hy
    ∙ ap (λ c. reference c ys) (update_byte_lem crc y h)
update-update crc (x ∷ xs) ys (h, hx) hy =
    update-update (update_byte crc x) xs ys hx hy
    ∙ ap (λ c. reference c (xs ++ ys)) (update_byte_lem crc x h)
