-- ===== src/Common/Words.antt =====
-- The machine words of the sources: `std::size_t` has 64 bits and `int` has 32. A size is a native
-- number below `size_mod`, an int an integer from -2^31 to 2^31 - 1.
use deprecated_tcode.Common.{
  ℕ, zero, suc, ◌+◌, ◌-◌, ◌%◌, ◌^◌, ◌<◌, ◌≤◌, ◌≡◌, arith, ltb, if◌then◌else◌, min,
}
use deprecated_tcode.Common.Int.{ℤ, pos, negsuc}

abbrev pub size_mod : ℕ
size_mod = 2 ^ 64

abbrev pub int_mod : ℕ
int_mod = 2 ^ 32

abbrev pub int_max : ℕ
int_max = 2 ^ 31 - 1

-- `a + b` and `a - b` on `std::size_t`.
unfoldable pub add_size : ℕ → ℕ → ℕ
add_size a b = (a + b) % size_mod

unfoldable pub sub_size : ℕ → ℕ → ℕ
sub_size a b = (a + size_mod - b) % size_mod

-- `(int)n`.
unfoldable pub to_int : ℕ → ℤ
to_int n = let w = n % int_mod in if ltb w (2 ^ 31) then pos w else negsuc (int_mod - w - 1)

-- An int converted to `std::size_t`.
unfoldable pub to_size : ℤ → ℕ
to_size (pos n) = n % size_mod
to_size (negsuc n) = size_mod - 1 - n % size_mod

-- `-i`; at INT_MIN the sources' negation is undefined, and no caller that is within its bounds
-- meets it.
unfoldable pub negate : ℤ → ℤ
negate (pos zero) = pos 0
negate (pos (suc n)) = negsuc n
negate (negsuc n) = pos (suc n)

-- `std::min` and `std::max` on int.
unfoldable pub min_int : ℤ → ℤ → ℤ
min_int (pos a) (pos b) = pos (if ltb b a then b else a)
min_int (pos a) (negsuc b) = negsuc b
min_int (negsuc a) (pos b) = negsuc a
min_int (negsuc a) (negsuc b) = negsuc (if ltb a b then b else a)

unfoldable pub max_int : ℤ → ℤ → ℤ
max_int (pos a) (pos b) = pos (if ltb a b then b else a)
max_int (pos a) (negsuc b) = pos a
max_int (negsuc a) (pos b) = pos b
max_int (negsuc a) (negsuc b) = negsuc (if ltb b a then b else a)

pub sub_size_lem : (a b : ℕ) → b ≤ a → a < size_mod → sub_size a b ≡ a - b
unfolding sub_size
sub_size_lem a b h k = omega arith

pub add_size_lem : (a b : ℕ) → a + b < size_mod → add_size a b ≡ a + b
unfolding add_size
add_size_lem a b h = omega arith

pub to_int_lem : (n : ℕ) → n ≤ int_max → to_int n ≡ pos n
unfolding to_int
to_int_lem n h = ground arith

pub to_size-pos : (n : ℕ) → n ≤ int_max → to_size (pos n) ≡ n
unfolding to_size
to_size-pos n h = omega arith

pub min_int-pos : (a b : ℕ) → min_int (pos a) (pos b) ≡ pos (min a b)
unfolding min_int
min_int-pos a b = ground arith

-- Moving back by `k` in size arithmetic.
pub add_size-negate :
    (a k : ℕ) → k ≤ a → a < size_mod → k ≤ int_max → add_size a (to_size (negate (pos k))) ≡ a - k
unfolding add_size to_size negate
add_size-negate a zero h lt m = omega arith
add_size-negate a (suc k) h lt m = omega arith
