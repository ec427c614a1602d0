-- ===== src/Operation/Room.antt =====
-- The memory that the buffers of an operation still cover, and what the loops over them in
-- src/io/ip/tcp/operation_read.cpp and operation_write.cpp take from it.
use deprecated_tcode.Common.{
  ℕ, zero, suc, ◌+◌, ◌-◌, ◌≤◌, ◌≡◌, refl, sym, ap, ap₂, ◌∙◌, min, true, List, [], ◌∷◌, ◌++◌, arith,
  length, drop, All, length-append,
}
use deprecated_tcode.Common.Int.{ℤ, pos, ltb_ℤ, ◌+ℤ◌, ◌-ℤ◌}
use deprecated_tcode.Common.Words.{
  int_max, to_int, to_size, min_int, to_int_lem, to_size-pos, min_int-pos,
}
use deprecated_tcode.Operation.{Buffer, len, set_buffer, skip, skipped, skips_left, skip_buffers}

-- The addresses that buffers cover, in order.
abbrev pub span : (buf len : ℕ) → List ℕ
span a zero = []
span a (suc n) = a ∷ span (suc a) n

abbrev pub room : List Buffer → List ℕ
room [] = []
room (b ∷ bs) = span b.buf b.iov_len ++ room bs

-- The length is an int.
abbrev pub IsSmall : Buffer → Type 0
IsSmall b = b.iov_len ≤ int_max

length-span : (a n : ℕ) → length (span a n) ≡ n
length-span a zero = refl
length-span a (suc n) = ap suc (length-span (suc a) n)

-- Buffers whose bytes an int counts have int lengths.
pub room-IsSmall : (bs : List Buffer) → length (room bs) ≤ int_max → All IsSmall bs
room-IsSmall [] h = tt
room-IsSmall (b ∷ bs) h =
    let size = length-append (span b.buf b.iov_len) (room bs) in
    let first = length-span b.buf b.iov_len in
    (omega (arith, h, size, first), room-IsSmall bs (omega (arith, h, size, first)))

parts :
    {x x' y y' z z' : ℕ} (rest : List ℕ)
    → x ≡ x'
    → y ≡ y'
    → z ≡ z'
    → span x y ++ drop z rest ≡ span x' y' ++ drop z' rest
parts rest e f g = rw (e, f, g) refl

drop-span_append :
    (n a len : ℕ) (rest : List ℕ)
    → drop n (span a len ++ rest)
      ≡ span (a + min n len) (len - min n len) ++ drop (n - min n len) rest
drop-span_append zero a len rest =
    parts {x' = a + min 0 len} {y' = len - min 0 len} {z = 0} {z' = 0 - min 0 len} rest
      (omega arith) (omega arith) (omega arith)
drop-span_append (suc n) a zero rest =
    parts {x = a} {x' = a + min (suc n) 0} {y = 0} {y' = 0 - min (suc n) 0} {z = suc n}
      {z' = suc n - min (suc n) 0} rest (omega arith) (omega arith) (omega arith)
drop-span_append (suc n) a (suc len) rest =
    drop-span_append n (suc a) len rest
    ∙ parts {x = suc a + min n len} {x' = a + min (suc n) (suc len)} {y = len - min n len}
        {y' = suc len - min (suc n) (suc len)} {z = n - min n len}
        {z' = suc n - min (suc n) (suc len)} rest (omega arith) (omega arith) (omega arith)

min_len : (n : ℕ) (b : Buffer) → IsSmall b → min_int (pos n) (len b) ≡ pos (min n b.iov_len)
unfolding len
min_len n b h = rw (to_int_lem b.iov_len h) (min_int-pos n b.iov_len)

minus_lem : (a b : ℕ) → b ≤ a → pos a -ℤ pos b ≡ pos (a - b)
unfolding ◌-ℤ◌
minus_lem a b h = ground (arith, h)

plus_lem : (a b : ℕ) → pos a +ℤ pos b ≡ pos (a + b)
unfolding ◌+ℤ◌
plus_lem a b = ground arith

is_positive : (n : ℕ) → ltb_ℤ (pos 0) (pos (suc n)) ≡ true
is_positive n = ground arith

-- A buffer of which the first `k` bytes are passed over.
abbrev behind : ℕ → Buffer → Buffer
behind k b = record { buf = b.buf + k; iov_len = b.iov_len - k }

skip_lem : (k : ℕ) (b : Buffer) → IsSmall b → k ≤ b.iov_len → skip (pos k) b ≡ behind k b
unfolding skip set_buffer len
skip_lem k b h le =
    let n : to_int b.iov_len -ℤ pos k ≡ pos (b.iov_len - k) =
      ap (λ z. z -ℤ pos k) (to_int_lem b.iov_len h) ∙ minus_lem b.iov_len k le in
    ap₂ {C = Buffer} (λ x y. record { buf = x; iov_len = y }) {x = b.buf + k - 0} {y = b.buf + k}
      (omega arith) (ap to_size n ∙ to_size-pos (b.iov_len - k) (omega (arith, h)))

skipped_lem : (n : ℕ) (b : Buffer) → IsSmall b → skipped (pos n) b ≡ behind (min n b.iov_len) b
unfolding skipped
skipped_lem zero b h =
    let empty_skip : b.iov_len ≡ b.iov_len - min 0 b.iov_len = omega arith in
    ap₂ {C = Buffer} (λ x y. record { buf = x; iov_len = y }) {x = b.buf}
      {y = b.buf + min 0 b.iov_len} (omega arith) empty_skip
skipped_lem (suc n) b h =
    rw (is_positive n, min_len (suc n) b h) (skip_lem (min (suc n) b.iov_len) b h (omega arith))

skips_left_lem : (n : ℕ) (b : Buffer) → IsSmall b → skips_left (pos n) b ≡ pos (n - min n b.iov_len)
unfolding skips_left
skips_left_lem zero b h = ap pos {x = 0} (omega arith)
skips_left_lem (suc n) b h =
    rw (is_positive n, min_len (suc n) b h)
      (minus_lem (suc n) (min (suc n) b.iov_len) (omega arith))

drop_nil : (n : ℕ) → drop {A = ℕ} n [] ≡ []
drop_nil zero = refl
drop_nil (suc n) = refl

-- One turn of the loops.
turn :
    (n m : ℕ) (b : Buffer) (bs : List Buffer)
    → IsSmall b
    → skip_buffers (pos n) (pos m) (b ∷ bs) ≡ (
        let k = min n b.iov_len in
        let rest = skip_buffers (pos (n - k)) (pos (m + (b.iov_len - k))) bs in
        (rest.0, behind k b ∷ rest.1))
unfolding skip_buffers len
turn n m b bs h =
    let k = min n b.iov_len in
    let left : to_int (b.iov_len - k) ≡ pos (b.iov_len - k) =
      to_int_lem (b.iov_len - k) (omega (arith, h)) in
    rw (skipped_lem n b h, skips_left_lem n b h, left, plus_lem m (b.iov_len - k)) refl

-- What the loops leave: the first bytes are passed over, whatever buffers they stand in.
pub record Skipped (n m : ℕ) (bs : List Buffer) (r : ℤ × List Buffer) : Type 0 where
  pub left : room r.1 ≡ drop n (room bs)
  pub remain : r.0 ≡ pos (m + length (room r.1))

pub skip_buffers_lem :
    (n m : ℕ) (bs : List Buffer) → All IsSmall bs → Skipped n m bs (skip_buffers (pos n) (pos m) bs)
unfolding skip_buffers
skip_buffers_lem n m [] h = record { left = sym (drop_nil n); remain = ap pos (omega arith) }
skip_buffers_lem n m (b ∷ bs) h =
    let k = min n b.iov_len in
    let r = skip_buffers (pos (n - k)) (pos (m + (b.iov_len - k))) bs in
    let rest = skip_buffers_lem (n - k) (m + (b.iov_len - k)) bs h.1 in
    rw (turn n m b bs h.0) record {
      left =
          ap (λ x. span (b.buf + k) (b.iov_len - k) ++ x) rest.left
          ∙ sym (drop-span_append n b.buf b.iov_len (room bs));
      remain =
          rest.remain
          ∙ ap pos (
              omega (
                arith,
                length-append (span (b.buf + k) (b.iov_len - k)) (room r.1),
                length-span (b.buf + k) (b.iov_len - k),
              ));
    }
