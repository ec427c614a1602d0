-- ===== src/Common/Memory.antt =====
-- Memory as functions from offsets to bytes, and what memcpy and memmove do to it.
use deprecated_tcode.Common.{
  ℕ, zero, suc, ◌+◌, ◌-◌, ◌<◌, ◌≤◌, ◌≡◌, refl, ap₂, ap, List, [], ◌∷◌, ◌++◌, ◌&&◌, arith, leb, ltb,
  if◌then◌else◌, length,
}

abbrev pub Memory : Type 0
Memory = ℕ → ℕ

-- `memcpy(dst + start, src + from, n)`. The source is read before the write, as `memmove` does.
unfoldable pub copy_range : (dst : Memory) (start : ℕ) (src : Memory) (from n : ℕ) → Memory
copy_range dst start src from n i =
    if leb start i && ltb i (start + n) then src (from + (i - start)) else dst i

-- The `n` bytes from offset `lo` on.
unfoldable pub bytes : Memory → ℕ → ℕ → List ℕ
bytes f lo zero = []
bytes f lo (suc n) = f lo ∷ bytes f (lo + 1) n

pub copy_range_inside :
    (dst : Memory) (start : ℕ) (src : Memory) (from n i : ℕ)
    → i < n
    → copy_range dst start src from n (start + i) ≡ src (from + i)
unfolding copy_range
copy_range_inside dst start src from n i h =
    let e : start + i - start ≡ i = omega arith in ground (arith, e)

pub copy_range_before :
    (dst : Memory) (start : ℕ) (src : Memory) (from n i : ℕ)
    → i < start
    → copy_range dst start src from n i ≡ dst i
unfolding copy_range
copy_range_before dst start src from n i h = ground arith

pub copy_range_after :
    (dst : Memory) (start : ℕ) (src : Memory) (from n i : ℕ)
    → start + n ≤ i
    → copy_range dst start src from n i ≡ dst i
unfolding copy_range
copy_range_after dst start src from n i h = ground arith

pub length-bytes : (f : Memory) (lo n : ℕ) → length (bytes f lo n) ≡ n
unfolding bytes
length-bytes f lo zero = refl
length-bytes f lo (suc n) = ap suc (length-bytes f (lo + 1) n)

-- Two memories that agree on the ranges hold the same bytes there.
pub bytes_ext :
    (f g : Memory) (lo from n : ℕ)
    → ((i : ℕ) → i < n → f (lo + i) ≡ g (from + i))
    → bytes f lo n ≡ bytes g from n
unfolding bytes
bytes_ext f g lo from zero h = refl
bytes_ext f g lo from (suc n) h =
    let a : lo + 0 ≡ lo = omega arith in
    let b : from + 0 ≡ from = omega arith in
    let first : f lo ≡ g from = ground (arith, a, b, h 0 (omega arith)) in
    ap₂ ◌∷◌ first (
      bytes_ext f g (lo + 1) (from + 1) n (λ i below.
        let c : lo + 1 + i ≡ lo + suc i = omega arith in
        let d : from + 1 + i ≡ from + suc i = omega arith in rw (c, d) (h (suc i) (omega arith))))

pub bytes-add : (f : Memory) (lo n m : ℕ) → bytes f lo (n + m) ≡ bytes f lo n ++ bytes f (lo + n) m
unfolding bytes
bytes-add f lo zero m =
    let a : zero + m ≡ m = omega arith in let b : lo + zero ≡ lo = omega arith in rw (a, b)
bytes-add f lo (suc n) m =
    let a : suc n + m ≡ suc (n + m) = omega arith in
    let b : lo + suc n ≡ lo + 1 + n = omega arith in
    rw (a, b) (ap (λ l. f lo ∷ l) (bytes-add f (lo + 1) n m))

-- What a copy writes can be read back.
pub bytes-copy_range :
    (dst : Memory) (start : ℕ) (src : Memory) (from n : ℕ)
    → bytes (copy_range dst start src from n) start n ≡ bytes src from n
bytes-copy_range dst start src from n =
    bytes_ext _ src start from n (λ i below. copy_range_inside dst start src from n i below)

-- A copy leaves the bytes before it alone.
pub bytes-copy_range_before :
    (dst : Memory) (start : ℕ) (src : Memory) (from n lo m : ℕ)
    → lo + m ≤ start
    → bytes (copy_range dst start src from n) lo m ≡ bytes dst lo m
bytes-copy_range_before dst start src from n lo m h =
    bytes_ext _ dst lo lo m
      (λ i below. copy_range_before dst start src from n (lo + i) (omega arith))

pub bytes-zero : (f : Memory) (lo : ℕ) → bytes f lo 0 ≡ []
unfolding bytes
bytes-zero f lo = refl
