-- ===== src/ByteBuffer/Move.antt =====
-- `wr_ptr( const int )` and `rd_ptr( const int )` keep a buffer within its block.
use deprecated_tcode.Common.{ℕ, zero, suc, ◌+◌, ◌-◌, ◌≤◌, ◌≡◌, refl, some, arith, min}
use deprecated_tcode.Common.Int.{ℤ, pos, negsuc}
use deprecated_tcode.Common.Words.{
  negate, max_int, to_int_lem, to_size-pos, min_int-pos, add_size_lem, add_size-negate,
}
use deprecated_tcode.Block.{Manager, Header, ◌>>=◌}
use deprecated_tcode.ByteBuffer.{ByteBuffer, wr_ptr, rd_ptr}
use deprecated_tcode.ByteBuffer.Holds.{Holds, length_lem, space_lem}

abbrev pub with_read : ByteBuffer → ℕ → ByteBuffer
with_read b r = record b { pos = record { read = r; write = b.pos.write } }

abbrev pub with_write : ByteBuffer → ℕ → ByteBuffer
with_write b n = record b { pos = record { read = b.pos.read; write = n } }

-- `max( move , -k )` for a negative move is minus the smaller of the two.
max_int-negsuc : (n k : ℕ) → max_int (negsuc n) (negate (pos k)) ≡ negate (pos (min (suc n) k))
unfolding max_int negate
max_int-negsuc n zero = ground arith
max_int-negsuc n (suc k) = ground arith

module _ {m : Manager} {b : ByteBuffer} {h : Header} (w : Holds m b h) where
  pub moved : (r : ℕ) → r ≤ b.pos.write → Holds m (with_read b r) h
  moved r le = record {
    ne_null = w.ne_null;
    alive = w.alive;
    ordered = le;
    within = w.within;
    small = w.small;
  }

  pub written : (n : ℕ) → b.pos.read ≤ n → n ≤ h.capacity → Holds m (with_write b n) h
  written n le fits = record {
    ne_null = w.ne_null;
    alive = w.alive;
    ordered = le;
    within = fits;
    small = w.small;
  }

  -- A move of the write position forwards goes as far as there is space.
  pub wr_ptr-pos :
      (n : ℕ)
      → let k = min n (h.capacity - b.pos.write) in
        wr_ptr b (pos n) m ≡ some ((with_write b (b.pos.write + k), pos k), m)
  unfolding wr_ptr
  wr_ptr-pos n =
      let s = h.capacity - b.pos.write in
      rw (
        space_lem w,
        ◌>>=◌,
        to_int_lem s (omega (arith, w.small)),
        min_int-pos n s,
        to_size-pos (min n s) (omega (arith, w.small)),
        add_size_lem b.pos.write (min n s) (omega (arith, w.small, w.within)),
      )

  -- Backwards it goes as far as there are bytes.
  pub wr_ptr-negsuc :
      (n : ℕ)
      → let k = min (suc n) (b.pos.write - b.pos.read) in
        wr_ptr b (negsuc n) m ≡ some ((with_write b (b.pos.write - k), negate (pos k)), m)
  unfolding wr_ptr
  wr_ptr-negsuc n =
      let l = b.pos.write - b.pos.read in
      rw (
        length_lem w,
        to_int_lem l (omega (arith, w.small, w.within)),
        max_int-negsuc n l,
        add_size-negate b.pos.write (min (suc n) l) (omega arith) (omega (arith, w.small, w.within))
            (omega (arith, w.small, w.within)),
      )

  pub rd_ptr-pos :
      (n : ℕ)
      → let k = min n (b.pos.write - b.pos.read) in
        rd_ptr b (pos n) ≡ (with_read b (b.pos.read + k), pos k)
  unfolding rd_ptr
  rd_ptr-pos n =
      let l = b.pos.write - b.pos.read in
      rw (
        length_lem w,
        to_int_lem l (omega (arith, w.small, w.within)),
        min_int-pos n l,
        to_size-pos (min n l) (omega (arith, w.small, w.within)),
        add_size_lem b.pos.read (min n l) (omega (arith, w.small, w.within)),
      )

  pub rd_ptr-negsuc :
      (n : ℕ)
      → let k = min (suc n) b.pos.read in
        rd_ptr b (negsuc n) ≡ (with_read b (b.pos.read - k), negate (pos k))
  unfolding rd_ptr
  rd_ptr-negsuc n = rw (
    to_int_lem b.pos.read (omega (arith, w.small, w.within, w.ordered)),
    max_int-negsuc n b.pos.read,
    add_size-negate b.pos.read (min (suc n) b.pos.read) (omega arith)
        (omega (arith, w.small, w.within, w.ordered)) (omega (arith, w.small, w.within, w.ordered)),
  )

  -- Whatever int is given, `rd_ptr` leaves a buffer that holds its block: the read position neither
  -- passes the write position nor falls below 0, and the write position does not change.
  pub rd_ptr-Holds : (d : ℤ) → Holds m (rd_ptr b d).0 h × ((rd_ptr b d).0.pos.write ≡ b.pos.write)
  rd_ptr-Holds (pos n) = rw (rd_ptr-pos n) (moved _ (omega (arith, w.ordered)), refl)
  rd_ptr-Holds (negsuc n) = rw (rd_ptr-negsuc n) (moved _ (omega (arith, w.ordered)), refl)

  -- So does `wr_ptr`: it returns, the write position stays between the read position and the
  -- capacity, and neither the read position nor the manager changes.
  pub wr_ptr-Holds :
      (d : ℤ)
      → (b' : ByteBuffer) × (d' : ℤ) × (wr_ptr b d m ≡ some ((b', d'), m))
        × Holds m b' h
        × (b'.pos.read ≡ b.pos.read)
  wr_ptr-Holds (pos n) =
      (_, _, wr_ptr-pos n, written _ (omega (arith, w.ordered)) (omega (arith, w.within)), refl)
  wr_ptr-Holds (negsuc n) =
      (_, _, wr_ptr-negsuc n, written _ (omega (arith, w.ordered)) (omega (arith, w.within)), refl)
