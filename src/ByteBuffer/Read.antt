-- ===== src/ByteBuffer/Read.antt =====
-- `peak` and `read` take from the front of the readable bytes; `fit` moves them to the front.
use deprecated_tcode.Common.{ℕ, ◌+◌, ◌-◌, ◌≤◌, ◌≡◌, ◌≢◌, refl, sym, ◌∙◌, ap, ◌++◌, some, arith, min}
use deprecated_tcode.Common.Maps.{update, update_self}
use deprecated_tcode.Common.Memory.{
  Memory, copy_range, bytes, bytes-add, bytes-copy_range, copy_range_after,
}
use deprecated_tcode.Common.Words.{to_int_lem}
use deprecated_tcode.Block.{Manager, Header, ◌>>=◌}
use deprecated_tcode.ByteBuffer.{ByteBuffer, peak, read, fit}
use deprecated_tcode.ByteBuffer.Holds.{Holds, contents, length_lem, assert_lem}
use deprecated_tcode.ByteBuffer.Move.{with_read, rd_ptr-pos, moved}

module _ {m : Manager} {b : ByteBuffer} {h : Header} (w : Holds m b h) where
  pub peak_lem :
      (dst : Memory) (sz : ℕ)
      → let n = min sz (b.pos.write - b.pos.read) in
        peak b dst sz m ≡ some ((copy_range dst 0 (m.memory b.block) b.pos.read n, n), m)
  unfolding peak
  peak_lem dst sz = rw (assert_lem w, ◌>>=◌, length_lem w)

  pub read_lem :
      (dst : Memory) (sz : ℕ)
      → let n = min sz (b.pos.write - b.pos.read) in
        read b dst sz m
        ≡ some
            ((with_read b (b.pos.read + n), copy_range dst 0 (m.memory b.block) b.pos.read n, n), m)
  unfolding read
  read_lem dst sz =
      let n = min sz (b.pos.write - b.pos.read) in
      let again : min n (b.pos.write - b.pos.read) ≡ n = omega arith in
      rw (
        peak_lem dst sz,
        ◌>>=◌,
        to_int_lem n (omega (arith, w.small, w.within)),
        rd_ptr-pos w n,
        again,
      )

  -- `read` of `sz` bytes copies as many of them as are readable to `dst` and returns that count; the
  -- bytes copied and those left are the bytes that were readable before. The manager is unchanged.
  pub read_takes :
      (dst : Memory) (sz : ℕ)
      → (b' : ByteBuffer) × (dst' : Memory) × (n : ℕ) × (read b dst sz m ≡ some ((b', dst', n), m))
        × (n ≡ min sz (b.pos.write - b.pos.read))
        × Holds m b' h
        × (contents m b ≡ bytes dst' 0 n ++ contents m b')
        × ((i : ℕ) → n ≤ i → dst' i ≡ dst i)
  read_takes dst sz =
      let n = min sz (b.pos.write - b.pos.read) in
      let l = b.pos.write - b.pos.read in
      let mem = m.memory b.block in
      let split : l ≡ n + (b.pos.write - (b.pos.read + n)) = omega (arith, w.ordered) in
      (
        with_read b (b.pos.read + n),
        copy_range dst 0 mem b.pos.read n,
        n,
        read_lem dst sz,
        refl,
        moved w (b.pos.read + n) (omega (arith, w.ordered)),
        ap (bytes mem b.pos.read) split
            ∙ bytes-add mem b.pos.read n (b.pos.write - (b.pos.read + n))
            ∙ ap (λ l. l ++ bytes mem (b.pos.read + n) (b.pos.write - (b.pos.read + n)))
                (sym (bytes-copy_range dst 0 mem b.pos.read n)),
        λ i beyond. copy_range_after dst 0 mem b.pos.read n i (omega arith),
      )

  abbrev fitted : Manager
  fitted = record m {
    memory =
        update m.memory b.block (
          copy_range (m.memory b.block) 0 (m.memory b.block) b.pos.read (b.pos.write - b.pos.read));
  }

  abbrev front : ByteBuffer
  front = record b { pos = record { read = 0; write = b.pos.write - b.pos.read } }

  fit_lem : fit b m ≡ some (front, fitted)
  unfolding fit
  fit_lem = rw (assert_lem w, ◌>>=◌, length_lem w)

  -- `fit` moves the readable bytes to the front of the block: they stay the same, the read position
  -- is 0, and the space that had been read is writable. No other block changes.
  pub fit_keeps :
      (b' : ByteBuffer) × (m' : Manager) × (fit b m ≡ some (b', m'))
      × Holds m' b' h
      × (contents m' b' ≡ contents m b)
      × (b'.pos.read ≡ 0)
      × (h.capacity - b'.pos.write ≡ h.capacity - b.pos.write + b.pos.read)
      × ((q : ℕ) → q ≢ b.block → m'.memory q ≡ m.memory q)
      × (m'.header ≡ m.header)
  fit_keeps =
      let mem = m.memory b.block in
      let l = b.pos.write - b.pos.read in
      let all : l - 0 ≡ l = omega arith in
      (
        front,
        fitted,
        fit_lem,
        record {
          ne_null = w.ne_null;
          alive = w.alive;
          ordered = omega arith;
          within = omega (arith, w.within);
          small = w.small;
        },
        rw (update_self m.memory b.block (copy_range mem 0 mem b.pos.read l), all)
            (bytes-copy_range mem 0 mem b.pos.read l),
        refl,
        omega (arith, w.ordered, w.within),
        λ q ne. ground arith,
        refl,
      )
