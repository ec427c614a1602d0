-- ===== src/ByteBuffer/Write.antt =====
-- `write` appends to the readable bytes.
use deprecated_tcode.Common.{ℕ, ◌+◌, ◌-◌, ◌≤◌, ◌≡◌, ◌≢◌, refl, ap₂, ◌++◌, some, arith, min}
use deprecated_tcode.Common.Maps.{update, update_self}
use deprecated_tcode.Common.Memory.{
  Memory, copy_range, bytes, bytes-add, bytes-copy_range, bytes-copy_range_before, copy_range_after,
}
use deprecated_tcode.Common.Words.{to_int_lem, to_size-pos}
use deprecated_tcode.Block.{Manager, Header, ◌>>=◌}
use deprecated_tcode.ByteBuffer.{ByteBuffer, write}
use deprecated_tcode.ByteBuffer.Holds.{Holds, contents, space_lem, assert_lem}
use deprecated_tcode.ByteBuffer.Move.{with_write, wr_ptr-pos, written}

-- The manager after `n` bytes of `src` are copied to the write position.
abbrev pub stored : Manager → ByteBuffer → Memory → (from n : ℕ) → Manager
stored m b src from n = record m {
  memory = update m.memory b.block (copy_range (m.memory b.block) b.pos.write src from n);
}

module _ {m : Manager} {b : ByteBuffer} {h : Header} (w : Holds m b h) (src : Memory) where
  pub stored-Holds : (from n : ℕ) → Holds (stored m b src from n) b h
  stored-Holds from n = record {
    ne_null = w.ne_null;
    alive = w.alive;
    ordered = w.ordered;
    within = w.within;
    small = w.small;
  }

  -- The bytes that `write` stores, and the object that it leaves.
  pub write_lem :
      (from sz : ℕ)
      → let n = min sz (h.capacity - b.pos.write) in
        write b src from sz m ≡ some ((with_write b (b.pos.write + n), n), stored m b src from n)
  unfolding write
  write_lem from sz =
      let n = min sz (h.capacity - b.pos.write) in
      let again : min n (h.capacity - b.pos.write) ≡ n = omega arith in
      rw (
        space_lem w,
        ◌>>=◌,
        assert_lem w,
        to_int_lem n (omega (arith, w.small)),
        wr_ptr-pos (stored-Holds from n) n,
        again,
        to_size-pos n (omega (arith, w.small)),
      )

  -- The bytes that were stored stand behind those that were readable.
  pub contents-stored :
      (from n : ℕ)
      → contents (stored m b src from n) (with_write b (b.pos.write + n))
        ≡ contents m b ++ bytes src from n
  contents-stored from n =
      let l = b.pos.write - b.pos.read in
      let mem = copy_range (m.memory b.block) b.pos.write src from n in
      let total : b.pos.write + n - b.pos.read ≡ l + n = omega (arith, w.ordered) in
      let at : b.pos.read + l ≡ b.pos.write = omega (arith, w.ordered) in
      rw (update_self m.memory b.block mem, total, bytes-add mem b.pos.read l n, at)
        (ap₂ ◌++◌
          (bytes-copy_range_before (m.memory b.block) b.pos.write src from n b.pos.read l
            (omega (arith, w.ordered)))
          (bytes-copy_range (m.memory b.block) b.pos.write src from n))

  -- `write` of `sz` bytes to a buffer that holds its block stores as many of them as there is space,
  -- returns that count, and appends those bytes to the readable ones. It touches no other block, no
  -- byte beyond the capacity and no header.
  pub write_appends :
      (from sz : ℕ)
      → (b' : ByteBuffer) × (n : ℕ) × (m' : Manager) × (write b src from sz m ≡ some ((b', n), m'))
        × (n ≡ min sz (h.capacity - b.pos.write))
        × Holds m' b' h
        × (contents m' b' ≡ contents m b ++ bytes src from n)
        × ((q : ℕ) → q ≢ b.block → m'.memory q ≡ m.memory q)
        × ((i : ℕ) → h.capacity ≤ i → m'.memory b.block i ≡ m.memory b.block i)
        × (m'.header ≡ m.header)
  write_appends from sz =
      let n = min sz (h.capacity - b.pos.write) in
      (
        with_write b (b.pos.write + n),
        n,
        stored m b src from n,
        write_lem from sz,
        refl,
        written (stored-Holds from n) (b.pos.write + n) (omega (arith, w.ordered))
            (omega (arith, w.within)),
        contents-stored from n,
        λ q ne. ground arith,
        λ i beyond.
            rw (update_self m.memory b.block (copy_range (m.memory b.block) b.pos.write src from n))
              (copy_range_after (m.memory b.block) b.pos.write src from n i
                (omega (arith, w.within))),
        refl,
      )
