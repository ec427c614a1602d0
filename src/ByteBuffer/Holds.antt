-- ===== src/ByteBuffer/Holds.antt =====
-- When a buffer holds a live block, and the bytes that can be read from it.
use deprecated_tcode.Common.{ℕ, ◌-◌, ◌≤◌, ◌≡◌, ◌≢◌, List, some, false, arith, ◌==◌}
use deprecated_tcode.Common.Memory.{bytes}
use deprecated_tcode.Common.Words.{int_max, sub_size_lem}
use deprecated_tcode.Block
use deprecated_tcode.Block.{Manager, Header, M, ◌>>=◌, pure}
use deprecated_tcode.ByteBuffer.{ByteBuffer, capacity, length, space, assert_block}

-- The buffer's block is alive with header `h`, of a capacity that an int can hold, and the
-- positions are in order and within it.
pub record Holds (m : Manager) (b : ByteBuffer) (h : Header) : Type 0 where
  pub ne_null : b.block ≢ 0
  pub alive : m.header b.block ≡ some h
  pub ordered : b.pos.read ≤ b.pos.write
  pub within : b.pos.write ≤ h.capacity
  pub small : h.capacity ≤ int_max

-- The bytes between the read and the write position.
abbrev pub contents : Manager → ByteBuffer → List ℕ
contents m b = bytes (m.memory b.block) b.pos.read (b.pos.write - b.pos.read)

module _ {m : Manager} {b : ByteBuffer} {h : Header} (w : Holds m b h) where
  pub length_lem : length b ≡ b.pos.write - b.pos.read
  unfolding length
  length_lem = sub_size_lem b.pos.write b.pos.read w.ordered (omega (arith, w.within, w.small))

  pub capacity_lem : capacity b m ≡ some (h.capacity, m)
  unfolding capacity Block.capacity
  capacity_lem = ground (arith, w.ne_null, w.alive)

  pub space_lem : space b m ≡ some (h.capacity - b.pos.write, m)
  unfolding space
  space_lem =
      rw
        (capacity_lem, ◌>>=◌, sub_size_lem h.capacity b.pos.write w.within (omega (arith, w.small)))

  pub assert_lem : assert_block b m ≡ some (tt, m)
  unfolding assert_block
  assert_lem = ground (arith, w.ne_null)

  pub refcount_lem : Block.refcount b.block m ≡ some h.refcount
  unfolding Block.refcount
  refcount_lem = ground (arith, w.ne_null, w.alive)

  pub not_null : (b.block == 0) ≡ false
  not_null = ground (arith, w.ne_null)
