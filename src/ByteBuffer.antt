-- ===== src/ByteBuffer.antt =====
-- `byte_buffer` of src/byte_buffer.cpp: a block with a read and a write position.
-- A method takes the object and returns it changed, over the state of the block manager. The address
-- that a method's allocation may get from `malloc` is an argument. A failed `assert` and a read of a
-- dead block are `none`. `const` methods and the value that a method returns follow the source;
-- positions are 64-bit sizes and moves 32-bit ints, with the source's casts between them.
pub mod Holds
pub mod Move
pub mod Write
pub mod Read
pub mod Reserve
pub mod Assign
mod Tests
use deprecated_tcode.Common.{
  ℕ, ◌+◌, ◌-◌, ◌%◌, Bool, true, false, ◌==◌, ◌&&◌, Option, none, some, if◌then◌else◌, ltb, min,
}
use deprecated_tcode.Common.Maps.{update}
use deprecated_tcode.Common.Int.{ℤ, pos, negsuc, ltb_ℤ}
use deprecated_tcode.Common.Memory.{Memory, copy_range}
use deprecated_tcode.Common.Words.{
  add_size, sub_size, to_int, to_size, negate, min_int, max_int, size_mod,
}
use deprecated_tcode.Block
use deprecated_tcode.Block.{Manager, M, ◌>>=◌, ◌>>◌, pure}

pub record Position : Type 0 where
  pub read : ℕ
  pub write : ℕ

abbrev pub start : Position
start = record { read = 0; write = 0 }

pub record ByteBuffer : Type 0 where
  pub block : ℕ
  pub pos : Position

-- `byte_buffer( void )`, and an object that was moved from.
abbrev pub empty : ByteBuffer
empty = record { block = 0; pos = start }

-- A query of the manager that changes nothing.
abbrev pub query : {A : Type 0} → (Manager → Option A) → M A
query q m = elim (q m) [ none ↦ none | some a ↦ some (a, m) ]

abbrev pub alloc_block : (fresh size : ℕ) → M ℕ
alloc_block fresh size m = some (Block.alloc fresh size m)

-- `memcpy` or `memmove` into the block at `dst`.
abbrev pub copy_into : (dst start : ℕ) → Memory → (from n : ℕ) → M (Unit {0})
copy_into dst start src from n m =
    some
      (tt, record m { memory = update m.memory dst (copy_range (m.memory dst) start src from n) })

abbrev pub memory_of : (block : ℕ) → M Memory
memory_of block m = some (m.memory block, m)

unfoldable pub capacity : ByteBuffer → M ℕ
capacity b = query (Block.capacity b.block)

unfoldable pub length : ByteBuffer → ℕ
length b = sub_size b.pos.write b.pos.read

unfoldable pub space : ByteBuffer → M ℕ
space b = do c ← capacity b; pure (sub_size c b.pos.write)

-- `assert( _block != nullptr )` of both pointer methods; the pointer is the block and a position.
unfoldable pub assert_block : ByteBuffer → M (Unit {0})
assert_block b m = if b.block == 0 then none else some (tt, m)

abbrev moved_write : ByteBuffer → ℤ → ByteBuffer
moved_write b d = record b {
  pos = record { read = b.pos.read; write = add_size b.pos.write (to_size d) };
}

abbrev moved_read : ByteBuffer → ℤ → ByteBuffer
moved_read b d = record b {
  pos = record { read = add_size b.pos.read (to_size d); write = b.pos.write };
}

is_negative : ℤ → Bool
is_negative (pos _) = false
is_negative (negsuc _) = true

-- `wr_ptr( const int move )`.
unfoldable pub wr_ptr : ByteBuffer → ℤ → M (ByteBuffer × ℤ)
unfolding is_negative
wr_ptr b move =
    if is_negative move
    then (let realmove = max_int move (negate (to_int (length b))) in
        pure (moved_write b realmove, realmove))
    else do
      s ← space b
      let realmove = min_int move (to_int s)
      pure (moved_write b realmove, realmove)

-- `rd_ptr( const int move )`.
unfoldable pub rd_ptr : ByteBuffer → ℤ → ByteBuffer × ℤ
unfolding is_negative
rd_ptr b move =
    let realmove =
      if is_negative move
      then max_int move (negate (to_int b.pos.read))
      else min_int move (to_int (length b)) in
    (moved_read b realmove, realmove)

unfoldable pub clear : ByteBuffer → ByteBuffer
clear b = record b { pos = start }

unfoldable pub fit : ByteBuffer → M ByteBuffer
fit b = do
  assert_block b
  mem ← memory_of b.block
  copy_into b.block 0 mem b.pos.read (length b)
  pure (record b { pos = record { read = 0; write = length b } })

unfoldable pub shrink_to_fit : (fresh : ℕ) → ByteBuffer → M (ByteBuffer × ℤ)
shrink_to_fit fresh b = do
  block_for_fit ← alloc_block fresh (length b)
  assert_block b
  mem ← memory_of b.block
  copy_into block_for_fit 0 mem b.pos.read (length b)
  Block.free b.block
  let ret = to_int b.pos.read
  pure (record { block = block_for_fit; pos = record { read = 0; write = length b } }, ret)

-- `peak`: the caller's memory at `dst` after the copy, and the count.
unfoldable pub peak : ByteBuffer → Memory → ℕ → M (Memory × ℕ)
peak b dst sz = do
  let cpysize = min sz (length b)
  assert_block b
  mem ← memory_of b.block
  pure (copy_range dst 0 mem b.pos.read cpysize, cpysize)

unfoldable pub read : ByteBuffer → Memory → ℕ → M (ByteBuffer × Memory × ℕ)
read b dst sz = do
  (dst', cpysize) ← peak b dst sz
  pure ((rd_ptr b (to_int cpysize)).0, dst', cpysize)

-- `write`; the source stands at offset `from` of `src`.
unfoldable pub write : ByteBuffer → Memory → (from sz : ℕ) → M (ByteBuffer × ℕ)
write b src from sz = do
  s ← space b
  let cpysize = min sz s
  assert_block b
  copy_into b.block b.pos.write src from cpysize
  (b', realmove) ← wr_ptr b (to_int cpysize)
  pure (b', to_size realmove)

-- `byte_buffer( const std::size_t sz )`.
unfoldable pub create : (fresh sz : ℕ) → M ByteBuffer
create fresh sz = do p ← alloc_block fresh sz; pure (record { block = p; pos = start })

-- `byte_buffer( uint8_t* buf , const std::size_t len )`.
unfoldable pub create_from : (fresh : ℕ) → Memory → (from len : ℕ) → M ByteBuffer
create_from fresh buf from len = do b ← create fresh len; (b', _) ← write b buf from len; pure b'

-- The copy constructor, `duplicate( void )`.
unfoldable pub duplicate : ByteBuffer → M ByteBuffer
duplicate rhs = do p ← Block.duplicate rhs.block; pure (record rhs { block = p })

-- `copy( void )`.
unfoldable pub copy : (fresh : ℕ) → ByteBuffer → M ByteBuffer
copy fresh b = do p ← Block.copy fresh b.block; pure (record b { block = p })

-- The destructor.
unfoldable pub destruct : ByteBuffer → M (Unit {0})
destruct b = Block.free b.block

-- The move constructor: the new object, and the one that was moved from.
unfoldable pub move : ByteBuffer → ByteBuffer × ByteBuffer
move rhs = (rhs, empty)

-- `operator=( const byte_buffer& )`.
unfoldable pub assign : ByteBuffer → ByteBuffer → M ByteBuffer
assign b rhs = do
  p ← Block.duplicate rhs.block
  Block.free b.block
  pure (record { block = p; pos = rhs.pos })

-- `operator=( byte_buffer&& )` of two objects: the target, and the one that was moved from.
unfoldable pub assign_move : ByteBuffer → ByteBuffer → M (ByteBuffer × ByteBuffer)
assign_move b rhs = do b' ← assign b rhs; Block.free rhs.block; pure (b', empty)

unfoldable pub swap : ByteBuffer → ByteBuffer → ByteBuffer × ByteBuffer
swap b rhs = (rhs, b)

-- `reserve`: the test that keeps the block.
unfoldable pub keeps_block : ByteBuffer → ℤ → M Bool
keeps_block b sz = do
  r ← query (Block.refcount b.block)
  c ← capacity b
  pure ((r == 1) && ltb_ℤ sz (to_int c))

-- What the new block is filled with.
unfoldable pub refill : ByteBuffer → ByteBuffer → M ByteBuffer
refill nb b =
    if b.block == 0
    then pure nb
    else do mem ← memory_of b.block; (nb', _) ← write nb mem b.pos.read (length b); pure nb'

-- `nb`, the old buffer after the swap, is destructed at the end.
unfoldable pub reserve : (fresh : ℕ) → ByteBuffer → ℤ → M ByteBuffer
reserve fresh b sz = do
  keeps ← keeps_block b sz
  if keeps then pure b else do
    nb ← create fresh (to_size sz)
    nb' ← refill nb b
    destruct (swap b nb').1
    pure (swap b nb').0

unfoldable pub tell : ByteBuffer → Position
tell b = b.pos

unfoldable pub seek : ByteBuffer → Position → ByteBuffer
seek b p = record b { pos = p }

-- `sub_buffer`: the pointer is moved on by `start`, with no check of `start` or `len`.
unfoldable pub sub_buffer : (fresh : ℕ) → ByteBuffer → (start len : ℕ) → M ByteBuffer
sub_buffer fresh b start len = do
  assert_block b
  mem ← memory_of b.block
  create_from fresh mem (b.pos.read + start) len
