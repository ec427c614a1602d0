-- ===== src/ByteBuffer/Tests.antt =====
-- Buffers at concrete inputs.
use deprecated_tcode.Common.{ℕ, ◌+◌, ◌-◌, ◌*◌, ◌≡◌, ◌≢◌, ◌≤◌, refl, some, arith, min, ◌++◌}
use deprecated_tcode.Common.Int.{ℤ, pos}
use deprecated_tcode.Common.Memory.{Memory, bytes}
use deprecated_tcode.FixedSizeAllocator
use deprecated_tcode.Block.{Manager, Header, init, alloc, size_class, pool_alloc}
use deprecated_tcode.Block.Sound.{IsSound}
use deprecated_tcode.Block.Init.{init-IsSound}
use deprecated_tcode.Block.Alloc.{alloc-Allocated}
use deprecated_tcode.ByteBuffer.{ByteBuffer, wr_ptr, write, read, fit, reserve, assign}
use deprecated_tcode.ByteBuffer.Holds.{Holds, contents}
use deprecated_tcode.ByteBuffer.Move.{wr_ptr-Holds}
use deprecated_tcode.ByteBuffer.Write.{write_appends}
use deprecated_tcode.ByteBuffer.Read.{read_takes, fit_keeps}
use deprecated_tcode.ByteBuffer.Reserve.{Reserved, reserve-Reserved}
use deprecated_tcode.ByteBuffer.Assign.{dropped, assign_other, assign_same}

-- The byte at offset i of the block at p is 10 p + i.
abbrev new : Manager
new = init (λ p i. 10 * p + i)

abbrev one : Manager
one = (alloc 1 6 new).1

abbrev two : Manager
two = (alloc 2 6 one).1

abbrev eight : Header
eight = record { refcount = 1; capacity = 8 }

abbrev left : ByteBuffer
left = record { block = 1; pos = record { read = 2; write = 5 } }

abbrev right : ByteBuffer
right = record { block = 2; pos = record { read = 0; write = 3 } }

one-IsSound : IsSound one
unfolding init
one-IsSound = (alloc-Allocated 1 6 new (init-IsSound _) (omega arith) refl (omega arith)).sound

two-IsSound : IsSound two
unfolding init alloc size_class pool_alloc FixedSizeAllocator.alloc FixedSizeAllocator.init
two-IsSound = (alloc-Allocated 2 6 one one-IsSound (omega arith) refl (omega arith)).sound

left-Holds : Holds two left eight
unfolding init alloc size_class pool_alloc FixedSizeAllocator.alloc FixedSizeAllocator.init
left-Holds = record {
  ne_null = omega arith;
  alive = refl;
  ordered = omega arith;
  within = omega arith;
  small = omega arith;
}

right-Holds : Holds two right eight
unfolding init alloc size_class pool_alloc FixedSizeAllocator.alloc FixedSizeAllocator.init
right-Holds = record {
  ne_null = omega arith;
  alive = refl;
  ordered = omega arith;
  within = omega arith;
  small = omega arith;
}

abbrev source : Memory
source i = 100 + i

wr_ptr-Holds_example :
    (b' : ByteBuffer) × (d' : ℤ) × (wr_ptr left (pos 9) two ≡ some ((b', d'), two))
    × Holds two b' eight
    × (b'.pos.read ≡ 2)
wr_ptr-Holds_example = wr_ptr-Holds left-Holds (pos 9)

write_appends_example :
    (b' : ByteBuffer) × (n : ℕ) × (m' : Manager) × (write left source 0 4 two ≡ some ((b', n), m'))
    × (n ≡ min 4 (8 - 5))
    × Holds m' b' eight
    × (contents m' b' ≡ contents two left ++ bytes source 0 n)
    × ((q : ℕ) → q ≢ 1 → m'.memory q ≡ two.memory q)
    × ((i : ℕ) → 8 ≤ i → m'.memory 1 i ≡ two.memory 1 i)
    × (m'.header ≡ two.header)
write_appends_example = write_appends left-Holds source 0 4

read_takes_example :
    (b' : ByteBuffer) × (dst' : Memory) × (n : ℕ) × (read left source 2 two
      ≡ some ((b', dst', n), two))
    × (n ≡ min 2 (5 - 2))
    × Holds two b' eight
    × (contents two left ≡ bytes dst' 0 n ++ contents two b')
    × ((i : ℕ) → n ≤ i → dst' i ≡ source i)
read_takes_example = read_takes left-Holds source 2

fit_keeps_example :
    (b' : ByteBuffer) × (m' : Manager) × (fit left two ≡ some (b', m'))
    × Holds m' b' eight
    × (contents m' b' ≡ contents two left)
    × (b'.pos.read ≡ 0)
    × (8 - b'.pos.write ≡ 8 - 5 + 2)
    × ((q : ℕ) → q ≢ 1 → m'.memory q ≡ two.memory q)
    × (m'.header ≡ two.header)
fit_keeps_example = fit_keeps left-Holds

reserve-Reserved_example :
    (b' : ByteBuffer) × (m' : Manager) × (reserve 3 left (pos 20) two ≡ some (b', m'))
    × Reserved two left eight 20 b' m'
unfolding init alloc size_class pool_alloc FixedSizeAllocator.alloc FixedSizeAllocator.init
reserve-Reserved_example =
    reserve-Reserved two-IsSound left-Holds 20 (omega arith) 3 (omega arith) refl (omega arith)

assign_other_example :
    (m' : Manager) × (assign left right two ≡ some (right, m'))
    × IsSound m'
    × (m'.header 2 ≡ some (record { refcount = 1 + 1; capacity = 8 }))
    × (m'.header 1 ≡ dropped eight)
    × ((q : ℕ) → q ≢ 1 → q ≢ 2 → m'.header q ≡ two.header q)
    × (m'.memory ≡ two.memory)
assign_other_example =
    assign_other two-IsSound left-Holds right-Holds (omega arith) (omega arith) (omega arith)

assign_same_example :
    (m' : Manager) × (assign left left two ≡ some (left, m'))
    × IsSound m'
    × ((q : ℕ) → m'.header q ≡ two.header q)
    × (m'.memory ≡ two.memory)
assign_same_example = assign_same two-IsSound left-Holds left-Holds refl (omega arith)
