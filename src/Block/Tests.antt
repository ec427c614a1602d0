-- ===== src/Block/Tests.antt =====
-- The block manager at concrete inputs.
use deprecated_tcode.Common.{◌≡◌, refl, some, arith}
use deprecated_tcode.FixedSizeAllocator
use deprecated_tcode.Block.{Manager, Header, init, alloc, free, size_class, pool_alloc}
use deprecated_tcode.Block.Sound.{IsSound}
use deprecated_tcode.Block.Init.{init-IsSound}
use deprecated_tcode.Block.Alloc.{Allocated, alloc-Allocated}
use deprecated_tcode.Block.Free.{Freed, free-Freed}

abbrev new : Manager
new = init (λ _ _. 0)

-- A block of six bytes, in the class of eight.
abbrev one : Manager
one = (alloc 1 6 new).1

abbrev eight : Header
eight = record { refcount = 1; capacity = 8 }

one_header : one.header 1 ≡ some eight
unfolding alloc size_class pool_alloc init FixedSizeAllocator.alloc FixedSizeAllocator.init
one_header = refl

one-IsSound : IsSound one
unfolding init
one-IsSound = (alloc-Allocated 1 6 new (init-IsSound _) (omega arith) refl (omega arith)).sound

alloc-Allocated_example : Allocated new 6 (alloc 1 6 new).0 (alloc 1 6 new).1
unfolding init
alloc-Allocated_example = alloc-Allocated 1 6 new (init-IsSound _) (omega arith) refl (omega arith)

free-Freed_example : (m' : Manager) × (free 1 one ≡ some (tt, m')) × Freed one 1 eight m'
free-Freed_example = free-Freed one 1 eight one-IsSound one_header (omega arith)

-- The block comes back out of its pool, whatever `malloc` would return.
reuse : (m' : Manager) × (free 1 one ≡ some (tt, m')) × ((alloc 7 8 m').0 ≡ 1)
unfolding alloc size_class pool_alloc init free FixedSizeAllocator.alloc FixedSizeAllocator.init
    FixedSizeAllocator.free
reuse = (_, refl, refl)
