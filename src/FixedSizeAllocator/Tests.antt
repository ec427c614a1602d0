-- ===== src/FixedSizeAllocator/Tests.antt =====
-- The pool at concrete inputs.
use deprecated_tcode.Common.{◌≡◌, refl, [], ◌∷◌, some}
use deprecated_tcode.FixedSizeAllocator.{FixedSizeAllocator, free}

abbrev two : FixedSizeAllocator
two = record { alloc_size = 24; pool = 8 ∷ 9 ∷ [] }

free_then_alloc : free 5 two ≡ some (record { alloc_size = 24; pool = 5 ∷ 8 ∷ 9 ∷ [] }, [])
unfolding free
free_then_alloc = refl
