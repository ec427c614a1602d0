-- ===== src/FixedSizeAllocator/Bounds.antt =====
-- The pool of `fixed_size_allocator` stays bounded and `free` never reads an empty vector.
use deprecated_tcode.Common.{
  ℕ, ◌+◌, ◌≤◌, ◌<◌, ◌≡◌, refl, ◌≢◌, ◌⊎◌, inl, inr, List, [], ◌∷◌, ◌++◌, some, arith, length, ltb,
  Bool-cases,
}
use deprecated_tcode.FixedSizeAllocator.{
  FixedSizeAllocator, free_threshold, free_remains, trim, free,
}

-- The loop's test is false at once for a pool that is large enough.
pub trim_large : (ps : List ℕ) → free_remains ≤ length ps → trim ps ≡ some (ps, [])
unfolding trim
trim_large [] h = absurd (omega arith)
trim_large (p ∷ ps) h = ground arith

-- `free` always returns: it keeps the chunk, or gives that one chunk back to the system.
pub free_cases :
    (ptr : ℕ) (a : FixedSizeAllocator)
    → ptr ≢ 0
    → ((free ptr a ≡ some (record a { pool = ptr ∷ a.pool }, []))
        × (length a.pool ≤ free_threshold))
      ⊎ ((free ptr a ≡ some (a, ptr ∷ [])) × (free_threshold < length a.pool))
unfolding free
free_cases ptr a ne = elim (Bool-cases (ltb free_threshold (length a.pool))) [
  | inl full ↦ inr (ground (arith, trim_large a.pool (ground arith)), ground arith)
  | inr room ↦ inl (ground arith, ground arith)
]

-- Whatever is freed, `free` returns and gives exactly one chunk back, to the pool or to the system;
-- a pool of at most `free_threshold + 1` chunks stays one, and keeps its chunk size.
pub free_bounds :
    (ptr : ℕ) (a : FixedSizeAllocator)
    → ptr ≢ 0
    → length a.pool ≤ free_threshold + 1
    → (b : FixedSizeAllocator) × (freed : List ℕ) × (free ptr a ≡ some (b, freed))
      × (length b.pool ≤ free_threshold + 1)
      × (b.alloc_size ≡ a.alloc_size)
      × (freed ++ b.pool ≡ ptr ∷ a.pool)
free_bounds ptr a ne h = elim (free_cases ptr a ne) [
  | inl (e, room) ↦ (record a { pool = ptr ∷ a.pool }, [], e, omega arith, refl, refl)
  | inr (e, full) ↦ (a, ptr ∷ [], e, h, refl, refl)
]

-- Once the pool is over the threshold, `free` leaves it as it is: the loop that should shrink it to
-- `free_remains` chunks does not run, and each later `free` goes to the system.
pub free_full :
    (ptr : ℕ) (a : FixedSizeAllocator)
    → ptr ≢ 0
    → free_threshold < length a.pool
    → free ptr a ≡ some (a, ptr ∷ [])
free_full ptr a ne h = elim (free_cases ptr a ne) [
  | inl (e, room) ↦ absurd (omega arith)
  | inr (e, full) ↦ e
]
