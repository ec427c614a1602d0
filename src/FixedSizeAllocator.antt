-- ===== src/FixedSizeAllocator.antt =====
-- `fixed_size_allocator` of include/tcode/fixed_size_allocator.hpp: a pool of chunks of one size.
-- The vector `_pool` is a list with its back first. `std::malloc` returns the address that is given
-- as an argument; the addresses that are handed to `std::free` are returned, the first freed first.
-- The lock makes each method one step. The debug build's search for a double free is left out.
pub mod Bounds
mod Tests
use deprecated_tcode.Common.{
  ℕ, suc, Bool, ◌==◌, List, [], ◌∷◌, Option, none, some, ltb, if◌then◌else◌, length,
}
use mathlib.Core.Option

abbrev pub free_threshold : ℕ
free_threshold = 4096

-- `static_cast<std::size_t>(4096 * 0.8)`.
abbrev pub free_remains : ℕ
free_remains = 3276

-- `sizeof(void*)`.
abbrev pointer_size : ℕ
pointer_size = 8

pub record FixedSizeAllocator : Type 0 where
  pub alloc_size : ℕ
  pub pool : List ℕ

unfoldable pub clean_up : FixedSizeAllocator → FixedSizeAllocator × List ℕ
clean_up a = (record a { pool = [] }, a.pool)

-- The list holds what `clean_up` frees.
unfoldable pub init : ℕ → FixedSizeAllocator → FixedSizeAllocator × List ℕ
unfolding clean_up
init size a =
    let (b, freed) = clean_up a in
    (record b { alloc_size = if ltb size pointer_size then pointer_size else size }, freed)

take_back : ℕ → ℕ → List ℕ → FixedSizeAllocator × ℕ
take_back fresh size [] = (record { alloc_size = size; pool = [] }, fresh)
take_back fresh size (p ∷ ps) = (record { alloc_size = size; pool = ps }, p)

unfoldable pub alloc : (fresh : ℕ) → FixedSizeAllocator → FixedSizeAllocator × ℕ
unfolding take_back
alloc fresh a = take_back fresh a.alloc_size a.pool

-- `while (_pool.size() < FREE_REMAINS)`: what is left and what is freed. `back` of an empty vector
-- is undefined, `none`.
unfoldable pub trim : List ℕ → Option (List ℕ × List ℕ)
trim [] = none
trim (p ∷ ps) =
    if ltb (suc (length ps)) free_remains
    then Option.map (λ (rest, freed). (rest, p ∷ freed)) (trim ps)
    else some (p ∷ ps, [])

-- `free`: the pool keeps the chunk unless it holds more than `free_threshold` of them.
unfoldable pub free : ℕ → FixedSizeAllocator → Option (FixedSizeAllocator × List ℕ)
unfolding trim
free ptr a =
    if ptr == 0
    then some (a, [])
    else if ltb free_threshold (length a.pool)
    then Option.map (λ (rest, freed). (record a { pool = rest }, ptr ∷ freed)) (trim a.pool)
    else some (record a { pool = ptr ∷ a.pool }, [])
