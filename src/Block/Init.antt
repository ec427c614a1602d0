-- ===== src/Block/Init.antt =====
-- A new `block_manager` is sound.
use deprecated_tcode.Common.{
  ℕ, zero, suc, ◌+◌, ◌<◌, ◌≡◌, refl, List, [], ◌∷◌, some, arith, get_elem?,
}
use deprecated_tcode.Common.Memory.{Memory}
use deprecated_tcode.Common.Maps.{update}
use deprecated_tcode.FixedSizeAllocator
use deprecated_tcode.FixedSizeAllocator.{FixedSizeAllocator}
use deprecated_tcode.Block.{alloc_size_table, header_size, init_pools, init}
use deprecated_tcode.Block.Sound.{IsSound}

init_pools_below :
    (cs : List ℕ) (base j : ℕ) (pools : ℕ → FixedSizeAllocator)
    → j < base
    → init_pools cs base pools j ≡ pools j
unfolding init_pools
init_pools_below [] base j pools h = refl
init_pools_below (c ∷ cs) base j pools h = ground (
  arith,
  init_pools_below cs (suc base) j
      (update pools base (FixedSizeAllocator.init (c + header_size) (pools base)).0),
)

init_pools-alloc_size :
    (cs : List ℕ) (base k c : ℕ) (pools : ℕ → FixedSizeAllocator)
    → get_elem? cs k ≡ some c
    → (init_pools cs base pools (base + k)).alloc_size ≡ c + header_size
unfolding init_pools FixedSizeAllocator.init
init_pools-alloc_size [] base k c pools h = cc
init_pools-alloc_size (d ∷ cs) base zero c pools h =
    let at : base + 0 ≡ base = omega arith in
    rw at (
      ground (
        arith,
        init_pools_below cs (suc base) base
            (update pools base (FixedSizeAllocator.init (d + header_size) (pools base)).0),
      ))
init_pools-alloc_size (d ∷ cs) base (suc k) c pools h =
    let at : base + suc k ≡ suc base + k = omega arith in
    rw at (init_pools-alloc_size cs (suc base) k c _ h)

init_pools_empty :
    (cs : List ℕ) (base : ℕ) (pools : ℕ → FixedSizeAllocator)
    → ((j : ℕ) → (pools j).pool ≡ [])
    → (j : ℕ) → (init_pools cs base pools j).pool ≡ []
unfolding init_pools FixedSizeAllocator.init FixedSizeAllocator.clean_up
init_pools_empty [] base pools h j = h j
init_pools_empty (c ∷ cs) base pools h j =
    init_pools_empty cs (suc base) _ (λ i. ground (arith, h i)) j

-- The constructor leaves a manager that is sound: each pool is empty and makes chunks of its class.
pub init-IsSound : (memory : ℕ → Memory) → IsSound (init memory)
unfolding init
init-IsSound memory =
    let empty =
      init_pools_empty alloc_size_table 0 (λ _. record { alloc_size = 0; pool = [] }) (λ _. refl) in
    record {
      null_dead = refl;
      class_sizes = λ i c h.
          let at : 0 + i ≡ i = omega arith in
          rw at at (
            init_pools-alloc_size alloc_size_table 0 i c (λ _. record { alloc_size = 0; pool = [] })
              h);
      pooled_dead = λ i p h. refl;
      pooled_chunk = λ i p h. ground (arith, empty i);
      pooled_ne_null = λ i. rw (empty i);
      apart = λ i j p h k. ground (arith, empty i);
      distinct = λ i. rw (empty i) tt;
      live = λ p h e. cc;
      live_chunk = λ p h e. cc;
    }
