-- ===== src/Block.antt =====
-- `block_manager` of src/block.cpp: reference counted blocks of bytes out of pools.
-- A handle is the address of the block, 0 for nullptr; the header and the bytes behind it are kept
-- apart. `std::malloc` returns the address that is given as an argument, and its sizes are recorded
-- in `chunk`; it and `std::free` leave the bytes of every chunk alone. A method that reads the
-- header of a block that is not alive is undefined, `none`. Each method is one step: the count is
-- atomic and the pools are locked.
pub mod Classes
pub mod Sound
pub mod Init
pub mod Alloc
pub mod Free
mod Tests
use deprecated_tcode.Common.{
  ℕ, suc, ◌+◌, ◌-◌, ◌%◌, Bool, true, false, ◌==◌, List, [], ◌∷◌, Option, none, some, leb,
  if◌then◌else◌,
}
use deprecated_tcode.Common.Maps.{update}
use deprecated_tcode.Common.Memory.{Memory, copy_range}
use deprecated_tcode.Common.Words.{int_mod, add_size}
use deprecated_tcode.FixedSizeAllocator
use deprecated_tcode.FixedSizeAllocator.{FixedSizeAllocator}

abbrev pub alloc_size_table : List ℕ
alloc_size_table = 4 ∷ 8 ∷ 16 ∷ 32 ∷ 64 ∷ 256 ∷ 1024 ∷ 2048 ∷ 4096 ∷ 8192 ∷ 16384 ∷ []

-- `sizeof(block_hdr)`: an int, padding and a size of eight bytes.
abbrev pub header_size : ℕ
header_size = 16

-- The count is an `std::atomic<int>`, a bit pattern below `int_mod`.
pub record Header : Type 0 where
  pub refcount : ℕ
  pub capacity : ℕ

pub record Manager : Type 0 where
  pub pools : ℕ → FixedSizeAllocator
  pub header : ℕ → Option Header
  pub memory : ℕ → Memory
  pub chunk : ℕ → Option ℕ

-- A method on the manager.
abbrev pub M : Type 0 → Type 0
M A = Manager → Option (A × Manager)

infixl 5 ◌>>=◌ ◌>>◌
abbrev pub ◌>>=◌ : {A B : Type 0} → M A → (A → M B) → M B
◌>>=◌ m f s = elim (m s) [ none ↦ none | some (a, s') ↦ f a s' ]

abbrev pub ◌>>◌ : {B : Type 0} → M (Unit {0}) → M B → M B
m >> k = m >>= λ _. k

abbrev pub pure : {A : Type 0} → A → M A
pure a s = some (a, s)

-- The loop of the constructor: `init` of each pool, which frees nothing as the pools are new.
init_pools : List ℕ → ℕ → (ℕ → FixedSizeAllocator) → ℕ → FixedSizeAllocator
init_pools [] i pools = pools
init_pools (c ∷ cs) i pools =
    init_pools cs (suc i) (update pools i (FixedSizeAllocator.init (c + header_size) (pools i)).0)

-- The constructor, with the bytes that memory holds before.
unfoldable pub init : (ℕ → Memory) → Manager
unfolding init_pools
init memory = record {
  pools = init_pools alloc_size_table 0 (λ _. record { alloc_size = 0; pool = [] });
  header = λ _. none;
  memory = memory;
  chunk = λ _. none;
}

-- The loop of `alloc`: index and size of the first entry that is large enough.
unfoldable pub size_class : List ℕ → ℕ → ℕ → Option (ℕ × ℕ)
size_class [] i size = none
size_class (c ∷ cs) i size = if leb size c then some (i, c) else size_class cs (suc i) size

-- The loop of `free`: index of the entry that equals the capacity.
unfoldable pub class_of : List ℕ → ℕ → ℕ → Option ℕ
class_of [] i capacity = none
class_of (c ∷ cs) i capacity = if c == capacity then some i else class_of cs (suc i) capacity

is_empty : List ℕ → Bool
is_empty [] = true
is_empty (_ ∷ _) = false

-- `_fixed_size_allocators[i].alloc()`, with the chunk that `malloc` makes when the pool is empty.
unfoldable pub pool_alloc : (fresh i : ℕ) → Manager → ℕ × Manager
unfolding is_empty
pool_alloc fresh i m =
    let (a, p) = FixedSizeAllocator.alloc fresh (m.pools i) in
    let chunk' =
      if is_empty (m.pools i).pool
      then update m.chunk fresh (some (m.pools i).alloc_size)
      else m.chunk in
    (p, record m { pools = update m.pools i a; chunk = chunk' })

unfoldable pub alloc : (fresh size : ℕ) → Manager → ℕ × Manager
unfolding size_class pool_alloc
alloc fresh size m = elim (size_class alloc_size_table 0 size) [
  | some (i, c) ↦
      let (p, m') = pool_alloc fresh i m in
      (p, record m' { header = update m'.header p (some (record { refcount = 1; capacity = c })) })
  | none ↦ (
    fresh,
    record m {
      chunk = update m.chunk fresh (some (add_size size header_size));
      header = update m.header fresh (some (record { refcount = 1; capacity = size }));
    },
  )
]

drop_chunks : (ℕ → Option ℕ) → List ℕ → ℕ → Option ℕ
drop_chunks chunk [] = chunk
drop_chunks chunk (p ∷ ps) = drop_chunks (update chunk p none) ps

-- The chunk goes to the pool of its class, or with no class to the system.
give_back : (ptr : ℕ) → Manager → Option ℕ → Option Manager
unfolding drop_chunks
give_back ptr m none =
    some (record m { header = update m.header ptr none; chunk = update m.chunk ptr none })
give_back ptr m (some i) = elim (FixedSizeAllocator.free ptr (m.pools i)) [
  | none ↦ none
  | some (a, freed) ↦ some (record m {
    pools = update m.pools i a;
    header = update m.header ptr none;
    chunk = drop_chunks m.chunk freed;
  })
]

-- What `free` does once the last reference is gone.
destroy : (ptr : ℕ) → Header → Manager → Option Manager
unfolding class_of give_back
destroy ptr h m = give_back ptr m (class_of alloc_size_table 0 h.capacity)

-- `fetch_sub(1) == 1`.
free_header : (ptr : ℕ) → Header → Manager → Option Manager
unfolding destroy
free_header ptr h m =
    if h.refcount == 1
    then destroy ptr h m
    else some (record m {
      header =
          update m.header ptr (some (record h { refcount = (h.refcount + int_mod - 1) % int_mod }));
    })

unfoldable pub free : (ptr : ℕ) → M (Unit {0})
unfolding free_header
free ptr m = if ptr == 0 then some (tt, m) else elim (m.header ptr) [
  | none ↦ none
  | some h ↦ elim (free_header ptr h m) [ none ↦ none | some m' ↦ some (tt, m') ]
]

unfoldable pub realloc : (fresh ptr size : ℕ) → M ℕ
unfolding alloc free
realloc fresh ptr size m = if ptr == 0 then some (alloc fresh size m) else elim (m.header ptr) [
  | none ↦ none
  | some h ↦
      if leb size h.capacity
      then some (ptr, m)
      else let (nptr, m') = alloc fresh size m in
        let copied = record m' {
          memory =
              update m'.memory nptr (copy_range (m'.memory nptr) 0 (m'.memory ptr) 0 h.capacity);
        } in
        (free ptr >> pure nptr) copied
]

unfoldable pub capacity : (ptr : ℕ) → Manager → Option ℕ
capacity ptr m =
    if ptr == 0 then some 0 else elim (m.header ptr) [ none ↦ none | some h ↦ some h.capacity ]

unfoldable pub refcount : (ptr : ℕ) → Manager → Option ℕ
refcount ptr m =
    if ptr == 0 then some 0 else elim (m.header ptr) [ none ↦ none | some h ↦ some h.refcount ]

-- `fetch_add(1)`.
unfoldable pub duplicate : (ptr : ℕ) → M ℕ
duplicate ptr m = if ptr == 0 then some (0, m) else elim (m.header ptr) [
  | none ↦ none
  | some h ↦ some (
    ptr,
    record m {
      header = update m.header ptr (some (record h { refcount = (h.refcount + 1) % int_mod }));
    },
  )
]

unfoldable pub copy : (fresh ptr : ℕ) → M ℕ
unfolding alloc
copy fresh ptr m = if ptr == 0 then some (0, m) else elim (m.header ptr) [
  | none ↦ none
  | some h ↦
      let (cpy, m') = alloc fresh h.capacity m in
      some (
        cpy,
        record m' {
          memory = update m'.memory cpy (copy_range (m'.memory cpy) 0 (m'.memory ptr) 0 h.capacity);
        },
      )
]
