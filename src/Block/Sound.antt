-- ===== src/Block/Sound.antt =====
-- The invariant of `block_manager`: pools hold dead chunks of their size, live blocks fill theirs.
use deprecated_tcode.Common.{
  ℕ, ◌+◌, ◌≤◌, ◌≡◌, ◌≢◌, inl, inr, List, ◌∷◌, none, some, arith, get_elem?, Option-cases, true,
  false, Bool,
}
use deprecated_tcode.Common.Maps.{update, has, Distinct}
use deprecated_tcode.Common.Memory.{Memory}
use deprecated_tcode.Block.{Manager, Header, alloc_size_table, header_size}

abbrev pub is_pooled : Manager → ℕ → ℕ → Bool
is_pooled m i p = has p (m.pools i).pool

pub record IsSound (m : Manager) : Type 0 where
  pub null_dead : m.header 0 ≡ none
  pub class_sizes :
      (i c : ℕ) → get_elem? alloc_size_table i ≡ some c → (m.pools i).alloc_size ≡ c + header_size
  pub pooled_dead : (i p : ℕ) → is_pooled m i p ≡ true → m.header p ≡ none
  pub pooled_chunk : (i p : ℕ) → is_pooled m i p ≡ true → m.chunk p ≡ some (m.pools i).alloc_size
  pub pooled_ne_null : (i : ℕ) → is_pooled m i 0 ≡ false
  pub apart : (i j p : ℕ) → is_pooled m i p ≡ true → is_pooled m j p ≡ true → i ≡ j
  pub distinct : (i : ℕ) → Distinct (m.pools i).pool
  pub live : (p : ℕ) (h : Header) → m.header p ≡ some h → 1 ≤ h.refcount
  pub live_chunk :
      (p : ℕ) (h : Header) → m.header p ≡ some h → m.chunk p ≡ some (h.capacity + header_size)

-- The address `p` is a chunk of `n` bytes that nobody holds.
pub record IsFree (m : Manager) (p n : ℕ) : Type 0 where
  pub ne_null : p ≢ 0
  pub dead : m.header p ≡ none
  pub sized : m.chunk p ≡ some n
  pub unpooled : (i : ℕ) → is_pooled m i p ≡ false

-- A free chunk of the right size can be given a header.
pub IsSound-create :
    (m : Manager) (p : ℕ) (h : Header)
    → IsSound m
    → IsFree m p (h.capacity + header_size)
    → 1 ≤ h.refcount
    → IsSound (record m { header = update m.header p (some h) })
IsSound-create m p h s f r = record {
  null_dead = ground (arith, s.null_dead, f.ne_null);
  class_sizes = s.class_sizes;
  pooled_dead = λ i q e. ground (arith, s.pooled_dead i q e, f.unpooled i);
  pooled_chunk = s.pooled_chunk;
  pooled_ne_null = s.pooled_ne_null;
  apart = s.apart;
  distinct = s.distinct;
  live = λ q g e. ground (arith, s.live q g);
  live_chunk = λ q g e. ground (arith, s.live_chunk q g, f.sized);
}

abbrev pub with_pool : Manager → ℕ → List ℕ → Manager
with_pool m i ps = record m {
  pools = update m.pools i (record { alloc_size = (m.pools i).alloc_size; pool = ps });
}

-- A pool that gives up its back is sound, and the chunk is free.
pub IsSound-take :
    (m : Manager) (i p : ℕ) (ps : List ℕ)
    → IsSound m
    → (m.pools i).pool ≡ p ∷ ps
    → IsSound (with_pool m i ps) × IsFree (with_pool m i ps) p (m.pools i).alloc_size
IsSound-take m i p ps s e = (
  record {
    null_dead = s.null_dead;
    class_sizes = λ j c g. ground (arith, s.class_sizes j c);
    pooled_dead = λ j q g. ground (arith, s.pooled_dead j q);
    pooled_chunk = λ j q g. ground (arith, s.pooled_chunk j q);
    pooled_ne_null = λ j. ground (arith, s.pooled_ne_null j);
    apart = λ j k q g h. ground (arith, s.apart j k q);
    distinct = λ j. ground (arith, s.distinct j);
    live = s.live;
    live_chunk = s.live_chunk;
  },
  record {
    ne_null = λ z. ground (arith, s.pooled_ne_null i);
    dead = ground (arith, s.pooled_dead i p);
    sized = ground (arith, s.pooled_chunk i p);
    unpooled = λ j. ground (arith, s.apart i j p, s.distinct i);
  },
)

-- What `malloc` returns is free when nothing holds it.
pub IsSound-malloc :
    (m : Manager) (fresh n : ℕ)
    → IsSound m
    → fresh ≢ 0
    → m.chunk fresh ≡ none
    → IsSound (record m { chunk = update m.chunk fresh (some n) })
      × IsFree (record m { chunk = update m.chunk fresh (some n) }) fresh n
IsSound-malloc m fresh n s ne new = (
  record {
    null_dead = s.null_dead;
    class_sizes = s.class_sizes;
    pooled_dead = s.pooled_dead;
    pooled_chunk = λ i q g. ground (arith, s.pooled_chunk i q);
    pooled_ne_null = s.pooled_ne_null;
    apart = s.apart;
    distinct = s.distinct;
    live = s.live;
    live_chunk = λ q h g. ground (arith, s.live_chunk q h);
  },
  record {
    ne_null = ne;
    dead = elim (Option-cases (m.header fresh)) [
      | inl e ↦ e
      | inr (h, e) ↦ ground (arith, s.live_chunk fresh h)
    ];
    sized = ground arith;
    unpooled = λ i. ground (arith, s.pooled_chunk i fresh);
  },
)

-- A header that lives can be changed to one of the same capacity and a positive count.
pub IsSound-recount :
    (m : Manager) (p n : ℕ) (h : Header)
    → IsSound m
    → m.header p ≡ some h
    → 1 ≤ n
    → IsSound (record m { header = update m.header p (some (record h { refcount = n })) })
IsSound-recount m p n h s e pos = record {
  null_dead = ground (arith, s.null_dead);
  class_sizes = s.class_sizes;
  pooled_dead = λ i q g. ground (arith, s.pooled_dead i q g);
  pooled_chunk = s.pooled_chunk;
  pooled_ne_null = s.pooled_ne_null;
  apart = s.apart;
  distinct = s.distinct;
  live = λ q g k. ground (arith, s.live q g);
  live_chunk = λ q g k. ground (arith, s.live_chunk q g, s.live_chunk p h);
}

-- A block can go to the pool of its class.
pub IsSound-return :
    (m : Manager) (p i : ℕ) (h : Header)
    → IsSound m
    → m.header p ≡ some h
    → get_elem? alloc_size_table i ≡ some h.capacity
    → IsSound (record (with_pool m i (p ∷ (m.pools i).pool)) { header = update m.header p none })
IsSound-return m p i h s e entry = record {
  null_dead = ground (arith, s.null_dead);
  class_sizes = λ j c g. ground (arith, s.class_sizes j c);
  pooled_dead = λ j q g. ground (arith, s.pooled_dead j q);
  pooled_chunk =
      λ j q g. ground (arith, s.pooled_chunk j q, s.live_chunk p h, s.class_sizes i h.capacity);
  pooled_ne_null = λ j. ground (arith, s.pooled_ne_null j, s.null_dead);
  apart = λ j k q g l. ground (arith, s.apart j k q, s.pooled_dead j p, s.pooled_dead k p);
  distinct = λ j. ground (arith, s.distinct j, s.pooled_dead i p);
  live = λ q g k. ground (arith, s.live q g);
  live_chunk = λ q g k. ground (arith, s.live_chunk q g);
}

-- A block can go back to the system.
pub IsSound-discard :
    (m : Manager) (p : ℕ) (h : Header)
    → IsSound m
    → m.header p ≡ some h
    → IsSound (record m { header = update m.header p none; chunk = update m.chunk p none })
IsSound-discard m p h s e = record {
  null_dead = ground (arith, s.null_dead);
  class_sizes = s.class_sizes;
  pooled_dead = λ i q g. ground (arith, s.pooled_dead i q g);
  pooled_chunk = λ i q g. ground (arith, s.pooled_chunk i q g, s.pooled_dead i q g);
  pooled_ne_null = s.pooled_ne_null;
  apart = s.apart;
  distinct = s.distinct;
  live = λ q g k. ground (arith, s.live q g);
  live_chunk = λ q g k. ground (arith, s.live_chunk q g);
}

-- The invariant says nothing of the bytes.
pub IsSound-memory : (m : Manager) (f : ℕ → Memory) → IsSound m → IsSound (record m { memory = f })
IsSound-memory m f s = record {
  null_dead = s.null_dead;
  class_sizes = s.class_sizes;
  pooled_dead = s.pooled_dead;
  pooled_chunk = s.pooled_chunk;
  pooled_ne_null = s.pooled_ne_null;
  apart = s.apart;
  distinct = s.distinct;
  live = s.live;
  live_chunk = s.live_chunk;
}
