-- ===== src/Block/Alloc.antt =====
-- `alloc` of `block_manager`.
use deprecated_tcode.Common.{
  ℕ, zero, suc, ◌+◌, ◌≤◌, ◌<◌, ◌≡◌, ◌≢◌, inl, inr, refl, sym, ◌∙◌, fun_ext, List, [], ◌∷◌, none,
  some, arith, get_elem?, max, Option-cases, ap,
}
use deprecated_tcode.Common.Maps.{update}
use deprecated_tcode.Common.Words.{size_mod, add_size, add_size_lem}
use deprecated_tcode.FixedSizeAllocator
use deprecated_tcode.Block.{Manager, alloc_size_table, header_size, size_class, pool_alloc, alloc}
use deprecated_tcode.Block.Classes.{size_class_sound}
use deprecated_tcode.Block.Sound.{
  IsSound, IsFree, with_pool, IsSound-create, IsSound-take, IsSound-malloc,
}

-- `m'` is `m` with the chunk `p` taken out, and nothing else changed that a holder could see.
record Taken (m : Manager) (n p : ℕ) (m' : Manager) : Type 0 where
  sound : IsSound m'
  unheld : IsFree m' p n
  headers : m'.header ≡ m.header
  memories : m'.memory ≡ m.memory

-- An empty pool is left as it is, and `malloc` makes the chunk.
pool_alloc-nil :
    (fresh i : ℕ) (m : Manager)
    → (m.pools i).pool ≡ []
    → pool_alloc fresh i m
      ≡ (fresh, record m { chunk = update m.chunk fresh (some (m.pools i).alloc_size) })
unfolding pool_alloc FixedSizeAllocator.alloc
pool_alloc-nil fresh i m e =
    let same : update m.pools i (record { alloc_size = (m.pools i).alloc_size; pool = [] })
        ≡ m.pools =
      fun_ext (λ j. ground arith) in
    rw (e, same)

-- Otherwise the back of the pool is taken.
pool_alloc-cons :
    (fresh i p : ℕ) (ps : List ℕ) (m : Manager)
    → (m.pools i).pool ≡ p ∷ ps
    → pool_alloc fresh i m ≡ (p, with_pool m i ps)
unfolding pool_alloc FixedSizeAllocator.alloc
pool_alloc-cons fresh i p ps m e = rw e

module _ (fresh : ℕ) (m : Manager) (s : IsSound m) (ne : fresh ≢ 0)
    (new : m.chunk fresh ≡ none) where
  pool_alloc-Taken :
      (i : ℕ) (ps : List ℕ)
      → (m.pools i).pool ≡ ps
      → Taken m (m.pools i).alloc_size (pool_alloc fresh i m).0 (pool_alloc fresh i m).1
  pool_alloc-Taken i [] e =
      let (sound, unheld) = IsSound-malloc m fresh (m.pools i).alloc_size s ne new in
      rw (pool_alloc-nil fresh i m e)
        (record { sound = sound; unheld = unheld; headers = refl; memories = refl })
  pool_alloc-Taken i (p ∷ ps) e =
      let (sound, unheld) = IsSound-take m i p ps s e in
      rw (pool_alloc-cons fresh i p ps m e)
        (record { sound = sound; unheld = unheld; headers = refl; memories = refl })

-- The last entry of the table.
abbrev pub largest_class : ℕ
largest_class = 16384

abbrev AllLe : ℕ → List ℕ → Type 0
AllLe n [] = Unit
AllLe n (c ∷ cs) = (c ≤ n) × AllLe n cs

get_elem?-le : (n : ℕ) (cs : List ℕ) (k c : ℕ) → AllLe n cs → get_elem? cs k ≡ some c → c ≤ n
get_elem?-le n [] k c all e = cc
get_elem?-le n (d ∷ cs) zero c all e = ground arith
get_elem?-le n (d ∷ cs) (suc k) c all e = get_elem?-le n cs k c all.1 e

-- What `alloc` promises: a block that nobody held, with one reference and room for `size` bytes,
-- and no change to any other block or to the bytes.
pub record Allocated (m : Manager) (size p : ℕ) (m' : Manager) : Type 0 where
  pub capacity : ℕ
  pub sound : IsSound m'
  pub ne_null : p ≢ 0
  pub was_dead : m.header p ≡ none
  pub header : m'.header p ≡ some (record { refcount = 1; capacity = capacity })
  pub enough : size ≤ capacity
  pub bounded : capacity ≤ max size largest_class
  pub others : (q : ℕ) → q ≢ p → m'.header q ≡ m.header q
  pub memories : m'.memory ≡ m.memory

Allocated-create :
    (m m' : Manager) (size p c : ℕ)
    → Taken m (c + header_size) p m'
    → size ≤ c
    → c ≤ max size largest_class
    → Allocated m size p
        (record m' { header = update m'.header p (some (record { refcount = 1; capacity = c })) })
Allocated-create m m' size p c t h bound = record {
  capacity = c;
  sound =
      IsSound-create m' p (record { refcount = 1; capacity = c }) t.sound t.unheld (omega arith);
  ne_null = t.unheld.ne_null;
  was_dead = ap (λ f. f p) (sym t.headers) ∙ t.unheld.dead;
  header = ground arith;
  enough = h;
  bounded = bound;
  others = λ q ne. ground (arith, ap (λ f. f q) t.headers);
  memories = t.memories;
}

alloc-none :
    (fresh size : ℕ) (m : Manager)
    → size_class alloc_size_table 0 size ≡ none
    → alloc fresh size m ≡ (
      fresh,
      record m {
        chunk = update m.chunk fresh (some (add_size size header_size));
        header = update m.header fresh (some (record { refcount = 1; capacity = size }));
      },
    )
unfolding alloc
alloc-none fresh size m e = rw (e, alloc)

alloc-some :
    (fresh size i c : ℕ) (m : Manager)
    → size_class alloc_size_table 0 size ≡ some (i, c)
    → alloc fresh size m ≡ (
      (pool_alloc fresh i m).0,
      record ((pool_alloc fresh i m).1) {
        header =
            update
              (pool_alloc fresh i m).1.header
              (pool_alloc fresh i m).0
              (some (record { refcount = 1; capacity = c }));
      },
    )
unfolding alloc
alloc-some fresh size i c m e = rw (e, alloc)

-- Every allocation from a sound manager, out of a pool or from the system, gives a block that
-- nobody held, one reference to it and at least the bytes that were asked for; the manager stays
-- sound, and no other block and no byte changes. `malloc` returns an address that it does not
-- already have in use, and the size does not wrap with the header.
pub alloc-Allocated :
    (fresh size : ℕ) (m : Manager)
    → IsSound m
    → fresh ≢ 0
    → m.chunk fresh ≡ none
    → size + header_size < size_mod
    → Allocated m size (alloc fresh size m).0 (alloc fresh size m).1
alloc-Allocated fresh size m s ne new small =
    elim (Option-cases (size_class alloc_size_table 0 size)) [
      | inl e ↦
          let (sound, unheld) = IsSound-malloc m fresh (size + header_size) s ne new in
          rw (alloc-none fresh size m e, add_size_lem size header_size small)
            (Allocated-create m
              (record m { chunk = update m.chunk fresh (some (size + header_size)) }) size fresh
              size (record { sound = sound; unheld = unheld; headers = refl; memories = refl })
              (omega arith) (omega arith))
      | inr ((i, c), e) ↦
          let (k, at, entry, fits) = size_class_sound alloc_size_table 0 size i c e in
          let same : (m.pools i).alloc_size ≡ c + header_size =
            s.class_sizes i c (ground (arith, at)) in
          rw (alloc-some fresh size i c m e) (
            Allocated-create m _ size _ c
              (rw same at (pool_alloc-Taken fresh m s ne new i (m.pools i).pool refl)) fits
              (omega (arith, get_elem?-le largest_class alloc_size_table k c (omega arith) entry)))
    ]
