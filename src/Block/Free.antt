-- ===== src/Block/Free.antt =====
-- `free` and `duplicate` of `block_manager`: the reference count.
use deprecated_tcode.Common.{
  ℕ, ◌+◌, ◌-◌, ◌%◌, ◌≤◌, ◌<◌, ◌≡◌, ◌≢◌, inl, inr, refl, ◌∷◌, Option, none, some, arith, get_elem?,
  Bool-cases, ◌==◌, if◌then◌else◌,
}
use deprecated_tcode.Common.Maps.{update, update_id}
use deprecated_tcode.Common.Words.{int_mod}
use deprecated_tcode.FixedSizeAllocator.Bounds.{free_cases}
use deprecated_tcode.Block.{
  Manager, Header, alloc_size_table, give_back, destroy, free_header, free, duplicate,
}
use deprecated_tcode.Block.Classes.{class_of_sound}
use deprecated_tcode.Block.Sound.{
  IsSound, with_pool, IsSound-recount, IsSound-return, IsSound-discard,
}

-- What `free` promises of a block with header `h`: the last reference destroys it, any other is
-- given back; nothing else changes.
pub record Freed (m : Manager) (p : ℕ) (h : Header) (m' : Manager) : Type 0 where
  pub sound : IsSound m'
  pub header :
      m'.header p
      ≡ (if h.refcount == 1 then none else some (record h { refcount = h.refcount - 1 }))
  pub others : (q : ℕ) → q ≢ p → m'.header q ≡ m.header q
  pub memories : m'.memory ≡ m.memory

module _ (m : Manager) (p : ℕ) (h : Header) (s : IsSound m) (e : m.header p ≡ some h) where
  not_null : p ≢ 0
  not_null z = ground (arith, s.null_dead)

  give_back-Freed :
      (o : Option ℕ)
      → h.refcount ≡ 1
      → ((i : ℕ) → o ≡ some i → get_elem? alloc_size_table i ≡ some h.capacity)
      → (m' : Manager) × (give_back p m o ≡ some m') × Freed m p h m'
  unfolding give_back
  give_back-Freed none one class = (
    record m { header = update m.header p none; chunk = update m.chunk p none },
    refl,
    record {
      sound = IsSound-discard m p h s e;
      header = ground arith;
      others = λ q ne. ground arith;
      memories = refl;
    },
  )
  give_back-Freed (some i) one class = elim (free_cases p (m.pools i) not_null) [
    | inl (kept, _) ↦ (
      record (with_pool m i (p ∷ (m.pools i).pool)) { header = update m.header p none },
      rw (kept, give_back),
      record {
        sound = IsSound-return m p i h s e (class i refl);
        header = ground arith;
        others = λ q ne. ground arith;
        memories = refl;
      },
    )
    | inr (gone, _) ↦ (
      record m { header = update m.header p none; chunk = update m.chunk p none },
      rw (gone, give_back, update_id m.pools i),
      record {
        sound = IsSound-discard m p h s e;
        header = ground arith;
        others = λ q ne. ground arith;
        memories = refl;
      },
    )
  ]

  destroy-Freed : h.refcount ≡ 1 → (m' : Manager) × (destroy p h m ≡ some m') × Freed m p h m'
  unfolding destroy
  destroy-Freed one = give_back-Freed _ one (λ i found.
      let (k, at, entry) = class_of_sound alloc_size_table 0 h.capacity i found in
      rw (let same : i ≡ k = omega (arith, at) in same) entry)

  -- A block is alive with at most 2^32 - 1 references. Then `free` returns, and takes one of them.
  pub free-Freed :
      h.refcount < int_mod → (m' : Manager) × (free p m ≡ some (tt, m')) × Freed m p h m'
  unfolding free free_header
  free-Freed fits = elim (Bool-cases (h.refcount == 1)) [
    | inl last ↦
        let (m', done, freed) = destroy-Freed (ground arith) in
        (m', ground (arith, not_null, done), freed)
    | inr shared ↦
        let n = (h.refcount + int_mod - 1) % int_mod in
        let fewer : n ≡ h.refcount - 1 = ground (arith, s.live p h) in
        let left : 1 ≤ n = ground (arith, s.live p h) in
        (
          record m { header = update m.header p (some (record h { refcount = n })) },
          ground (arith, not_null),
          record {
            sound = IsSound-recount m p n h s e left;
            header = ground arith;
            others = λ q ne. ground arith;
            memories = refl;
          },
        )
  ]

  -- `duplicate` of such a block returns the same block with one more reference.
  pub duplicate_lem :
      h.refcount + 1 < int_mod
      → (m' : Manager) × (duplicate p m ≡ some (p, m'))
        × IsSound m'
        × (m'.header p ≡ some (record h { refcount = h.refcount + 1 }))
        × ((q : ℕ) → q ≢ p → m'.header q ≡ m.header q)
        × (m'.memory ≡ m.memory)
  unfolding duplicate
  duplicate_lem fits =
      let n = (h.refcount + 1) % int_mod in
      let more : n ≡ h.refcount + 1 = omega arith in
      let pos : 1 ≤ n = omega arith in
      (
        record m { header = update m.header p (some (record h { refcount = n })) },
        ground (arith, not_null),
        IsSound-recount m p n h s e pos,
        ground arith,
        λ q ne. ground arith,
        refl,
      )
