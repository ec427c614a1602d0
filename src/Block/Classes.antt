-- ===== src/Block/Classes.antt =====
-- The size classes of `block_manager`: the two loops over `alloc_size_table`.
use deprecated_tcode.Common.{
  ℕ, zero, suc, ◌+◌, ◌≤◌, ◌<◌, ◌≡◌, inl, inr, List, [], ◌∷◌, none, some, arith, leb, get_elem?,
  Bool-cases, ◌==◌,
}
use deprecated_tcode.Block.{size_class, class_of}

-- A class that is found is an entry of the table, and is large enough.
pub size_class_sound :
    (cs : List ℕ) (base size i c : ℕ)
    → size_class cs base size ≡ some (i, c)
    → (k : ℕ) × (i ≡ base + k) × (get_elem? cs k ≡ some c) × (size ≤ c)
unfolding size_class
size_class_sound [] base size i c h = cc
size_class_sound (d ∷ cs) base size i c h = elim (Bool-cases (leb size d)) [
  | inl fits ↦ (0, ground arith, ground arith, ground arith)
  | inr small ↦
      let (k, at, entry, fits) = size_class_sound cs (suc base) size i c (rw small at h) in
      (suc k, omega arith, entry, fits)
]

-- The entries before it are too small: the class is the first that fits.
pub size_class_first :
    (cs : List ℕ) (base size i c : ℕ)
    → size_class cs base size ≡ some (i, c)
    → (k d : ℕ) → base + k < i
    → get_elem? cs k ≡ some d
    → d < size
unfolding size_class
size_class_first [] base size i c h k d lt e = cc
size_class_first (x ∷ cs) base size i c h zero d lt e = ground arith
size_class_first (x ∷ cs) base size i c h (suc k) d lt e = elim (Bool-cases (leb size x)) [
  | inl fits ↦ ground arith
  | inr small ↦ size_class_first cs (suc base) size i c (rw small at h) k d (omega arith) e
]

-- No class is found only for a size above every entry.
pub size_class-none :
    (cs : List ℕ) (base size : ℕ)
    → size_class cs base size ≡ none
    → (k d : ℕ) → get_elem? cs k ≡ some d
    → d < size
unfolding size_class
size_class-none [] base size h k d e = cc
size_class-none (x ∷ cs) base size h zero d e = ground arith
size_class-none (x ∷ cs) base size h (suc k) d e =
    size_class-none cs (suc base) size (ground arith) k d e

pub class_of_sound :
    (cs : List ℕ) (base capacity i : ℕ)
    → class_of cs base capacity ≡ some i
    → (k : ℕ) × (i ≡ base + k) × (get_elem? cs k ≡ some capacity)
unfolding class_of
class_of_sound [] base capacity i h = cc
class_of_sound (d ∷ cs) base capacity i h = elim (Bool-cases (d == capacity)) [
  | inl same ↦ (0, ground arith, ground arith)
  | inr other ↦
      let (k, at, entry) = class_of_sound cs (suc base) capacity i (rw other at h) in
      (suc k, omega arith, entry)
]
