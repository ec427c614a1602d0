-- ===== src/Common/Maps.antt =====
-- Maps as functions, and lists of addresses without repetition.
use deprecated_tcode.Common.{
  zero, suc, true, ◌&&◌, ◌<◌, ℕ, ◌≡◌, ◌≢◌, fun_ext, List, [], ◌∷◌, Bool, false, ◌||◌, arith, ◌==◌,
  if◌then◌else◌,
}

abbrev pub update {ℓ} : {A : Type ℓ} → (ℕ → A) → ℕ → A → ℕ → A
update f k v j = if j == k then v else f j

pub update_self {ℓ} : {A : Type ℓ} (f : ℕ → A) (k : ℕ) (v : A) → update f k v k ≡ v
update_self f k v = ground arith

pub update_ne {ℓ} : {A : Type ℓ} (f : ℕ → A) (k : ℕ) (v : A) (j : ℕ) → j ≢ k → update f k v j ≡ f j
update_ne f k v j h = ground arith

abbrev pub has : ℕ → List ℕ → Bool
has a [] = false
has a (p ∷ ps) = (a == p) || has a ps

abbrev pub Distinct : List ℕ → Type 0
Distinct [] = Unit
Distinct (p ∷ ps) = (has p ps ≡ false) × Distinct ps

pub update_id {ℓ} : {A : Type ℓ} (f : ℕ → A) (k : ℕ) → update f k (f k) ≡ f
update_id f k = fun_ext (λ j. ground arith)

-- A test of every number below a bound, by computation.
unfoldable pub all_below : (ℕ → Bool) → ℕ → Bool
all_below p zero = true
all_below p (suc n) = p n && all_below p n

pub all_below_lem : (p : ℕ → Bool) (n v : ℕ) → all_below p n ≡ true → v < n → p v ≡ true
unfolding all_below
all_below_lem p zero v e h = absurd (omega (arith, h))
all_below_lem p (suc n) v e h = ground (arith, e, all_below_lem p n v)
