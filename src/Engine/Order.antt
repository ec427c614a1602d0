-- ===== src/Engine/Order.antt =====
-- The list of timers stays sorted by due time, and equal due times keep their order.
use deprecated_tcode.Common.{
  ℕ, ◌+◌, ◌<◌, ◌≡◌, ◌≢◌, refl, ap, false, List, [], ◌∷◌, ◌++◌, arith, All, All-mono, Bool-cases,
  inl, inr,
}
use deprecated_tcode.Common.Maps.{has}
use deprecated_tcode.Common.Int.{◌≤ℤ◌, pos_part, neg_part}
use deprecated_tcode.Time.Stamp
use deprecated_tcode.Time.Stamp.{Timestamp}
use deprecated_tcode.Engine.{insert_timer}

infix 50 ◌≤ₜ◌ ◌<ₜ◌
abbrev pub ◌≤ₜ◌ : Timestamp → Timestamp → Type 0
a ≤ₜ b = a.tick ≤ℤ b.tick

abbrev pub ◌<ₜ◌ : Timestamp → Timestamp → Type 0
a <ₜ b = pos_part a.tick + neg_part b.tick < pos_part b.tick + neg_part a.tick

abbrev pub IsSorted : (ℕ → Timestamp) → List ℕ → Type 0
IsSorted at [] = Unit
IsSorted at (x ∷ xs) = All (λ y. at x ≤ₜ at y) xs × IsSorted at xs

-- Where a timer goes in: behind all that are due no later, before all that are due later.
pub record Placed (at : ℕ → Timestamp) (id : ℕ) (xs ys : List ℕ) : Type 0 where
  pub before : List ℕ
  pub after : List ℕ
  pub split : xs ≡ before ++ after
  pub placed : ys ≡ before ++ id ∷ after
  pub not_later : All (λ y. at y ≤ₜ at id) before
  pub later : All (λ y. at id <ₜ at y) after

-- `upper_bound` and `insert` on a sorted list put the timer behind every timer that is due no later
-- and before every one that is due later; the rest keeps its order.
pub insert_timer-Placed :
    (at : ℕ → Timestamp) (id : ℕ) (xs : List ℕ)
    → IsSorted at xs
    → Placed at id xs (insert_timer at id xs)
unfolding insert_timer Stamp.less
insert_timer-Placed at id [] s = record {
  before = [];
  after = [];
  split = refl;
  placed = refl;
  not_later = tt;
  later = tt;
}
insert_timer-Placed at id (x ∷ xs) s = elim (Bool-cases (Stamp.less (at id) (at x))) [
  | inl here ↦ record {
    before = [];
    after = x ∷ xs;
    split = refl;
    placed = rw here;
    not_later = tt;
    later = (ground arith, All-mono xs (λ y h. ground arith) s.0);
  }
  | inr there ↦
      let rest = insert_timer-Placed at id xs s.1 in
      record {
        before = x ∷ rest.before;
        after = rest.after;
        split = ap (λ l. x ∷ l) rest.split;
        placed = rw there (ap (λ l. x ∷ l) rest.placed);
        not_later = (ground arith, rest.not_later);
        later = rest.later;
      }
]

pub All-insert_timer :
    (P : ℕ → Type 0) (at : ℕ → Timestamp) (id : ℕ) (xs : List ℕ)
    → P id
    → All P xs
    → All P (insert_timer at id xs)
unfolding insert_timer
All-insert_timer P at id [] p h = (p, tt)
All-insert_timer P at id (x ∷ xs) p h = elim (Bool-cases (Stamp.less (at id) (at x))) [
  | inl here ↦ rw here (p, h)
  | inr there ↦ rw there (h.0, All-insert_timer P at id xs p h.1)
]

-- So it keeps the list sorted.
pub insert_timer-IsSorted :
    (at : ℕ → Timestamp) (id : ℕ) (xs : List ℕ)
    → IsSorted at xs
    → IsSorted at (insert_timer at id xs)
unfolding insert_timer Stamp.less
insert_timer-IsSorted at id [] s = (tt, tt)
insert_timer-IsSorted at id (x ∷ xs) s = elim (Bool-cases (Stamp.less (at id) (at x))) [
  | inl here ↦ rw here ((ground arith, All-mono xs (λ y h. ground arith) s.0), s)
  | inr there ↦ rw there (
    All-insert_timer (λ y. at x ≤ₜ at y) at id xs (ground arith) s.0,
    insert_timer-IsSorted at id xs s.1,
  )
]

-- The order depends on the due times of the timers in the list only.
pub IsSorted-ext :
    (at at' : ℕ → Timestamp) (xs : List ℕ)
    → All (λ y. at' y ≡ at y) xs
    → IsSorted at xs
    → IsSorted at' xs
IsSorted-ext at at' [] e s = tt
IsSorted-ext at at' (x ∷ xs) e s = (bounds xs e.1 s.0, IsSorted-ext at at' xs e.1 s.1)
  where
    bounds :
        (ys : List ℕ)
        → All (λ y. at' y ≡ at y) ys
        → All (λ y. at x ≤ₜ at y) ys
        → All (λ y. at' x ≤ₜ at' y) ys
    bounds [] f h = tt
    bounds (y ∷ ys) f h = (rw (e.0, f.0) h.0, bounds ys f.1 h.1)

-- Updating the due time of a timer that is not in the list changes nothing there.
pub All-outside :
    {A : Type 0} (f g : ℕ → A) (id : ℕ) (xs : List ℕ)
    → has id xs ≡ false
    → ((y : ℕ) → y ≢ id → f y ≡ g y)
    → All (λ y. f y ≡ g y) xs
All-outside f g id [] out h = tt
All-outside f g id (x ∷ xs) out h =
    (h x (λ e. ground arith), All-outside f g id xs (ground arith) h)
