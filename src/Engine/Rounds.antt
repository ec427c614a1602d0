-- ===== src/Engine/Rounds.antt =====
-- How many rounds `timer_drain` takes, and what inserting a timer does to its list.
use deprecated_tcode.Common.{
  ℕ, ◌+◌, ◌-◌, ◌/◌, ◌≤◌, ◌<◌, ◌≡◌, refl, Bool, true, false, ◌||◌, List, [], ◌∷◌, arith, Bool-cases,
  inl, inr, All, if◌then◌else◌, ◌==◌,
}
use deprecated_tcode.Common.Maps.{has, Distinct}
use deprecated_tcode.Common.Int.{ℤ, pos, negsuc, pos_part, neg_part, ◌≤ℤ◌, +ℤ_parts}
use deprecated_tcode.Time.Span
use deprecated_tcode.Time.Span.{Timespan}
use deprecated_tcode.Time.Stamp
use deprecated_tcode.Time.Stamp.{Timestamp}
use deprecated_tcode.Engine.{TimerId, repeats, insert_timer}

-- Microseconds from `d` to `ts`.
abbrev gap : Timestamp → Timestamp → ℕ
gap ts d = pos_part ts.tick + neg_part d.tick - (pos_part d.tick + neg_part ts.tick)

-- A timer due at `d` fires at most this often up to `ts`: a repeating one every millisecond.
unfoldable pub rounds : Timestamp → Timestamp → Bool → ℕ
rounds ts d again = if Stamp.less_equal d ts then (if again then gap ts d / 1000 + 1 else 1) else 0

unfoldable pub total : Timestamp → (ℕ → Timestamp) → (ℕ → Bool) → List ℕ → ℕ
total ts at again [] = 0
total ts at again (x ∷ xs) = rounds ts (at x) (again x) + total ts at again xs

pub rounds_late :
    (ts d : Timestamp) (again : Bool) → Stamp.less_equal d ts ≡ true → 1 ≤ rounds ts d again
unfolding rounds
rounds_late ts d true h = rw h (omega arith)
rounds_late ts d false h = rw h (omega arith)

-- A repeat that is not negative and counts as one is at least a millisecond.
repeats_millisecond :
    (t : TimerId)
    → repeats t ≡ true
    → pos 0 ≤ℤ t.repeat.delta
    → (r : ℕ) × (t.repeat.delta ≡ pos r) × (1000 ≤ r)
unfolding repeats Span.total_milliseconds Span.quot
repeats_millisecond t h le = go t.repeat.delta refl
  where
    go : (d : ℤ) → t.repeat.delta ≡ d → (r : ℕ) × (t.repeat.delta ≡ pos r) × (1000 ≤ r)
    go (pos r) e = (r, e, ground arith)
    go (negsuc n) e = absurd (ground arith)

-- So each firing brings a repeating timer nearer to the end.
pub rounds-plus :
    (ts : Timestamp) (t : TimerId)
    → repeats t ≡ true
    → pos 0 ≤ℤ t.repeat.delta
    → Stamp.less_equal t.due_time ts ≡ true
    → rounds ts (Stamp.plus t.due_time t.repeat) true < rounds ts t.due_time true
unfolding rounds Stamp.less_equal Stamp.plus Span.total_microseconds
rounds-plus ts t again le late =
    let (r, e, big) = repeats_millisecond t again le in
    ground (arith, +ℤ_parts t.due_time.tick t.repeat.delta)

pub total-insert_timer :
    (ts : Timestamp) (at' at : ℕ → Timestamp) (again : ℕ → Bool) (id : ℕ) (xs : List ℕ)
    → total ts at again (insert_timer at' id xs)
      ≡ rounds ts (at id) (again id) + total ts at again xs
unfolding total insert_timer
total-insert_timer ts at' at again id [] = refl
total-insert_timer ts at' at again id (x ∷ xs) = elim (Bool-cases (Stamp.less (at' id) (at' x))) [
  | inl here ↦ rw here
  | inr there ↦ rw there (omega (arith, total-insert_timer ts at' at again id xs))
]

pub total_ext :
    (ts : Timestamp) (at at' : ℕ → Timestamp) (again again' : ℕ → Bool) (xs : List ℕ)
    → All (λ y. at' y ≡ at y) xs
    → All (λ y. again' y ≡ again y) xs
    → total ts at' again' xs ≡ total ts at again xs
unfolding total
total_ext ts at at' again again' [] e f = refl
total_ext ts at at' again again' (x ∷ xs) e f =
    rw (e.0, f.0, total_ext ts at at' again again' xs e.1 f.1)

pub has-insert_timer :
    (at : ℕ → Timestamp) (id y : ℕ) (xs : List ℕ)
    → has y (insert_timer at id xs) ≡ ((y == id) || has y xs)
unfolding insert_timer
has-insert_timer at id y [] = refl
has-insert_timer at id y (x ∷ xs) = elim (Bool-cases (Stamp.less (at id) (at x))) [
  | inl here ↦ rw here
  | inr there ↦ rw (there, has-insert_timer at id y xs) (ground arith)
]

pub Distinct-insert_timer :
    (at : ℕ → Timestamp) (id : ℕ) (xs : List ℕ)
    → has id xs ≡ false
    → Distinct xs
    → Distinct (insert_timer at id xs)
unfolding insert_timer
Distinct-insert_timer at id [] out d = (refl, tt)
Distinct-insert_timer at id (x ∷ xs) out d = elim (Bool-cases (Stamp.less (at id) (at x))) [
  | inl here ↦ rw here (out, d)
  | inr there ↦ rw there (
    ground (arith, has-insert_timer at id x xs),
    Distinct-insert_timer at id xs (ground arith) d.1,
  )
]

pub total-cons :
    (ts : Timestamp) (at : ℕ → Timestamp) (again : ℕ → Bool) (x : ℕ) (xs : List ℕ)
    → total ts at again (x ∷ xs) ≡ rounds ts (at x) (again x) + total ts at again xs
unfolding total
total-cons ts at again x xs = refl
