-- ===== src/Engine/Drain.antt =====
-- `timer_drain`: which timers it calls, in which order, which it leaves, and that it ends.
use deprecated_tcode.Common.{
  ℕ, zero, suc, ◌<◌, ◌≡◌, refl, sym, ◌∙◌, ap, Bool, true, false, ◌&&◌, ◌||◌, List, [], ◌∷◌, ◌++◌,
  some, append_assoc, append-nil, arith, All, All-mono, All-zip, Bool-cases, inl, inr,
  if◌then◌else◌, ◌==◌, ℕ_discrete,
}
use deprecated_tcode.Common.Maps.{has}
use deprecated_tcode.Common.Int.{pos, ◌≤ℤ◌, +ℤ_parts}
use deprecated_tcode.Time.Span
use deprecated_tcode.Time.Span.{Timespan}
use deprecated_tcode.Time.Stamp
use deprecated_tcode.Time.Stamp.{Timestamp}
use deprecated_tcode.Engine.{Engine, Code, success, Call, due, insert_timer, fire_first, drain_loop}
use deprecated_tcode.Engine.Order.{◌≤ₜ◌, ◌<ₜ◌, IsSorted, All-insert_timer}
use deprecated_tcode.Engine.Fire.{IsPassive, Fired, repeat_of, next_due, fire_first-Fired}
use deprecated_tcode.Engine.Rounds.{has-insert_timer}
use deprecated_tcode.Engine.Ready.{
  again, IsReady, total_rounds, late, fired-IsReady, fired_total, again_same, out, same_rest,
}

abbrev pub was_called : ℕ → List Call → Bool
was_called y [] = false
was_called y (c ∷ cs) = (y == c.id) || was_called y cs

abbrev pub InOrder : List Call → Type 0
InOrder [] = Unit
InOrder (c ∷ cs) = All (λ d. c.due ≤ₜ d.due) cs × InOrder cs

-- What `timer_drain` at the time `ts` does to an engine.
pub record Drained (ts : Timestamp) (e e' : Engine) : Type 0 where
  pub ready : IsReady e'
  pub calls : List Call
  pub trace : e'.trace ≡ e.trace ++ calls
  pub in_order : InOrder calls
  pub in_time : All (λ c. (c.due ≤ₜ ts) × (c.code ≡ success)) calls
  pub not_before : (d : Timestamp) → All (λ y. d ≤ₜ due e y) e.timers → All (λ c. d ≤ₜ c.due) calls
  pub called : (y : ℕ) → was_called y calls ≡ (has y e.timers && late ts e y)
  pub kept :
      (y : ℕ) → has y e'.timers ≡ (has y e.timers && (if late ts e y then again e y else true))
  pub none_late : All (λ y. ts <ₜ due e' y) e'.timers

less_equal→≤ₜ : (a b : Timestamp) → Stamp.less_equal a b ≡ true → a ≤ₜ b
unfolding Stamp.less_equal
less_equal→≤ₜ a b h = ground arith

plus_later : (d t : Timestamp) (s : Timespan) → d ≤ₜ t → pos 0 ≤ℤ s.delta → d ≤ₜ Stamp.plus t s
unfolding Stamp.plus Span.total_microseconds
plus_later d t s h k = omega (arith, +ℤ_parts t.tick s.delta)

-- With nothing late there is nothing to do.
not_late :
    (ts : Timestamp) (at : ℕ → Timestamp) (y : ℕ) (xs : List ℕ)
    → All (λ x. ts <ₜ at x) xs
    → has y xs ≡ true
    → Stamp.less_equal (at y) ts ≡ false
unfolding Stamp.less_equal
not_late ts at y [] h m = cc
not_late ts at y (x ∷ xs) h m = elim (ℕ_discrete y x) [
  | yes e ↦ rw e (ground arith)
  | no ne ↦ not_late ts at y xs h.1 (ground arith)
]

idle-Drained :
    (ts : Timestamp) (e : Engine) → IsReady e → All (λ y. ts <ₜ due e y) e.timers → Drained ts e e
idle-Drained ts e r later = record {
  ready = r;
  calls = [];
  trace = sym (append-nil e.trace);
  in_order = tt;
  in_time = tt;
  not_before = λ d h. tt;
  called = λ y. ground (arith, not_late ts (due e) y e.timers later);
  kept = λ y. ground (arith, not_late ts (due e) y e.timers later);
  none_late = later;
}

module _ {e e' : Engine} {id : ℕ} {rest : List ℕ} (split : e.timers ≡ id ∷ rest) (r : IsReady e)
    (f : Fired e id rest e') where
  has_fired : (y : ℕ) → has y e'.timers ≡ ((again e id && (y == id)) || has y rest)
  has_fired y = elim (Bool-cases (again e id)) [
    | inl back ↦
        let t : e'.timers ≡ insert_timer (due e') id rest = rw back at f.timers in
        rw back (ap (has y) t ∙ has-insert_timer (due e') id y rest)
    | inr gone ↦ let t : e'.timers ≡ rest = rw gone at f.timers in rw gone (ap (has y) t)
  ]

  has_split : (y : ℕ) → has y e.timers ≡ ((y == id) || has y rest)
  has_split y = ap (has y) split

  -- A bound on the due times stays one.
  raised :
      (d : Timestamp) → All (λ y. d ≤ₜ due e y) (id ∷ rest) → All (λ y. d ≤ₜ due e' y) e'.timers
  raised d h =
      let rest_raised : All (λ y. d ≤ₜ due e' y) rest =
        All-zip (λ y s b. rw s b) rest (same_rest split r f) h.1 in
      elim (Bool-cases (again e id)) [
        | inl back ↦
            let t : e'.timers ≡ insert_timer (due e') id rest = rw back at f.timers in
            let n : due e' id ≡ next_due e id = rw back at f.due_next in
            let low : d ≤ₜ due e' id =
              rw n (plus_later d (due e id) (repeat_of e id) h.0 (r.forward id)) in
            rw t (All-insert_timer (λ y. d ≤ₜ due e' y) (due e') id rest low rest_raised)
        | inr gone ↦ let t : e'.timers ≡ rest = rw gone at f.timers in rw t rest_raised
      ]

  step-Drained :
      (ts : Timestamp) {e'' : Engine} → late ts e id ≡ true → Drained ts e' e'' → Drained ts e e''
  step-Drained ts {e''} l d =
      let whole : IsSorted (due e) (id ∷ rest) = rw split at r.sorted in
      record {
        ready = d.ready;
        calls = record { id = id; code = success; due = due e id } ∷ d.calls;
        trace =
            d.trace
            ∙ ap (λ t. t ++ d.calls) f.trace
            ∙ append_assoc e.trace (record { id = id; code = success; due = due e id } ∷ [])
                d.calls;
        in_order = (d.not_before (due e id) (raised (due e id) (omega arith, whole.0)), d.in_order);
        in_time = ((less_equal→≤ₜ (due e id) ts l, refl), d.in_time);
        not_before = λ b h.
            let low : All (λ y. b ≤ₜ due e y) (id ∷ rest) = rw split at h in
            (low.0, d.not_before b (raised b low));
        called = λ y. elim (ℕ_discrete y id) [
          | yes same ↦ ground (arith, has_split y)
          | no other ↦ ground (arith, d.called y, has_fired y, has_split y, f.due_same y)
        ];
        kept = λ y. elim (ℕ_discrete y id) [
          | yes same ↦
              ground
                (arith, d.kept y, has_fired y, has_split y, again_same split r f y, out split r f)
          | no other ↦
              ground
                (arith, d.kept y, has_fired y, has_split y, f.due_same y, again_same split r f y)
        ];
        none_late = d.none_late;
      }

-- The first timer decides whether any is late.
All-later :
    (ts : Timestamp) (e : Engine) (id : ℕ) (rest : List ℕ)
    → e.timers ≡ id ∷ rest
    → IsReady e
    → late ts e id ≡ false
    → All (λ y. ts <ₜ due e y) e.timers
unfolding Stamp.less_equal
All-later ts e id rest split r l =
    let whole : IsSorted (due e) (id ∷ rest) = rw split at r.sorted in
    let first : ts <ₜ due e id = ground arith in
    rw split (first, All-mono rest (λ y h. omega arith) whole.0)

module _ (callback : ℕ → Code → Engine → Engine) (ts : Timestamp) (f : ℕ) (e : Engine) where
  drain_loop-nil : e.timers ≡ [] → drain_loop callback (suc f) ts e ≡ some e
  unfolding drain_loop
  drain_loop-nil split = ground arith

  drain_loop-later :
      (id : ℕ) (rest : List ℕ)
      → e.timers ≡ id ∷ rest
      → late ts e id ≡ false
      → drain_loop callback (suc f) ts e ≡ some e
  unfolding drain_loop
  drain_loop-later id rest split l = ground arith

  drain_loop-late :
      (id : ℕ) (rest : List ℕ)
      → e.timers ≡ id ∷ rest
      → late ts e id ≡ true
      → drain_loop callback (suc f) ts e ≡ drain_loop callback f ts (fire_first callback id rest e)
  unfolding drain_loop
  drain_loop-late id rest split l = ground arith

module _ (callback : ℕ → Code → Engine → Engine) (passive : IsPassive callback)
    (ts : Timestamp) where
  drain_loop-Drained :
      (fuel : ℕ) (e : Engine) (xs : List ℕ)
      → e.timers ≡ xs
      → IsReady e
      → total_rounds ts e < fuel
      → (e' : Engine) × (drain_loop callback fuel ts e ≡ some e') × Drained ts e e'
  drain_loop-Drained zero e xs split r h = absurd (omega arith)
  drain_loop-Drained (suc f) e [] split r h =
      (e, drain_loop-nil callback ts f e split, idle-Drained ts e r (rw split tt))
  drain_loop-Drained (suc f) e (id ∷ rest) split r h = elim (Bool-cases (late ts e id)) [
    | inl l ↦
        let next = fire_first callback id rest e in
        let fired = fire_first-Fired callback passive e id rest in
        let (e', run, d) =
          drain_loop-Drained f next next.timers refl (fired-IsReady split r fired)
            (omega (arith, fired_total split r fired ts l)) in
        (
          e',
          drain_loop-late callback ts f e id rest split l ∙ run,
          step-Drained split r fired ts l d,
        )
    | inr l ↦ (
      e,
      drain_loop-later callback ts f e id rest split l,
      idle-Drained ts e r (All-later ts e id rest split r l),
    )
  ]

  -- With callbacks that leave the timers alone, `timer_drain` ends, after at most one round for each
  -- late timer that does not repeat and one for each millisecond that a repeating one is late. It
  -- calls exactly the timers that were due at `ts` or before, in the order of their due times, and
  -- with success. Of those it drops the ones that do not repeat; all others stay scheduled, none of
  -- them due at `ts` any more, and the list stays sorted and without repetition. The timers are
  -- sorted at first, none is scheduled twice, and none repeats by a negative span.
  pub timer_drain-Drained :
      (fuel : ℕ) (e : Engine)
      → IsReady e
      → total_rounds ts e < fuel
      → (e' : Engine) × (drain_loop callback fuel ts e ≡ some e') × Drained ts e e'
  timer_drain-Drained fuel e r h = drain_loop-Drained fuel e e.timers refl r h
