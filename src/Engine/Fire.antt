-- ===== src/Engine/Fire.antt =====
-- One round of `timer_drain`: what firing the first timer changes.
use deprecated_tcode.Common.{
  ℕ, ◌≡◌, ◌≢◌, refl, sym, ◌∙◌, ap, fun_ext, List, [], ◌∷◌, ◌++◌, arith, Bool-cases, inl, inr,
  if◌then◌else◌,
}
use deprecated_tcode.Time.Span.{Timespan}
use deprecated_tcode.Time.Stamp
use deprecated_tcode.Time.Stamp.{Timestamp}
use deprecated_tcode.Engine.{
  Engine, Code, success, TimerId, due, add_ref, release, insert_timer, timer_schedule, repeats,
  call, reschedule, fire_first,
}

-- A callback that calls none of the engine's timer functions in the loop's thread: it may post
-- operations, take and give references, but it leaves the list and the times of the timers alone.
pub record IsPassive (callback : ℕ → Code → Engine → Engine) : Type 0 where
  pub same_timers : (id : ℕ) (c : Code) (e : Engine) → (callback id c e).timers ≡ e.timers
  pub same_trace : (id : ℕ) (c : Code) (e : Engine) → (callback id c e).trace ≡ e.trace
  pub same_due : (id : ℕ) (c : Code) (e : Engine) (y : ℕ) → due (callback id c e) y ≡ due e y
  pub same_repeat :
      (id : ℕ) (c : Code) (e : Engine) (y : ℕ)
      → ((callback id c e).timer y).repeat ≡ (e.timer y).repeat

abbrev pub repeat_of : Engine → ℕ → Timespan
repeat_of e y = (e.timer y).repeat

-- A timer repeats or not by its `repeat` alone.
pub repeats_ext : (s t : TimerId) → s.repeat ≡ t.repeat → repeats s ≡ repeats t
unfolding repeats
repeats_ext s t e = rw e

-- The time at which the timer `id` is due next.
abbrev pub next_due : Engine → ℕ → Timestamp
next_due e id = Stamp.plus (due e id) (repeat_of e id)

-- The state after the first timer, `id`, has fired.
pub record Fired (e : Engine) (id : ℕ) (rest : List ℕ) (e' : Engine) : Type 0 where
  pub timers : e'.timers ≡ (if repeats (e.timer id) then insert_timer (due e') id rest else rest)
  pub due_same : (y : ℕ) → y ≢ id → due e' y ≡ due e y
  pub due_next : due e' id ≡ (if repeats (e.timer id) then next_due e id else due e id)
  pub repeat_same : (y : ℕ) → repeat_of e' y ≡ repeat_of e y
  pub trace : e'.trace ≡ e.trace ++ record { id = id; code = success; due = due e id } ∷ []

-- Counting references changes no time.
due-release : (id : ℕ) (e : Engine) → due (release id e) ≡ due e
unfolding release
due-release id e = fun_ext (λ y. ground arith)

repeat-release : (id : ℕ) (e : Engine) (y : ℕ) → repeat_of (release id e) y ≡ repeat_of e y
unfolding release
repeat-release id e y = ground arith

timers-release : (id : ℕ) (e : Engine) → (release id e).timers ≡ e.timers
unfolding release
timers-release id e = refl

trace-release : (id : ℕ) (e : Engine) → (release id e).trace ≡ e.trace
unfolding release
trace-release id e = refl

due-add_ref : (id : ℕ) (e : Engine) → due (add_ref id e) ≡ due e
unfolding add_ref
due-add_ref id e = fun_ext (λ y. ground arith)

-- What rescheduling the timer `id` changes.
record Rescheduled (c : Engine) (id : ℕ) (c' : Engine) : Type 0 where
  timers :
      c'.timers ≡ (if repeats (c.timer id) then insert_timer (due c') id c.timers else c.timers)
  due_same : (y : ℕ) → y ≢ id → due c' y ≡ due c y
  due_next : due c' id ≡ (if repeats (c.timer id) then next_due c id else due c id)
  repeat_same : (y : ℕ) → repeat_of c' y ≡ repeat_of c y
  trace : c'.trace ≡ c.trace

reschedule-Rescheduled : (id : ℕ) (c : Engine) → Rescheduled c id (reschedule id c)
unfolding reschedule timer_schedule add_ref
reschedule-Rescheduled id c = elim (Bool-cases (repeats (c.timer id))) [
  | inl again ↦ rw again (record {
    timers = rw again;
    due_same = λ y ne. ground arith;
    due_next = rw again (ground arith);
    repeat_same = λ y. ground arith;
    trace = refl;
  })
  | inr once ↦ rw once (record {
    timers = rw once;
    due_same = λ y ne. refl;
    due_next = rw once;
    repeat_same = λ y. refl;
    trace = refl;
  })
]

module _ (callback : ℕ → Code → Engine → Engine) (passive : IsPassive callback) (e : Engine)
    (id : ℕ) (rest : List ℕ) where
  abbrev called : Engine
  called = call callback id success (record e { timers = rest })

  called_timers : called.timers ≡ rest
  unfolding call
  called_timers = passive.same_timers id success _

  called_due : (y : ℕ) → due called y ≡ due e y
  unfolding call
  called_due y = passive.same_due id success _ y

  called_repeat : (y : ℕ) → repeat_of called y ≡ repeat_of e y
  unfolding call
  called_repeat y = passive.same_repeat id success _ y

  called_trace : called.trace ≡ e.trace ++ record { id = id; code = success; due = due e id } ∷ []
  unfolding call
  called_trace = passive.same_trace id success _

  called_repeats : repeats (called.timer id) ≡ repeats (e.timer id)
  called_repeats = repeats_ext _ _ (called_repeat id)

  -- Firing the first timer calls it, takes it out of the list and puts it back, at its next due
  -- time, if it repeats; no other timer's time changes.
  pub fire_first-Fired : Fired e id rest (fire_first callback id rest e)
  unfolding fire_first
  fire_first-Fired =
      let r = reschedule-Rescheduled id called in
      let c' = reschedule id called in
      let same : due (release id c') ≡ due c' = due-release id c' in
      record {
        timers = timers-release id c' ∙ r.timers ∙ (λ i.
            if called_repeats i
            then insert_timer (sym same i) id (called_timers i)
            else called_timers i);
        due_same = λ y ne. ap (λ f. f y) same ∙ r.due_same y ne ∙ called_due y;
        due_next = ap (λ f. f id) same ∙ r.due_next ∙ (λ i.
            if called_repeats i
            then Stamp.plus (called_due id i) (called_repeat id i)
            else called_due id i);
        repeat_same = λ y. repeat-release id c' y ∙ r.repeat_same y ∙ called_repeat y;
        trace = trace-release id c' ∙ r.trace ∙ called_trace;
      }
