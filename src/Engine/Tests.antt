-- ===== src/Engine/Tests.antt =====
-- Timers at concrete inputs.
use deprecated_tcode.Common.{ℕ, ◌≡◌, refl, [], ◌∷◌, some, arith, ◌==◌, if◌then◌else◌}
use deprecated_tcode.Common.Int.{pos, ◌+ℤ◌}
use deprecated_tcode.Time.Span
use deprecated_tcode.Time.Stamp
use deprecated_tcode.Time.Stamp.{Timestamp}
use deprecated_tcode.Engine.{
  Engine, Code, TimerId, cancels, due, insert_timer, drain_loop, fire_first, run_task, repeats,
  timer_schedule, add_ref, release, call, reschedule,
}
use deprecated_tcode.Engine.Fire.{IsPassive}
use deprecated_tcode.Engine.Rounds.{total, rounds}
use deprecated_tcode.Engine.Ready.{IsReady}
use deprecated_tcode.Engine.Drain.{Drained, timer_drain-Drained}
use deprecated_tcode.Engine.Count.{
  IsCounted, scheduled, posted, fire_first-IsCounted, run_task-IsCounted,
}

abbrev at_us : ℕ → Timestamp
at_us n = record { tick = pos n }

-- A timer that fires once at 1 ms, and one that fires each millisecond from 2 ms on.
abbrev timer : ℕ → TimerId
timer id =
    if id == 1
    then record { refcount = 2; due_time = at_us 1000; repeat = record { delta = pos 0 } }
    else if id == 2
    then record { refcount = 3; due_time = at_us 2000; repeat = record { delta = pos 1000 } }
    else record { refcount = 0; due_time = at_us 0; repeat = record { delta = pos 0 } }

abbrev engine : Engine
engine = record { timer = timer; timers = 1 ∷ 2 ∷ []; queue = cancels 2 ∷ []; trace = [] }

abbrev nothing : ℕ → Code → Engine → Engine
nothing id c e = e

abbrev timer_due : ℕ → Timestamp
timer_due id = (timer id).due_time

drains :
    (e : Engine) × (drain_loop nothing 10 (at_us 3500) engine ≡ some e)
    × (e.timers ≡ 2 ∷ [])
    × (due e 2 ≡ at_us 4000)
unfolding drain_loop fire_first call reschedule repeats timer_schedule add_ref release insert_timer
    Stamp.less_equal Stamp.less Stamp.plus Span.total_microseconds Span.total_milliseconds Span.quot
    ◌+ℤ◌
drains = (_, refl, refl, refl)

engine-IsReady : IsReady engine
engine-IsReady = record {
  sorted = ((omega arith, tt), (tt, tt));
  distinct = (refl, (refl, tt));
  forward = λ y. ground arith;
}

nothing-IsPassive : IsPassive nothing
nothing-IsPassive = record {
  same_timers = λ id c e. refl;
  same_trace = λ id c e. refl;
  same_due = λ id c e y. refl;
  same_repeat = λ id c e y. refl;
}

timer_drain-Drained_example :
    (e : Engine) × (drain_loop nothing 10 (at_us 3500) engine ≡ some e)
    × Drained (at_us 3500) engine e
unfolding total rounds Stamp.less_equal repeats Span.total_milliseconds Span.quot
timer_drain-Drained_example =
    timer_drain-Drained nothing nothing-IsPassive (at_us 3500) 10 engine engine-IsReady
      (omega arith)

abbrev held : ℕ → ℕ
held y = if y == 1 then 1 else if y == 2 then 1 else 0

engine-IsCounted : IsCounted held engine
unfolding scheduled posted
engine-IsCounted y = ground arith

fire_first-IsCounted_example : IsCounted held (fire_first nothing 1 (2 ∷ []) engine)
fire_first-IsCounted_example =
    fire_first-IsCounted nothing (λ h id c e k. k) held 1 (2 ∷ []) engine refl engine-IsCounted

run_task-IsCounted_example :
    IsCounted held (run_task nothing (cancels 2) (record engine { queue = [] }))
run_task-IsCounted_example =
    run_task-IsCounted nothing (λ h id c e k. k) held (cancels 2) [] engine refl engine-IsCounted
