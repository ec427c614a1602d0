-- ===== src/Engine.antt =====
-- The timers of `io::engine`: src/io/engine.cpp, src/io/timer.cpp and src/io/timer_id.cpp.
-- A `timer::id` is a number, and `timer` is the object that it points to; its count is an atomic
-- int, a bit pattern below `int_mod`, and 0 once the object is deleted. `queue` holds the operations
-- that `execute` posts to the multiplexer, the next one first. `trace` records each call of a
-- callback with the due time at the call; what the callback itself does is the section's parameter.
-- The time of `timestamp::now()` and the calling thread, `in_run_loop`, are arguments.
pub mod Order
pub mod Fire
pub mod Rounds
pub mod Ready
pub mod Drain
pub mod Count
mod Tests
use deprecated_tcode.Common.{
  ℕ, zero, suc, ◌+◌, ◌-◌, ◌%◌, Bool, true, false, not, ◌==◌, List, [], ◌∷◌, ◌++◌, Option, none,
  some, if◌then◌else◌,
}
use deprecated_tcode.Common.Maps.{update}
use deprecated_tcode.Common.Int.{ℤ, pos}
use deprecated_tcode.Common.Words.{int_mod}
use deprecated_tcode.Time.Span
use deprecated_tcode.Time.Span.{Timespan, timespan, eq_ℤ}
use deprecated_tcode.Time.Stamp
use deprecated_tcode.Time.Stamp.{Timestamp}

-- The error code that a callback is given.
pub data Code : Type 0 where
  success error_aborted : Code

pub record TimerId : Type 0 where
  pub refcount : ℕ
  pub due_time : Timestamp
  pub repeat : Timespan

-- The closures that `timer_schedule` and `timer_cancel` post.
pub data Task : Type 0 where
  schedules cancels : ℕ → Task

pub record Call : Type 0 where
  pub id : ℕ
  pub code : Code
  pub due : Timestamp

pub record Engine : Type 0 where
  pub timer : ℕ → TimerId
  pub timers : List ℕ
  pub queue : List Task
  pub trace : List Call

abbrev pub due : Engine → ℕ → Timestamp
due e id = (e.timer id).due_time

abbrev pub set_timer : ℕ → TimerId → Engine → Engine
set_timer id t e = record e { timer = update e.timer id t }

-- `timer::id::add_ref`.
unfoldable pub add_ref : ℕ → Engine → Engine
add_ref id e =
    set_timer id (record (e.timer id) { refcount = ((e.timer id).refcount + 1) % int_mod }) e

-- `timer::id::release`; at the last reference the object is deleted.
unfoldable pub release : ℕ → Engine → Engine
release id e =
    set_timer id
      (record (e.timer id) { refcount = ((e.timer id).refcount + int_mod - 1) % int_mod }) e

-- `execute`.
unfoldable pub post : Task → Engine → Engine
post t e = record e { queue = e.queue ++ t ∷ [] }

-- `std::upper_bound` by the due time, and the `insert` before what it finds.
unfoldable pub insert_timer : (ℕ → Timestamp) → ℕ → List ℕ → List ℕ
insert_timer at id [] = id ∷ []
insert_timer at id (x ∷ xs) =
    let rest = insert_timer at id xs in if Stamp.less (at id) (at x) then id ∷ x ∷ xs else x ∷ rest

unfoldable pub timer_schedule : (in_run_loop : Bool) → ℕ → Engine → Engine
timer_schedule true id e =
    let e' = add_ref id e in record e' { timers = insert_timer (due e') id e'.timers }
timer_schedule false id e = post (schedules id) (add_ref id e)

unfoldable pub timer_cancel : ℕ → Engine → Engine
timer_cancel id e = post (cancels id) (add_ref id e)

-- `std::find` and `erase`: the list without the first entry that is `id`, if there is one.
unfoldable pub erase_timer : ℕ → List ℕ → Option (List ℕ)
erase_timer id [] = none
erase_timer id (x ∷ xs) =
    let rest = erase_timer id xs in
    if x == id then some xs else elim rest [ none ↦ none | some ys ↦ some (x ∷ ys) ]

-- `id->repeat.total_milliseconds() != 0`.
unfoldable pub repeats : TimerId → Bool
repeats t = not (eq_ℤ (Span.total_milliseconds t.repeat) (pos 0))

-- `next_wake_up_time`.
unfoldable pub next_wake_up_time : Timestamp → Engine → Timespan
next_wake_up_time now e = elim e.timers [
  | [] ↦ Span.seconds (pos 1)
  | id ∷ _ ↦
      if Stamp.less_equal (due e id) now then Span.seconds (pos 0) else Stamp.since (due e id) now
]

-- `if ( id->repeat.total_milliseconds() != 0 )`.
unfoldable pub reschedule : ℕ → Engine → Engine
reschedule id e =
    if repeats (e.timer id)
    then timer_schedule true id (
        set_timer id (record (e.timer id) { due_time = Stamp.plus (due e id) (e.timer id).repeat })
          e)
    else e

module _ (callback : ℕ → Code → Engine → Engine) where
  unfoldable pub call : ℕ → Code → Engine → Engine
  call id ec e =
      callback id ec
        (record e { trace = e.trace ++ record { id = id; code = ec; due = due e id } ∷ [] })

  -- The body of the loop of `timer_drain`, for the first timer and the list behind it.
  unfoldable pub fire_first : ℕ → List ℕ → Engine → Engine
  fire_first id rest e = release id (reschedule id (call id success (record e { timers = rest })))

  -- The loop of `timer_drain`; `none` when the fuel runs out.
  unfoldable pub drain_loop : (fuel : ℕ) → Timestamp → Engine → Option Engine
  drain_loop zero ts e = none
  drain_loop (suc f) ts e = elim e.timers [
    | [] ↦ some e
    | id ∷ rest ↦
        let more = drain_loop f ts (fire_first id rest e) in
        if Stamp.less_equal (due e id) ts then more else some e
  ]

  -- An operation that was posted, run in the loop's thread.
  unfoldable pub run_task : Task → Engine → Engine
  run_task (schedules id) e = release id (timer_schedule true id e)
  run_task (cancels id) e = elim (erase_timer id e.timers) [
    | none ↦ release id e
    | some rest ↦ release id (release id (call id error_aborted (record e { timers = rest })))
  ]

-- The constructor of `timer`, for a new `timer::id`.
unfoldable pub create : ℕ → Engine → Engine
create id e = add_ref id (
    set_timer id
      (record { refcount = 0; due_time = record { tick = pos 0 }; repeat = timespan (pos 0) }) e)

-- `due_time( const timestamp& )`, and with a span from `now`.
unfoldable pub set_due_time : ℕ → Timestamp → Engine → Engine
set_due_time id ts e = set_timer id (record (e.timer id) { due_time = ts }) e

unfoldable pub set_due_time_after : (now : Timestamp) → ℕ → Timespan → Engine → Engine
set_due_time_after now id ts e = set_due_time id (Stamp.plus now ts) e

unfoldable pub set_repeat : ℕ → Timespan → Engine → Engine
set_repeat id ts e = set_timer id (record (e.timer id) { repeat = ts }) e

-- `timer::fire` and `timer::cancel`.
unfoldable pub fire : (in_run_loop : Bool) → ℕ → Engine → Engine
fire in_run_loop id e = timer_schedule in_run_loop id e

unfoldable pub cancel : ℕ → Engine → Engine
cancel id e = if (e.timer id).refcount == 1 then e else timer_cancel id e
