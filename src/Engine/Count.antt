-- ===== src/Engine/Count.antt =====
-- The reference counts of the timers: what the list and the posted operations refer to is alive.
use deprecated_tcode.Common.{
  ℕ, ◌+◌, ◌%◌, ◌≡◌, refl, Bool, true, false, List, [], ◌∷◌, ◌++◌, some, arith, Bool-cases,
  Option-cases, inl, inr, ◌==◌,
}
use deprecated_tcode.Common.Words.{int_mod}
use deprecated_tcode.Time.Stamp
use deprecated_tcode.Time.Stamp.{Timestamp}
use deprecated_tcode.Engine.{
  Engine, Code, Task, schedules, cancels, due, add_ref, release, post, insert_timer, erase_timer,
  timer_schedule, timer_cancel, repeats, call, reschedule, fire_first, run_task,
}

abbrev pub bit : Bool → ℕ
bit true = 1
bit false = 0

-- How often a timer stands in the list, and how many posted operations hold it.
unfoldable pub scheduled : ℕ → List ℕ → ℕ
scheduled y [] = 0
scheduled y (x ∷ xs) = bit (y == x) + scheduled y xs

abbrev subject : Task → ℕ
subject (schedules id) = id
subject (cancels id) = id

unfoldable pub posted : ℕ → List Task → ℕ
posted y [] = 0
posted y (t ∷ ts) = bit (y == subject t) + posted y ts

-- The count of each timer is its scheduled and posted references and those that are held elsewhere,
-- `held`, up to the wrap of an int.
abbrev pub IsCounted : (held : ℕ → ℕ) → Engine → Type 0
IsCounted held e =
    (y : ℕ) → (e.timer y).refcount ≡ (held y + scheduled y e.timers + posted y e.queue) % int_mod

-- One more reference to `id` is held.
abbrev pub holding : (ℕ → ℕ) → ℕ → ℕ → ℕ
holding held id y = held y + bit (y == id)

scheduled-insert_timer :
    (at : ℕ → Timestamp) (id y : ℕ) (xs : List ℕ)
    → scheduled y (insert_timer at id xs) ≡ bit (y == id) + scheduled y xs
unfolding scheduled insert_timer
scheduled-insert_timer at id y [] = refl
scheduled-insert_timer at id y (x ∷ xs) = elim (Bool-cases (Stamp.less (at id) (at x))) [
  | inl here ↦ rw here
  | inr there ↦ rw there (omega (arith, scheduled-insert_timer at id y xs))
]

scheduled-erase_timer :
    (id y : ℕ) (xs ys : List ℕ)
    → erase_timer id xs ≡ some ys
    → scheduled y xs ≡ bit (y == id) + scheduled y ys
unfolding scheduled erase_timer
scheduled-erase_timer id y [] ys h = cc
scheduled-erase_timer id y (x ∷ xs) ys h = elim (Bool-cases (x == id)) [
  | inl found ↦ ground arith
  | inr other ↦ elim (Option-cases (erase_timer id xs)) [
    | inl none_there ↦ ground arith
    | inr (zs, e) ↦ ground (arith, scheduled-erase_timer id y xs zs e)
  ]
]

posted-append :
    (y : ℕ) (t : Task) (q : List Task) → posted y (q ++ t ∷ []) ≡ bit (y == subject t) + posted y q
unfolding posted
posted-append y t [] = refl
posted-append y t (u ∷ q) = omega (arith, posted-append y t q)

module _ (held : ℕ → ℕ) (id : ℕ) (e : Engine) where
  add_ref-IsCounted : IsCounted held e → IsCounted (holding held id) (add_ref id e)
  unfolding add_ref
  add_ref-IsCounted c y = ground (arith, c y)

  release-IsCounted : IsCounted (holding held id) e → IsCounted held (release id e)
  unfolding release
  release-IsCounted c y = ground (arith, c y)

-- Scheduling in the loop's thread counts one reference for the list, from another thread one for
-- the posted operation; cancelling counts one for its operation.
pub schedule-IsCounted :
    (held : ℕ → ℕ) (in_run_loop : Bool) (id : ℕ) (e : Engine)
    → IsCounted held e
    → IsCounted held (timer_schedule in_run_loop id e)
unfolding timer_schedule post posted add_ref
schedule-IsCounted held true id e c y = ground (
  arith,
  add_ref-IsCounted held id e c y,
  scheduled-insert_timer (due (add_ref id e)) id y e.timers,
)
schedule-IsCounted held false id e c y =
    ground (arith, add_ref-IsCounted held id e c y, posted-append y (schedules id) e.queue)

pub cancel-IsCounted :
    (held : ℕ → ℕ) (id : ℕ) (e : Engine) → IsCounted held e → IsCounted held (timer_cancel id e)
unfolding timer_cancel post posted add_ref
cancel-IsCounted held id e c y =
    ground (arith, add_ref-IsCounted held id e c y, posted-append y (cancels id) e.queue)

reschedule-IsCounted :
    (held : ℕ → ℕ) (id : ℕ) (e : Engine) → IsCounted held e → IsCounted held (reschedule id e)
unfolding reschedule
reschedule-IsCounted held id e c = elim (Bool-cases (repeats (e.timer id))) [
  | inl again ↦ rw again (schedule-IsCounted held true id _ (λ y. ground (arith, c y)))
  | inr once ↦ rw once c
]

-- A callback that gives back what it takes: whoever holds references, the counts stay right.
abbrev pub IsBalanced : (ℕ → Code → Engine → Engine) → Type 0
IsBalanced callback =
    (held : ℕ → ℕ) (id : ℕ) (c : Code) (e : Engine)
    → IsCounted held e
    → IsCounted held (callback id c e)

module _ (callback : ℕ → Code → Engine → Engine) (balanced : IsBalanced callback)
    (held : ℕ → ℕ) where
  call-IsCounted :
      (held : ℕ → ℕ) (id : ℕ) (c : Code) (e : Engine)
      → IsCounted held e
      → IsCounted held (call callback id c e)
  unfolding call
  call-IsCounted held id c e h = balanced held id c _ h

  -- A round of `timer_drain` moves the list's reference to the running call, and gives it back.
  pub fire_first-IsCounted :
      (id : ℕ) (rest : List ℕ) (e : Engine)
      → e.timers ≡ id ∷ rest
      → IsCounted held e
      → IsCounted held (fire_first callback id rest e)
  unfolding fire_first scheduled
  fire_first-IsCounted id rest e split c =
      let taken : IsCounted (holding held id) (record e { timers = rest }) =
        (λ y. ground (arith, c y)) in
      release-IsCounted held id _ (
        reschedule-IsCounted (holding held id) id _
          (call-IsCounted (holding held id) id Code.success _ taken))

  -- A posted operation that is run, and so is gone from the queue, gives back its own reference and,
  -- when it cancels a scheduled timer, the list's.
  pub run_task-IsCounted :
      (t : Task) (q : List Task) (e : Engine)
      → e.queue ≡ t ∷ q
      → IsCounted held e
      → IsCounted held (run_task callback t (record e { queue = q }))
  unfolding run_task posted
  run_task-IsCounted (schedules id) q e split c =
      let taken : IsCounted (holding held id) (record e { queue = q }) =
        (λ y. ground (arith, c y)) in
      release-IsCounted held id _ (schedule-IsCounted (holding held id) true id _ taken)
  run_task-IsCounted (cancels id) q e split c =
      let taken : IsCounted (holding held id) (record e { queue = q }) =
        (λ y. ground (arith, c y)) in
      elim (Option-cases (erase_timer id e.timers)) [
        | inl none_there ↦ rw (none_there, run_task) (release-IsCounted held id _ taken)
        | inr (rest, found) ↦
            let both : IsCounted (holding (holding held id) id)
                (record e { queue = q; timers = rest }) =
              (λ y. ground (arith, taken y, scheduled-erase_timer id y e.timers rest found)) in
            rw (found, run_task)
              (release-IsCounted held id _ (
                release-IsCounted (holding held id) id _
                  (call-IsCounted (holding (holding held id) id) id Code.error_aborted _ both)))
      ]
