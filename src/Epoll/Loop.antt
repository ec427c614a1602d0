-- ===== src/Epoll/Loop.antt =====
-- The dispatch of ready operations and `run` of src/io/epoll.cpp.
use deprecated_tcode.Common.{
  ℕ, zero, suc, ◌+◌, ◌-◌, Bool, true, false, List, [], ◌∷◌, Option, none, some, if◌then◌else◌,
  length,
}
use deprecated_tcode.Epoll.{
  Code, Closure, operation, dispatches_read, dispatches_write, unbinds, Epoll, completes, ev_read,
  ev_write, ev_pri, note, set_error, engine_release, descriptor_release, push_op, set_queue,
  run_unbind,
}
use deprecated_tcode.Epoll.Requests.{Request, requests, create_in}

infixl 5 ◌>>=◌
abbrev pub ◌>>=◌ : {A B : Type 0} → Option A → (A → Option B) → Option B
none >>= f = none
(some a) >>= f = f a

-- The bits of an event: EPOLLIN, EPOLLOUT and EPOLLPRI.
pub record Events : Type 0 where
  pub epollin : Bool
  pub epollout : Bool
  pub epollpri : Bool

-- An entry of the array that `epoll_wait` fills: the wake-up pipe or a descriptor.
pub data Ready : Type 0 where
  pipe : Ready
  descriptor : ℕ → Events → Ready

-- What `op->post_proc( this , d )` does: whether the operation is finished, its error, and for one
-- that accepts the socket and the file descriptor that it takes.
pub record Outcome : Type 0 where
  pub done : Bool
  pub error : Code
  pub accepted : Option (ℕ × ℕ)

-- `epoll::accept` creates the descriptor and ignores what `bind` returns.
unfoldable pub accept_into : Option (ℕ × ℕ) → Epoll → Epoll
accept_into none s = s
accept_into (some (v, fd)) s = create_in v fd s

unfoldable pub attempted : (op : ℕ) → Outcome → Epoll → Epoll
attempted op o s = accept_into o.accepted (set_error op o.error s)

abbrev pub tail : List ℕ → List ℕ
tail [] = []
tail (op ∷ ops) = ops

unfoldable pub pop_op : (d i : ℕ) → Epoll → Epoll
pop_op d i s = set_queue d i (tail ((s.descriptor d).op_queue i)) s

abbrev pub epollin_only : Events
epollin_only = record { epollin = true; epollout = false; epollpri = false }

abbrev pub epollout_only : Events
epollout_only = record { epollin = false; epollout = true; epollpri = false }

abbrev pub is_woken : List Ready → Bool
is_woken [] = false
is_woken (pipe ∷ rest) = true
is_woken (descriptor d ev ∷ rest) = is_woken rest

abbrev pub dispatched : List Ready → ℕ
dispatched [] = 0
dispatched (pipe ∷ rest) = dispatched rest
dispatched (descriptor d ev ∷ rest) = suc (dispatched rest)

-- The calls that the handler of an operation makes, and what `post_proc` of an operation does.
module _ (handler : ℕ → Code → Epoll → List Request)
    (post_proc : (op d : ℕ) → Epoll → Outcome) where
  -- `(*op)()`.
  unfoldable pub complete : ℕ → Epoll → Epoll
  complete op s = requests (handler op (s.error op) s) (note (completes op (s.error op)) s)

  -- The loop of `descriptor_dispatch` over a queue; `none` when the fuel runs out.
  unfoldable pub dispatch_loop : (fuel d i : ℕ) → Epoll → Option Epoll
  dispatch_loop zero d i s = none
  dispatch_loop (suc f) d i s = elim ((s.descriptor d).op_queue i) [
    | [] ↦ some s
    | op ∷ ops ↦
        let o = post_proc op d s in
        let s' = attempted op o s in
        let rest = dispatch_loop f d i (complete op (pop_op d i s')) in
        if o.done then rest else some s'
  ]

  unfoldable pub dispatch_if : Bool → (d i : ℕ) → Epoll → Option Epoll
  dispatch_if false d i s = some s
  dispatch_if true d i s = dispatch_loop (suc (length ((s.descriptor d).op_queue i))) d i s

  unfoldable pub descriptor_dispatch : (d : ℕ) → Events → Epoll → Option Epoll
  descriptor_dispatch d ev s = do
    s1 ← dispatch_if ev.epollin d ev_read s
    s2 ← dispatch_if ev.epollout d ev_write s1
    dispatch_if ev.epollpri d ev_pri s2

  unfoldable pub descriptor_dispatch_read : (d op : ℕ) → Epoll → Option Epoll
  descriptor_dispatch_read d op s = do
    s' ← descriptor_dispatch d epollin_only (push_op d ev_read op s)
    some (descriptor_release d s')

  unfoldable pub descriptor_dispatch_write : (d op : ℕ) → Epoll → Option Epoll
  descriptor_dispatch_write d op s = do
    s' ← descriptor_dispatch d epollout_only (push_op d ev_write op s)
    some (descriptor_release d s')

  unfoldable pub run_closure : Closure → Epoll → Option Epoll
  run_closure (operation op) s = some (complete op s)
  run_closure (dispatches_read d op) s = descriptor_dispatch_read d op s
  run_closure (dispatches_write d op) s = descriptor_dispatch_write d op s
  run_closure (unbinds d) s = some (run_unbind d s)

  unfoldable pub op_run : Closure → Epoll → Option Epoll
  op_run c s = run_closure c (record s { engine_refs = engine_release s.engine_refs })

  -- The loops of `run` over the events and over the operations that it took.
  unfoldable pub run_events : List Ready → Epoll → Option Epoll
  run_events [] s = some s
  run_events (pipe ∷ rest) s = run_events rest (record s { pipe = s.pipe - 256 })
  run_events (descriptor d ev ∷ rest) s = do s' ← descriptor_dispatch d ev s; run_events rest s'

  unfoldable pub run_ops : List Closure → Epoll → Option Epoll
  run_ops [] s = some s
  run_ops (c ∷ cs) s = do s' ← op_run c s; run_ops cs s'

  -- What follows the events: `if ( execute_op )`.
  unfoldable pub run_taken : Bool → (run : ℕ) → Epoll → Option (ℕ × Epoll)
  run_taken false run s = some (run, s)
  run_taken true run s = do
    s' ← run_ops s.queue (record s { queue = [] })
    some (run + length s.queue, s')

  -- The events are those that `epoll_wait` returns; the number is what `run` returns.
  unfoldable pub run : List Ready → Epoll → Option (ℕ × Epoll)
  run events s = do s' ← run_events events s; run_taken (is_woken events) (dispatched events) s'
