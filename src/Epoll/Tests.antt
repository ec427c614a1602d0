-- ===== src/Epoll/Tests.antt =====
-- The multiplexer at concrete inputs.
use deprecated_tcode.Common.{
  ℕ, ◌+◌, ◌≡◌, refl, true, false, not, ◌==◌, List, [], ◌∷◌, ◌++◌, ◌≢◌, none, some, arith, inr, inl,
  if◌then◌else◌,
}
use deprecated_tcode.Epoll.{
  returned, Code, success, operation, ev_read, note, dispatches_write, submits, Epoll, new,
  set_socket, execute, wake_up, op_add, descriptor_create, descriptor_add_ref, unbind, set_error,
  push_op, set_queue, descriptor_release, descriptor_delete, abort_all, post_all, is_error,
  run_unbind,
}
use deprecated_tcode.Epoll.Account.{submitted, completed, dropped, carried, at_descriptors}
use deprecated_tcode.Epoll.Requests.{
  Request, opens, closes, tcp_writes, tcp_reads, request, requests, tcp_read, tcp_write,
  open_socket, register, create_in, post_write, post_read,
}
use deprecated_tcode.Epoll.Loop.{
  pipe, descriptor, Outcome, run, dispatch_loop, accept_into, attempted, pop_op, complete,
  dispatch_if, descriptor_dispatch, descriptor_dispatch_read, descriptor_dispatch_write,
  run_closure, op_run, run_events, run_ops, run_taken,
}
use deprecated_tcode.Epoll.Attempt.{Gives}
use deprecated_tcode.Epoll.Dispatch.{Dispatched, dispatch_loop_lem}
use deprecated_tcode.Epoll.Sound.{Sound, new-Sound, note-Sound, relax, push_op-Sound}
use deprecated_tcode.Epoll.Serve.{request-Sound}
use deprecated_tcode.Epoll.Abort.{Aborted, descriptor_release-Aborted}
use deprecated_tcode.Epoll.Wake
use deprecated_tcode.Epoll.Wake.{
  Threads, adds, wakes, reads_pipe, idle, adding, waking, reading, stepped, IsAwake, Reached-woken,
}
use deprecated_tcode.Epoll.Run.{run-Served}
use deprecated_tcode.Epoll.Onward.{Served}
use deprecated_tcode.Epoll.Reach.{
  Reached, started, asked, ran, Reached-conserved, Reached-live, Reached-finished,
}

-- The handler of operation 1 writes again, and operation 3 cannot be done yet.
abbrev write_again : ℕ → Code → Epoll → List Request
write_again op ec s = if op == 1 then tcp_writes 0 2 ∷ [] else []

abbrev not_three : ℕ → ℕ → Epoll → Outcome
not_three op d s = record { done = not (op == 3); error = success; accepted = none }

abbrev opened : Epoll
opened = request (opens 0 (returned 7) (returned 0)) new

abbrev writing : Epoll
writing = request (tcp_writes 0 1) opened

abbrev busy : Epoll
busy = request (tcp_reads 0 3) writing

-- The loop runs what was posted; the write of operation 2 waits to be run.
abbrev ran_once : Epoll
ran_once = elim (run write_again not_three (pipe ∷ []) busy) [ none ↦ new | some r ↦ r.1 ]

busy-Reached : Reached write_again not_three busy
busy-Reached =
    asked writing (tcp_reads 0 3)
      (asked opened (tcp_writes 0 1) (asked new (opens 0 (returned 7) (returned 0)) started))

run-busy : run write_again not_three (pipe ∷ []) busy ≡ some (2, ran_once)
unfolding request requests tcp_read tcp_write open_socket register create_in set_socket post_write
    post_read execute wake_up op_add descriptor_add_ref descriptor_create unbind set_error push_op
    set_queue descriptor_release descriptor_delete abort_all post_all is_error run_unbind
    accept_into attempted pop_op complete dispatch_loop dispatch_if descriptor_dispatch
    descriptor_dispatch_read descriptor_dispatch_write run_closure op_run run_events run_ops
    run_taken run
run-busy = refl

ran_once_queue : ran_once.queue ≡ dispatches_write 0 2 ∷ []
unfolding request requests tcp_read tcp_write open_socket register create_in set_socket post_write
    post_read execute wake_up op_add descriptor_add_ref descriptor_create unbind set_error push_op
    set_queue descriptor_release descriptor_delete abort_all post_all is_error run_unbind
    accept_into attempted pop_op complete dispatch_loop dispatch_if descriptor_dispatch
    descriptor_dispatch_read descriptor_dispatch_write run_closure op_run run_events run_ops
    run_taken run
ran_once_queue = refl

ran_once-Reached : Reached write_again not_three ran_once
ran_once-Reached = ran busy ran_once (pipe ∷ []) 2 busy-Reached (tt, tt) run-busy

Reached-conserved_example :
    submitted 3 ran_once.trace
    ≡ completed 3 ran_once.trace
      + dropped 3 ran_once.trace
      + carried 3 ran_once.queue
      + at_descriptors 3 ran_once
Reached-conserved_example = Reached-conserved write_again not_three ran_once 3 ran_once-Reached

Reached-live_example : (ran_once.descriptor 0).live ≡ true
unfolding request requests tcp_read tcp_write open_socket register create_in set_socket post_write
    post_read execute wake_up op_add descriptor_add_ref descriptor_create unbind set_error push_op
    set_queue descriptor_release descriptor_delete abort_all post_all is_error run_unbind
    accept_into attempted pop_op complete dispatch_loop dispatch_if descriptor_dispatch
    descriptor_dispatch_read descriptor_dispatch_write run_closure op_run run_events run_ops
    run_taken run
Reached-live_example =
    Reached-live write_again not_three ran_once 0 ran_once-Reached (omega arith)
      (inr (inl (omega arith)))

-- A descriptor with the reads 1, 4 and 3 in its queue.
abbrev queued_reads : Epoll
queued_reads = push_op 0 ev_read 3 (push_op 0 ev_read 4 (push_op 0 ev_read 1 opened))

queued_reads_lem : (queued_reads.descriptor 0).op_queue ev_read ≡ 1 ∷ 4 ∷ 3 ∷ []
unfolding request open_socket register create_in set_socket descriptor_create push_op
queued_reads_lem = refl

opened-Sound : Sound 0 [] opened
opened-Sound = request-Sound (opens 0 (returned 7) (returned 0)) new-Sound

submitting-Sound :
    (op : ℕ) {s : Epoll} → Sound 0 [] s → Sound 0 (operation op ∷ []) (note (submits op) s)
submitting-Sound op h = relax (note-Sound op h)

-- The same with the record of the three reads.
abbrev noted : Epoll
noted =
    note (submits 3)
      (push_op 0 ev_read 4 (note (submits 4) (push_op 0 ev_read 1 (note (submits 1) opened))))

abbrev waiting_reads : Epoll
waiting_reads = push_op 0 ev_read 3 noted

waiting_reads-Sound : Sound 0 [] waiting_reads
unfolding request open_socket register create_in set_socket descriptor_create push_op
waiting_reads-Sound =
    push_op-Sound 0 ev_read 3 (omega arith) (omega arith) (λ short. refl)
      (submitting-Sound 3 (
        push_op-Sound 0 ev_read 4 (omega arith) (omega arith) (λ short. refl)
          (submitting-Sound 4 (
            push_op-Sound 0 ev_read 1 (omega arith) (omega arith) (λ short. refl)
              (submitting-Sound 1 opened-Sound)))))

dispatch_loop_lem_example :
    Gives
      (Dispatched write_again not_three 0 ev_read [] waiting_reads)
      (dispatch_loop write_again not_three 4 0 ev_read waiting_reads)
unfolding request open_socket register create_in set_socket descriptor_create push_op
dispatch_loop_lem_example =
    dispatch_loop_lem write_again not_three 4 0 ev_read (1 ∷ 4 ∷ 3 ∷ []) [] waiting_reads refl
      (omega arith) (omega arith) (omega arith) waiting_reads-Sound

run-Served_example :
    Gives
      (λ r. Served 0 0 [] waiting_reads r.1)
      (run write_again not_three
        (descriptor 0 (record { epollin = true; epollout = true; epollpri = false }) ∷ pipe ∷ [])
        waiting_reads)
unfolding request open_socket register create_in set_socket descriptor_create push_op
run-Served_example =
    run-Served write_again not_three
      (descriptor 0 (record { epollin = true; epollout = true; epollpri = false }) ∷ pipe ∷ [])
      waiting_reads (omega arith, (tt, tt)) waiting_reads-Sound

descriptor_release-Aborted_example : Aborted 0 waiting_reads (descriptor_release 0 waiting_reads)
unfolding request open_socket register create_in set_socket descriptor_create push_op
descriptor_release-Aborted_example = descriptor_release-Aborted 0 waiting_reads refl

-- A thread adds a closure while the loop is between the pipe and the queue.
abbrev late : Threads
late = adds (operation 2) (reads_pipe (wakes (adds (operation 1) idle)))

late-Reached : Wake.Reached late
unfolding adds wakes reads_pipe wake_up op_add
late-Reached =
    stepped _ _
      (stepped _ _
        (stepped _ _ (stepped _ _ Wake.started (adding idle (operation 1)))
          (waking (adds (operation 1) idle) (omega arith)))
        (reading (wakes (adds (operation 1) idle)) (omega arith)))
      (adding (reads_pipe (wakes (adds (operation 1) idle))) (operation 2))

Reached-woken_example :
    (late.taken ++ late.epoll.queue ≡ late.added) × (late.epoll.queue ≢ [] → IsAwake late)
Reached-woken_example = Reached-woken late late-Reached

-- The socket is written to and closed, and the loop runs.
abbrev closing : Epoll
closing = request (closes 0) (request (tcp_writes 0 9) opened)

abbrev finished : Epoll
finished = elim (run write_again not_three (pipe ∷ []) closing) [ none ↦ new | some r ↦ r.1 ]

run-closing : run write_again not_three (pipe ∷ []) closing ≡ some (2, finished)
unfolding request requests tcp_read tcp_write open_socket register create_in set_socket post_write
    post_read execute wake_up op_add descriptor_add_ref descriptor_create unbind set_error push_op
    set_queue descriptor_release descriptor_delete abort_all post_all is_error run_unbind
    accept_into attempted pop_op complete dispatch_loop dispatch_if descriptor_dispatch
    descriptor_dispatch_read descriptor_dispatch_write run_closure op_run run_events run_ops
    run_taken run
run-closing = refl

finished-Reached : Reached write_again not_three finished
finished-Reached =
    ran closing finished (pipe ∷ []) 2
      (asked (request (tcp_writes 0 9) opened) (closes 0)
        (asked opened (tcp_writes 0 9) (asked new (opens 0 (returned 7) (returned 0)) started)))
      (tt, tt) run-closing

Reached-finished_example :
    (finished.queue ≡ [])
    × ((d : ℕ) → (finished.descriptor d).live ≡ false)
    × ((op : ℕ)
        → submitted op finished.trace ≡ completed op finished.trace + dropped op finished.trace)
unfolding request requests tcp_read tcp_write open_socket register create_in set_socket post_write
    post_read execute wake_up op_add descriptor_add_ref descriptor_create unbind set_error push_op
    set_queue descriptor_release descriptor_delete abort_all post_all is_error run_unbind
    accept_into attempted pop_op complete dispatch_loop dispatch_if descriptor_dispatch
    descriptor_dispatch_read descriptor_dispatch_write run_closure op_run run_events run_ops
    run_taken run
Reached-finished_example =
    Reached-finished write_again not_three finished finished-Reached (omega arith) (omega arith)
      refl
