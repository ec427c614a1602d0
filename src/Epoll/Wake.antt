-- ===== src/Epoll/Wake.antt =====
-- The wake-up of src/io/epoll.cpp between threads: `execute` and `unbind` add under the lock and
-- write to the pipe after it, while `run` reads the pipe and takes the queue in two steps.
use deprecated_tcode.Common.{
  ℕ, ◌+◌, ◌-◌, ◌<◌, ◌≡◌, ◌≢◌, ◌⊎◌, inl, inr, refl, sym, ap, ◌∙◌, append_assoc, append-nil, Bool,
  true, false, List, [], ◌∷◌, ◌++◌, arith,
}
use deprecated_tcode.Epoll.{Closure, Epoll, new, op_add, wake_up}

-- The multiplexer, the closures that were added and those that the loop has taken, in order, the
-- number of threads that have added and not yet written, and `execute_op` of the run.
pub record Threads : Type 0 where
  pub epoll : Epoll
  pub added : List Closure
  pub taken : List Closure
  pub waking : ℕ
  pub execute_op : Bool

-- `op_add` under the lock.
unfoldable pub adds : Closure → Threads → Threads
adds c w = record w { epoll = op_add c w.epoll; added = w.added ++ c ∷ []; waking = w.waking + 1 }

-- `wake_up` by a thread that has added.
unfoldable pub wakes : Threads → Threads
wakes w = record w { epoll = wake_up w.epoll; waking = w.waking - 1 }

-- The branch of `run` for the pipe: at most 256 bytes are read.
unfoldable pub reads_pipe : Threads → Threads
reads_pipe w = record w { epoll = record w.epoll { pipe = w.epoll.pipe - 256 }; execute_op = true }

-- `ops = std::move( _op_queue )`, which the loop runs to the end before the next `epoll_wait`.
unfoldable pub takes : Threads → Threads
takes w = record w {
  epoll = record w.epoll { queue = [] };
  taken = w.taken ++ w.epoll.queue;
  execute_op = false;
}

-- A step of a thread.
pub data Step : Threads → Threads → Type 0 where
  adding : (w : Threads) (c : Closure) → Step w (adds c w)
  waking : (w : Threads) → 0 < w.waking → Step w (wakes w)
  reading : (w : Threads) → 0 < w.epoll.pipe → Step w (reads_pipe w)
  taking : (w : Threads) → w.execute_op ≡ true → Step w (takes w)

abbrev pub idle : Threads
idle = record { epoll = new; added = []; taken = []; waking = 0; execute_op = false }

pub data Reached : Threads → Type 0 where
  started : Reached idle
  stepped : (v w : Threads) → Reached v → Step v w → Reached w

-- Somebody is about to wake the loop, or the loop is awake.
abbrev pub IsAwake : Threads → Type 0
IsAwake w = (0 < w.epoll.pipe) ⊎ (w.execute_op ≡ true) ⊎ (0 < w.waking)

Step-IsAwake :
    (v w : Threads) → Step v w → (v.epoll.queue ≢ [] → IsAwake v) → w.epoll.queue ≢ [] → IsAwake w
unfolding adds wakes reads_pipe takes op_add wake_up
Step-IsAwake v _ (adding _ c) h ne = inr (inr (omega arith))
Step-IsAwake v _ (waking _ l) h ne = inl (omega arith)
Step-IsAwake v _ (reading _ l) h ne = inr (inl refl)
Step-IsAwake v _ (taking _ e) h ne = absurd (ne refl)

abbrev IsInOrder : Threads → Type 0
IsInOrder w = w.taken ++ w.epoll.queue ≡ w.added

Step-IsInOrder : (v w : Threads) → Step v w → IsInOrder v → IsInOrder w
unfolding adds wakes reads_pipe takes op_add wake_up
Step-IsInOrder v _ (adding _ c) h =
    sym (append_assoc v.taken v.epoll.queue (c ∷ [])) ∙ ap (λ cs. cs ++ c ∷ []) h
Step-IsInOrder v _ (waking _ l) h = h
Step-IsInOrder v _ (reading _ l) h = h
Step-IsInOrder v _ (taking _ e) h = append-nil (v.taken ++ v.epoll.queue) ∙ h

-- In every interleaving, the loop takes the closures in the order in which they were added, each
-- once; and while one waits in the queue, a byte is in the pipe, so that `epoll_wait` returns, or
-- the run that read it has yet to take the queue, or a thread that added has yet to write: no
-- wake-up is lost.
pub Reached-woken :
    (w : Threads)
    → Reached w
    → (w.taken ++ w.epoll.queue ≡ w.added) × (w.epoll.queue ≢ [] → IsAwake w)
Reached-woken _ started = (refl, λ ne. absurd (ne refl))
Reached-woken _ (stepped v w p s) =
    let (order, awake) = Reached-woken v p in (Step-IsInOrder v w s order, Step-IsAwake v w s awake)
