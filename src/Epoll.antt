-- ===== src/Epoll.antt =====
-- The multiplexer of src/io/epoll.cpp, with the event numbers of include/tcode/io/io.hpp.
-- A descriptor is the address of its `_descriptor` object and an operation the address of its
-- object; addresses are numbers, and one that was deleted is not given out again. A variable of a
-- caller that holds a descriptor (`socket::_descriptor`, `acceptor::_descriptor`) is a number too,
-- and `socket` is what it holds, `none` for nullptr. The file descriptor -1 is `none`. What a call
-- of the system returns is an argument. `trace` records the operations that callers hand over and
-- the calls of the operations. `pipe` counts the bytes in the wake-up pipe.
pub mod Account
pub mod Conserve
pub mod Owner
pub mod Release
pub mod Known
pub mod Sound
pub mod References
pub mod Serve
pub mod Refs
pub mod Keep
pub mod Stay
pub mod Attempt
pub mod Dispatch
pub mod Onward
pub mod Closures
pub mod Run
pub mod Reach
pub mod Abort
pub mod Requests
pub mod Loop
pub mod Wake
pub mod Transfer
mod Tests
use deprecated_tcode.Common.{
  ℕ, zero, suc, ◌+◌, ◌-◌, ◌%◌, Bool, true, false, ◌==◌, List, [], ◌∷◌, ◌++◌, Option, none, some,
  if◌then◌else◌, length,
}
use deprecated_tcode.Common.Maps.{update}
use deprecated_tcode.Common.Words.{int_mod}

pub data Errno : Type 0 where
  eintr eagain ewouldblock einprogress : Errno
  errno : ℕ → Errno

-- What a call of the system comes back with.
pub data Answer : Type 0 where
  returned : ℕ → Answer
  failed : Errno → Answer

-- `std::error_code`, with `last_error()` as `system`.
pub data Code : Type 0 where
  success error_invalid error_aborted error_disconnected : Code
  system : Errno → Code

-- `if ( ec )`.
unfoldable pub is_error : Code → Bool
is_error success = false
is_error error_invalid = true
is_error error_aborted = true
is_error error_disconnected = true
is_error (system e) = true

-- What `_op_queue` holds: the callers' operations and the closures that the calls wrap.
pub data Closure : Type 0 where
  operation : ℕ → Closure
  dispatches_read dispatches_write : (d op : ℕ) → Closure
  unbinds : ℕ → Closure

-- `live` is false once the object is deleted.
pub record Descriptor : Type 0 where
  pub fd : Option ℕ
  pub op_queue : ℕ → List ℕ
  pub refcount : ℕ
  pub live : Bool

-- An operation that a caller hands over, one that is called, one that `accept` forgets, and a
-- nullptr that a call dereferences.
pub data Note : Type 0 where
  submits : ℕ → Note
  completes : ℕ → Code → Note
  drops faults : ℕ → Note

pub record Epoll : Type 0 where
  pub descriptor : ℕ → Descriptor
  pub made : ℕ
  pub socket : ℕ → Option ℕ
  pub error : ℕ → Code
  pub queue : List Closure
  pub pipe : ℕ
  pub engine_refs : ℕ
  pub trace : List Note

abbrev pub ev_read : ℕ
ev_read = 0

abbrev pub ev_write : ℕ
ev_write = 1

abbrev pub ev_pri : ℕ
ev_pri = 2

abbrev pub absent : Descriptor
absent = record { fd = none; op_queue = λ i. []; refcount = 0; live = false }

-- The multiplexer that the constructor leaves.
abbrev pub new : Epoll
new = record {
  descriptor = λ d. absent;
  made = 0;
  socket = λ v. none;
  error = λ op. success;
  queue = [];
  pipe = 0;
  engine_refs = 0;
  trace = [];
}

abbrev pub set_descriptor : ℕ → Descriptor → Epoll → Epoll
set_descriptor d x s = record s { descriptor = update s.descriptor d x }

abbrev pub note : Note → Epoll → Epoll
note n s = record s { trace = n ∷ s.trace }

-- `op->error() = ec`.
unfoldable pub set_error : ℕ → Code → Epoll → Epoll
set_error op ec s = record s { error = update s.error op ec }

-- `desc = nullptr` and `desc = d`.
unfoldable pub set_socket : ℕ → Option ℕ → Epoll → Epoll
set_socket v d s = record s { socket = update s.socket v d }

-- `engine::add_ref` and `engine::release`.
abbrev pub engine_add_ref : ℕ → ℕ
engine_add_ref n = (n + 1) % int_mod

abbrev pub engine_release : ℕ → ℕ
engine_release n = (n + int_mod - 1) % int_mod

unfoldable pub wake_up : Epoll → Epoll
wake_up s = record s { pipe = s.pipe + 1 }

unfoldable pub op_add : Closure → Epoll → Epoll
op_add c s = record s { queue = s.queue ++ c ∷ []; engine_refs = engine_add_ref s.engine_refs }

unfoldable pub execute : Closure → Epoll → Epoll
execute c s = wake_up (op_add c s)

-- `descriptor_create`; the object is at the address `made`.
unfoldable pub descriptor_create : (fd : ℕ) → Epoll → Epoll
descriptor_create fd s =
    record (set_descriptor s.made
      (record { fd = some fd; op_queue = λ i. []; refcount = 1; live = true }) s) {
        made = suc s.made;
        engine_refs = engine_add_ref s.engine_refs;
      }

unfoldable pub descriptor_add_ref : ℕ → Epoll → Epoll
descriptor_add_ref d s =
    set_descriptor d
      (record (s.descriptor d) { refcount = ((s.descriptor d).refcount + 1) % int_mod }) s

-- `d->op_queue[i].push_back( op )` and `pop_front()`.
unfoldable pub push_op : (d i op : ℕ) → Epoll → Epoll
push_op d i op s =
    let x = s.descriptor d in
    set_descriptor d (record x { op_queue = update x.op_queue i (x.op_queue i ++ op ∷ []) }) s

unfoldable pub set_queue : (d i : ℕ) → List ℕ → Epoll → Epoll
set_queue d i ops s =
    let x = s.descriptor d in set_descriptor d (record x { op_queue = update x.op_queue i ops }) s

-- The loops of `descriptor_release`: `error_aborted` for what has no error yet, and the posting.
unfoldable pub abort_all : List ℕ → (ℕ → Code) → ℕ → Code
abort_all [] error = error
abort_all (op ∷ ops) error =
    abort_all ops (update error op (if is_error (error op) then error op else error_aborted))

unfoldable pub post_all : List ℕ → Epoll → Epoll
post_all [] s = s
post_all (op ∷ ops) s = post_all ops (op_add (operation op) s)

abbrev pub waiting : Descriptor → List ℕ
waiting x = x.op_queue ev_read ++ x.op_queue ev_write ++ x.op_queue ev_pri

abbrev pub wake_if : List ℕ → Epoll → Epoll
wake_if [] s = s
wake_if (op ∷ ops) s = wake_up s

-- The rest of `descriptor_release`, once the count has reached 0.
unfoldable pub descriptor_delete : ℕ → Epoll → Epoll
descriptor_delete d s =
    let ops = waiting (s.descriptor d) in
    wake_if ops (
      post_all ops (record (set_descriptor d absent s) {
        error = abort_all ops s.error;
        engine_refs = engine_release s.engine_refs;
      }))

unfoldable pub descriptor_release : ℕ → Epoll → Epoll
descriptor_release d s =
    let x = s.descriptor d in
    if x.refcount == 1
    then descriptor_delete d s
    else set_descriptor d (record x { refcount = (x.refcount + int_mod - 1) % int_mod }) s

-- `unbind`.
unfoldable pub unbind : (v : ℕ) → Epoll → Epoll
unbind v s = elim (s.socket v) [
  | none ↦ s
  | some d ↦ wake_up (op_add (unbinds d) (set_socket v none s))
]

-- The closure that `unbind` posts.
unfoldable pub run_unbind : ℕ → Epoll → Epoll
run_unbind d s = descriptor_release d (set_descriptor d (record (s.descriptor d) { fd = none }) s)
