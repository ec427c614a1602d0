-- ===== src/Epoll/Requests.antt =====
-- The calls of src/io/epoll.cpp that callers make, each with the answers of the system calls in it.
use deprecated_tcode.Common.{ℕ, Bool, true, false, List, [], ◌∷◌, none, some}
use deprecated_tcode.Epoll.{
  Errno, einprogress, Answer, returned, failed, error_invalid, system, operation, dispatches_read,
  dispatches_write, Epoll, submits, drops, faults, ev_write, note, set_error, set_socket, execute,
  descriptor_create, descriptor_add_ref, descriptor_release, push_op, unbind,
}

-- `desc = descriptor_create( fd )`.
unfoldable pub create_in : (v fd : ℕ) → Epoll → Epoll
create_in v fd s = set_socket v (some s.made) (descriptor_create fd s)

-- `descriptor_release( desc ); desc = nullptr`.
unfoldable pub release_in : (v d : ℕ) → Epoll → Epoll
release_in v d s = set_socket v none (descriptor_release d s)

-- `op->error() = tcode::last_error(); execute( op )`.
unfoldable pub refuse : (op : ℕ) → Errno → Epoll → Epoll
refuse op e s = execute (operation op) (set_error op (system e) s)

-- What follows the loop of `::connect` once it is under way: `bind` of the new descriptor.
unfoldable pub connect_bound : (v op : ℕ) → (bound : Answer) → Epoll → Epoll
connect_bound v op (returned r) s = s
connect_bound v op (failed e) s = elim (s.socket v) [
  | none ↦ s
  | some d ↦ release_in v d (set_error op (system e) s)
]

unfoldable pub connect_start : (v op fd : ℕ) → (bound : Answer) → Epoll → Epoll
connect_start v op fd bound s =
    connect_bound v op bound (push_op s.made ev_write op (create_in v fd s))

unfoldable pub connect_opened : (v op fd : ℕ) → (connected bound : Answer) → Epoll → Epoll
connect_opened v op fd (returned r) bound s = connect_start v op fd bound s
connect_opened v op fd (failed einprogress) bound s = connect_start v op fd bound s
connect_opened v op fd (failed e) bound s = refuse op e s

-- `connected` is the answer that ends the loop over EINTR.
unfoldable pub connect : (v op : ℕ) → (opened connected bound : Answer) → Epoll → Epoll
connect v op (failed e) connected bound s = refuse op e s
connect v op (returned fd) connected bound s = connect_opened v op fd connected bound s

-- `write` and `read` on a descriptor that is not nullptr.
unfoldable pub post_write : (d op : ℕ) → Epoll → Epoll
post_write d op s = execute (dispatches_write d op) (descriptor_add_ref d s)

unfoldable pub post_read : (d op : ℕ) → Epoll → Epoll
post_read d op s = execute (dispatches_read d op) (descriptor_add_ref d s)

-- The tests of `listen`, `open` and the udp `bind` once there is a socket: the descriptor stays in
-- the variable when `bind` can register it.
unfoldable pub register : (v fd : ℕ) → (bound : Answer) → Epoll → Bool × Epoll
register v fd (returned r) s = (true, create_in v fd s)
register v fd (failed e) s = (false, release_in v s.made (create_in v fd s))

unfoldable pub listen : (v : ℕ) → (opened ready bound : Answer) → Epoll → Bool × Epoll
listen v (failed e) ready bound s = (false, s)
listen v (returned fd) (failed e) bound s = (false, s)
listen v (returned fd) (returned r) bound s = register v fd bound s

unfoldable pub open_socket : (v : ℕ) → (opened bound : Answer) → Epoll → Bool × Epoll
open_socket v (failed e) bound s = (false, s)
open_socket v (returned fd) bound s = register v fd bound s

unfoldable pub bind_address : (v : ℕ) → (opened ready bound : Answer) → Epoll → Bool × Epoll
bind_address v (failed e) ready bound s = (false, s)
bind_address v (returned fd) (failed e) bound s = (false, s)
bind_address v (returned fd) (returned r) bound s = register v fd bound s

-- The tcp `write` and `read` use the descriptor without a test for nullptr.
unfoldable pub tcp_write : (v op : ℕ) → Epoll → Epoll
tcp_write v op s = elim (s.socket v) [
  | none ↦ note (faults op) s
  | some d ↦ post_write d op (note (submits op) s)
]

unfoldable pub tcp_read : (v op : ℕ) → Epoll → Epoll
tcp_read v op s = elim (s.socket v) [
  | none ↦ note (faults op) s
  | some d ↦ post_read d op (note (submits op) s)
]

unfoldable pub accept : (v op : ℕ) → Epoll → Epoll
accept v op s = elim (s.socket v) [
  | none ↦ note (drops op) (note (submits op) s)
  | some d ↦ post_read d op (note (submits op) s)
]

-- The udp `write` on nullptr makes the descriptor first.
unfoldable pub write_bound : (v op fd : ℕ) → (bound : Answer) → Epoll → Epoll
write_bound v op fd (returned r) s = post_write s.made op (create_in v fd s)
write_bound v op fd (failed e) s =
    execute (operation op) (release_in v s.made (set_error op (system e) (create_in v fd s)))

unfoldable pub write_opened : (v op : ℕ) → (opened bound : Answer) → Epoll → Epoll
write_opened v op (failed e) bound s = refuse op e s
write_opened v op (returned fd) bound s = write_bound v op fd bound s

unfoldable pub udp_write : (v op : ℕ) → (opened bound : Answer) → Epoll → Epoll
udp_write v op opened bound s = elim (s.socket v) [
  | none ↦ write_opened v op opened bound (note (submits op) s)
  | some d ↦ post_write d op (note (submits op) s)
]

unfoldable pub udp_read : (v op : ℕ) → Epoll → Epoll
udp_read v op s = elim (s.socket v) [
  | none ↦ execute (operation op) (set_error op error_invalid (note (submits op) s))
  | some d ↦ post_read d op (note (submits op) s)
]

-- A call of the multiplexer, by any thread.
pub data Request : Type 0 where
  executes : (op : ℕ) → Request
  connects : (v op : ℕ) → (opened connected bound : Answer) → Request
  tcp_writes tcp_reads accepts udp_reads : (v op : ℕ) → Request
  udp_writes : (v op : ℕ) → (opened bound : Answer) → Request
  listens binds : (v : ℕ) → (opened ready bound : Answer) → Request
  opens : (v : ℕ) → (opened bound : Answer) → Request
  closes : (v : ℕ) → Request

unfoldable pub request : Request → Epoll → Epoll
request (executes op) s = execute (operation op) (note (submits op) s)
request (connects v op opened connected bound) s =
    connect v op opened connected bound (note (submits op) s)
request (tcp_writes v op) s = tcp_write v op s
request (tcp_reads v op) s = tcp_read v op s
request (accepts v op) s = accept v op s
request (udp_reads v op) s = udp_read v op s
request (udp_writes v op opened bound) s = udp_write v op opened bound s
request (listens v opened ready bound) s = (listen v opened ready bound s).1
request (binds v opened ready bound) s = (bind_address v opened ready bound s).1
request (opens v opened bound) s = (open_socket v opened bound s).1
request (closes v) s = unbind v s

unfoldable pub requests : List Request → Epoll → Epoll
requests [] s = s
requests (r ∷ rs) s = requests rs (request r s)
