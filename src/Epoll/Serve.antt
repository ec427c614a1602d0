-- ===== src/Epoll/Serve.antt =====
-- Every call of the multiplexer of src/io/epoll.cpp keeps its invariant.
use deprecated_tcode.Common.{true, ℕ, suc, ◌<◌, ◌≡◌, refl, List, [], ◌∷◌, Option, none, some, arith}
use deprecated_tcode.Epoll.{
  Errno, eintr, eagain, ewouldblock, einprogress, errno, Answer, returned, failed, error_invalid,
  system, Closure, operation, dispatches_read, dispatches_write, Epoll, set_error, set_socket,
  execute, unbind, descriptor_create, ev_write,
}
use deprecated_tcode.Epoll.Sound.{
  Sound, relax, note-Sound, faults-Sound, drops-Sound, set_error-Sound, execute-Sound,
  create_in-Sound, push_op-Sound,
}
use deprecated_tcode.Epoll.References.{release_in-Sound, unbind-Sound, descriptor_add_ref-Sound}
use deprecated_tcode.Epoll.Requests.{
  create_in, refuse, connect_bound, connect_start, connect_opened, connect, post_write, post_read,
  register, listen, open_socket, bind_address, tcp_write, tcp_read, accept, write_bound,
  write_opened, udp_write, udp_read, Request, executes, connects, tcp_writes, tcp_reads, accepts,
  udp_reads, udp_writes, listens, binds, opens, closes, request, requests,
}

-- The variable holds the descriptor that was just made.
pub create_in-holds : (v fd : ℕ) (s : Epoll) → (create_in v fd s).socket v ≡ some s.made
unfolding create_in set_socket descriptor_create
create_in-holds v fd s = ground arith

pub create_in-live : (v fd : ℕ) (s : Epoll) → ((create_in v fd s).descriptor s.made).live ≡ true
unfolding create_in set_socket descriptor_create
create_in-live v fd s = ground arith

pub create_in-made : (v fd : ℕ) (s : Epoll) → s.made < (create_in v fd s).made
unfolding create_in set_socket descriptor_create
create_in-made v fd s = omega arith

-- The two cases of a variable.
pub by_socket :
    (P : Epoll → Type 0) {a : Epoll} {f : ℕ → Epoll} (x : Option ℕ)
    → (x ≡ none → P a)
    → ((d : ℕ) → x ≡ some d → P (f d))
    → P (elim x [ none ↦ a | some d ↦ f d ])
by_socket P none n g = n refl
by_socket P (some d) n g = g d refl

module _ {hand : List Closure} where
  refuse-Sound :
      {k : ℕ} {s : Epoll} (op : ℕ) (e : Errno)
      → Sound k (operation op ∷ hand) s
      → Sound k hand (refuse op e s)
  unfolding refuse
  refuse-Sound op e h = execute-Sound (operation op) (set_error-Sound op (system e) h)

  connect_bound-Sound :
      {k : ℕ} {s : Epoll} (v op : ℕ) (bound : Answer)
      → Sound k hand s
      → Sound k hand (connect_bound v op bound s)
  unfolding connect_bound set_error
  connect_bound-Sound v op (returned r) h = h
  connect_bound-Sound {k} {s} v op (failed e) h =
      by_socket (Sound k hand) (s.socket v) (λ e'. h)
        (λ d e'. release_in-Sound v d e' (set_error-Sound op (system e) h))

  connect_start-Sound :
      {k : ℕ} {s : Epoll} (v op fd : ℕ) (bound : Answer)
      → Sound k (operation op ∷ hand) s
      → Sound k hand (connect_start v op fd bound s)
  unfolding connect_start
  connect_start-Sound {k} {s} v op fd bound h = connect_bound-Sound v op bound (
      push_op-Sound s.made ev_write op (omega arith) (create_in-made v fd s)
        (λ short. create_in-live v fd s) (create_in-Sound v fd h))

  connect_opened-Sound :
      {k : ℕ} {s : Epoll} (v op fd : ℕ) (connected bound : Answer)
      → Sound k (operation op ∷ hand) s
      → Sound k hand (connect_opened v op fd connected bound s)
  unfolding connect_opened
  connect_opened-Sound v op fd (returned r) bound h = connect_start-Sound v op fd bound h
  connect_opened-Sound v op fd (failed einprogress) bound h = connect_start-Sound v op fd bound h
  connect_opened-Sound v op fd (failed eintr) bound h = refuse-Sound op eintr h
  connect_opened-Sound v op fd (failed eagain) bound h = refuse-Sound op eagain h
  connect_opened-Sound v op fd (failed ewouldblock) bound h = refuse-Sound op ewouldblock h
  connect_opened-Sound v op fd (failed (errno n)) bound h = refuse-Sound op (errno n) h

  connect-Sound :
      {k : ℕ} {s : Epoll} (v op : ℕ) (opened connected bound : Answer)
      → Sound k (operation op ∷ hand) s
      → Sound k hand (connect v op opened connected bound s)
  unfolding connect
  connect-Sound v op (failed e) connected bound h = refuse-Sound op e h
  connect-Sound v op (returned fd) connected bound h =
      connect_opened-Sound v op fd connected bound h

  post_write-Sound :
      {k : ℕ} {s : Epoll} (v d op : ℕ)
      → s.socket v ≡ some d
      → Sound (suc k) (operation op ∷ hand) s
      → Sound k hand (post_write d op s)
  unfolding post_write
  post_write-Sound v d op e h =
      descriptor_add_ref-Sound (dispatches_write d op) v d op (λ j. refl) (λ y. refl) (λ l. l) e h

  post_read-Sound :
      {k : ℕ} {s : Epoll} (v d op : ℕ)
      → s.socket v ≡ some d
      → Sound (suc k) (operation op ∷ hand) s
      → Sound k hand (post_read d op s)
  unfolding post_read
  post_read-Sound v d op e h =
      descriptor_add_ref-Sound (dispatches_read d op) v d op (λ j. refl) (λ y. refl) (λ l. l) e h

  register-Sound :
      {k : ℕ} {s : Epoll} (v fd : ℕ) (bound : Answer)
      → Sound k hand s
      → Sound k hand (register v fd bound s).1
  unfolding register
  register-Sound v fd (returned r) h = create_in-Sound v fd h
  register-Sound {s} v fd (failed e) h =
      release_in-Sound v s.made (create_in-holds v fd s) (create_in-Sound v fd h)

  listen-Sound :
      {k : ℕ} {s : Epoll} (v : ℕ) (opened ready bound : Answer)
      → Sound k hand s
      → Sound k hand (listen v opened ready bound s).1
  unfolding listen
  listen-Sound v (failed e) ready bound h = h
  listen-Sound v (returned fd) (failed e) bound h = h
  listen-Sound v (returned fd) (returned r) bound h = register-Sound v fd bound h

  bind_address-Sound :
      {k : ℕ} {s : Epoll} (v : ℕ) (opened ready bound : Answer)
      → Sound k hand s
      → Sound k hand (bind_address v opened ready bound s).1
  unfolding bind_address
  bind_address-Sound v (failed e) ready bound h = h
  bind_address-Sound v (returned fd) (failed e) bound h = h
  bind_address-Sound v (returned fd) (returned r) bound h = register-Sound v fd bound h

  open_socket-Sound :
      {k : ℕ} {s : Epoll} (v : ℕ) (opened bound : Answer)
      → Sound k hand s
      → Sound k hand (open_socket v opened bound s).1
  unfolding open_socket
  open_socket-Sound v (failed e) bound h = h
  open_socket-Sound v (returned fd) bound h = register-Sound v fd bound h

  tcp_write-Sound : {s : Epoll} (v op : ℕ) → Sound 0 hand s → Sound 0 hand (tcp_write v op s)
  unfolding tcp_write
  tcp_write-Sound {s} v op h =
      by_socket (Sound 0 hand) (s.socket v) (λ e. faults-Sound op h)
        (λ d e. post_write-Sound v d op e (note-Sound op h))

  tcp_read-Sound : {s : Epoll} (v op : ℕ) → Sound 0 hand s → Sound 0 hand (tcp_read v op s)
  unfolding tcp_read
  tcp_read-Sound {s} v op h =
      by_socket (Sound 0 hand) (s.socket v) (λ e. faults-Sound op h)
        (λ d e. post_read-Sound v d op e (note-Sound op h))

  accept-Sound : {s : Epoll} (v op : ℕ) → Sound 0 hand s → Sound 0 hand (accept v op s)
  unfolding accept
  accept-Sound {s} v op h =
      by_socket (Sound 0 hand) (s.socket v) (λ e. drops-Sound op (relax (note-Sound op h)))
        (λ d e. post_read-Sound v d op e (note-Sound op h))

  udp_read-Sound : {s : Epoll} (v op : ℕ) → Sound 0 hand s → Sound 0 hand (udp_read v op s)
  unfolding udp_read
  udp_read-Sound {s} v op h =
      by_socket (Sound 0 hand) (s.socket v)
        (λ e.
          execute-Sound (operation op) (set_error-Sound op error_invalid (relax (note-Sound op h))))
        (λ d e. post_read-Sound v d op e (note-Sound op h))

  write_bound-Sound :
      {s : Epoll} (v op fd : ℕ) (bound : Answer)
      → Sound 1 (operation op ∷ hand) s
      → Sound 0 hand (write_bound v op fd bound s)
  unfolding write_bound set_error
  write_bound-Sound {s} v op fd (returned r) h =
      post_write-Sound v s.made op (create_in-holds v fd s) (create_in-Sound v fd h)
  write_bound-Sound {s} v op fd (failed e) h = execute-Sound (operation op) (
      release_in-Sound v s.made (create_in-holds v fd s)
        (set_error-Sound op (system e) (create_in-Sound v fd (relax h))))

  write_opened-Sound :
      {s : Epoll} (v op : ℕ) (opened bound : Answer)
      → Sound 1 (operation op ∷ hand) s
      → Sound 0 hand (write_opened v op opened bound s)
  unfolding write_opened
  write_opened-Sound v op (failed e) bound h = refuse-Sound op e (relax h)
  write_opened-Sound v op (returned fd) bound h = write_bound-Sound v op fd bound h

  udp_write-Sound :
      {s : Epoll} (v op : ℕ) (opened bound : Answer)
      → Sound 0 hand s
      → Sound 0 hand (udp_write v op opened bound s)
  unfolding udp_write
  udp_write-Sound {s} v op opened bound h =
      by_socket (Sound 0 hand) (s.socket v)
        (λ e. write_opened-Sound v op opened bound (note-Sound op h))
        (λ d e. post_write-Sound v d op e (note-Sound op h))

  unbind-Sound_any : {s : Epoll} (v : ℕ) → Sound 0 hand s → Sound 0 hand (unbind v s)
  unfolding unbind execute
  unbind-Sound_any {s} v h =
      by_socket (Sound 0 hand) (s.socket v) (λ e. h) (λ d e. unbind-Sound v d e h)

  pub request-Sound : {s : Epoll} (r : Request) → Sound 0 hand s → Sound 0 hand (request r s)
  unfolding request
  request-Sound (executes op) h = execute-Sound (operation op) (relax (note-Sound op h))
  request-Sound (connects v op opened connected bound) h =
      connect-Sound v op opened connected bound (relax (note-Sound op h))
  request-Sound (tcp_writes v op) h = tcp_write-Sound v op h
  request-Sound (tcp_reads v op) h = tcp_read-Sound v op h
  request-Sound (accepts v op) h = accept-Sound v op h
  request-Sound (udp_reads v op) h = udp_read-Sound v op h
  request-Sound (udp_writes v op opened bound) h = udp_write-Sound v op opened bound h
  request-Sound (listens v opened ready bound) h = listen-Sound v opened ready bound h
  request-Sound (binds v opened ready bound) h = bind_address-Sound v opened ready bound h
  request-Sound (opens v opened bound) h = open_socket-Sound v opened bound h
  request-Sound (closes v) h = unbind-Sound_any v h

  pub requests-Sound :
      (rs : List Request) (s : Epoll) → Sound 0 hand s → Sound 0 hand (requests rs s)
  unfolding requests
  requests-Sound [] s h = h
  requests-Sound (r ∷ rs) s h = requests-Sound rs (request r s) (request-Sound r h)
