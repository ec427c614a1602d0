-- ===== src/Epoll/Stay.antt =====
-- No call of the multiplexer of src/io/epoll.cpp touches the queues of a descriptor that exists.
use deprecated_tcode.Common.{◌<◌, true, ℕ, ◌≤◌, ◌≡◌, refl, List, [], ◌∷◌, none, some, arith}
use deprecated_tcode.Epoll.{
  Errno, eintr, eagain, ewouldblock, einprogress, errno, Answer, returned, failed, error_invalid,
  system, operation, dispatches_read, dispatches_write, unbinds, submits, drops, faults, Epoll,
  note, set_error, set_socket, execute, push_op, unbind, descriptor_add_ref, ev_write,
}
use deprecated_tcode.Epoll.Serve.{create_in-holds, create_in-live, create_in-made, by_socket}
use deprecated_tcode.Epoll.Requests.{
  create_in, release_in, refuse, connect_bound, connect_start, connect_opened, connect, post_write,
  post_read, register, listen, open_socket, bind_address, tcp_write, tcp_read, accept, write_bound,
  write_opened, udp_write, udp_read, Request, executes, connects, tcp_writes, tcp_reads, accepts,
  udp_reads, udp_writes, listens, binds, opens, closes, request, requests,
}
use deprecated_tcode.Epoll.Keep.{
  Kept, same-Kept, then-Kept, set_error-Kept, set_socket-Kept, execute-Kept, create_in-Kept,
  push_op-Kept, descriptor_add_ref-Kept, release_in-Kept,
}

refuse-Kept : (n op : ℕ) (e : Errno) (s : Epoll) → Kept n s (refuse op e s)
unfolding refuse
refuse-Kept n op e s =
    then-Kept (execute-Kept n (operation op) (set_error op (system e) s))
      (set_error-Kept n op (system e) s)

post_write-Kept : (n d op : ℕ) (s : Epoll) → Kept n s (post_write d op s)
unfolding post_write
post_write-Kept n d op s =
    then-Kept (execute-Kept n (dispatches_write d op) (descriptor_add_ref d s))
      (descriptor_add_ref-Kept n d s)

post_read-Kept : (n d op : ℕ) (s : Epoll) → Kept n s (post_read d op s)
unfolding post_read
post_read-Kept n d op s =
    then-Kept (execute-Kept n (dispatches_read d op) (descriptor_add_ref d s))
      (descriptor_add_ref-Kept n d s)

connect_bound-Kept :
    (n v op d : ℕ) (bound : Answer) (s : Epoll)
    → s.socket v ≡ some d
    → n ≤ d
    → d < s.made
    → (s.descriptor d).live ≡ true
    → Kept n s (connect_bound v op bound s)
unfolding connect_bound set_error
connect_bound-Kept n v op d (returned r) s e h hd live =
    same-Kept n s s refl refl refl refl refl (omega arith)
connect_bound-Kept n v op d (failed x) s e h hd live =
    rw (connect_bound, e)
      (then-Kept (release_in-Kept n v d (set_error op (system x) s) h hd live)
        (set_error-Kept n op (system x) s))

push_op-live :
    (v op fd : ℕ) (s : Epoll)
    → ((push_op s.made ev_write op (create_in v fd s)).descriptor s.made).live ≡ true
unfolding push_op
push_op-live v op fd s = ground (arith, create_in-live v fd s)

connect_start-Kept :
    (n v op fd : ℕ) (bound : Answer) (s : Epoll)
    → n ≤ s.made
    → Kept n s (connect_start v op fd bound s)
unfolding connect_start push_op
connect_start-Kept n v op fd bound s h =
    then-Kept
      (connect_bound-Kept n v op s.made bound (push_op s.made ev_write op (create_in v fd s))
        (create_in-holds v fd s) h (create_in-made v fd s) (push_op-live v op fd s))
      (then-Kept (push_op-Kept n s.made ev_write op (create_in v fd s) h)
        (create_in-Kept n v fd s h))

connect_opened-Kept :
    (n v op fd : ℕ) (connected bound : Answer) (s : Epoll)
    → n ≤ s.made
    → Kept n s (connect_opened v op fd connected bound s)
unfolding connect_opened
connect_opened-Kept n v op fd (returned r) b s h = connect_start-Kept n v op fd b s h
connect_opened-Kept n v op fd (failed einprogress) b s h = connect_start-Kept n v op fd b s h
connect_opened-Kept n v op fd (failed eintr) b s h = refuse-Kept n op eintr s
connect_opened-Kept n v op fd (failed eagain) b s h = refuse-Kept n op eagain s
connect_opened-Kept n v op fd (failed ewouldblock) b s h = refuse-Kept n op ewouldblock s
connect_opened-Kept n v op fd (failed (errno e)) b s h = refuse-Kept n op (errno e) s

connect-Kept :
    (n v op : ℕ) (opened connected bound : Answer) (s : Epoll)
    → n ≤ s.made
    → Kept n s (connect v op opened connected bound s)
unfolding connect
connect-Kept n v op (failed e) c b s h = refuse-Kept n op e s
connect-Kept n v op (returned fd) c b s h = connect_opened-Kept n v op fd c b s h

register-Kept :
    (n v fd : ℕ) (bound : Answer) (s : Epoll) → n ≤ s.made → Kept n s (register v fd bound s).1
unfolding register
register-Kept n v fd (returned r) s h = create_in-Kept n v fd s h
register-Kept n v fd (failed e) s h =
    then-Kept
      (release_in-Kept n v s.made (create_in v fd s) h (create_in-made v fd s)
        (create_in-live v fd s))
      (create_in-Kept n v fd s h)

listen-Kept :
    (n v : ℕ) (opened ready bound : Answer) (s : Epoll)
    → n ≤ s.made
    → Kept n s (listen v opened ready bound s).1
unfolding listen
listen-Kept n v (failed e) r b s h = same-Kept n s s refl refl refl refl refl (omega arith)
listen-Kept n v (returned fd) (failed e) b s h =
    same-Kept n s s refl refl refl refl refl (omega arith)
listen-Kept n v (returned fd) (returned r) b s h = register-Kept n v fd b s h

bind_address-Kept :
    (n v : ℕ) (opened ready bound : Answer) (s : Epoll)
    → n ≤ s.made
    → Kept n s (bind_address v opened ready bound s).1
unfolding bind_address
bind_address-Kept n v (failed e) r b s h = same-Kept n s s refl refl refl refl refl (omega arith)
bind_address-Kept n v (returned fd) (failed e) b s h =
    same-Kept n s s refl refl refl refl refl (omega arith)
bind_address-Kept n v (returned fd) (returned r) b s h = register-Kept n v fd b s h

open_socket-Kept :
    (n v : ℕ) (opened bound : Answer) (s : Epoll)
    → n ≤ s.made
    → Kept n s (open_socket v opened bound s).1
unfolding open_socket
open_socket-Kept n v (failed e) b s h = same-Kept n s s refl refl refl refl refl (omega arith)
open_socket-Kept n v (returned fd) b s h = register-Kept n v fd b s h

submitted-Kept : (n op : ℕ) (s : Epoll) → Kept n s (note (submits op) s)
submitted-Kept n op s = same-Kept n s (note (submits op) s) refl refl refl refl refl (omega arith)

faulted-Kept : (n op : ℕ) (s : Epoll) → Kept n s (note (faults op) s)
faulted-Kept n op s = same-Kept n s (note (faults op) s) refl refl refl refl refl (omega arith)

tcp_write-Kept : (n v op : ℕ) (s : Epoll) → Kept n s (tcp_write v op s)
unfolding tcp_write
tcp_write-Kept n v op s =
    by_socket (Kept n s) (s.socket v) (λ e. faulted-Kept n op s)
      (λ d e. then-Kept (post_write-Kept n d op (note (submits op) s)) (submitted-Kept n op s))

tcp_read-Kept : (n v op : ℕ) (s : Epoll) → Kept n s (tcp_read v op s)
unfolding tcp_read
tcp_read-Kept n v op s =
    by_socket (Kept n s) (s.socket v) (λ e. faulted-Kept n op s)
      (λ d e. then-Kept (post_read-Kept n d op (note (submits op) s)) (submitted-Kept n op s))

accept-Kept : (n v op : ℕ) (s : Epoll) → Kept n s (accept v op s)
unfolding accept
accept-Kept n v op s =
    by_socket (Kept n s) (s.socket v)
      (λ e.
        same-Kept n s (note (drops op) (note (submits op) s)) refl refl refl refl refl
          (omega arith))
      (λ d e. then-Kept (post_read-Kept n d op (note (submits op) s)) (submitted-Kept n op s))

udp_read-Kept : (n v op : ℕ) (s : Epoll) → Kept n s (udp_read v op s)
unfolding udp_read
udp_read-Kept n v op s =
    let t = note (submits op) s in
    by_socket (Kept n s) (s.socket v)
      (λ e.
        then-Kept (execute-Kept n (operation op) (set_error op error_invalid t))
          (then-Kept (set_error-Kept n op error_invalid t) (submitted-Kept n op s)))
      (λ d e. then-Kept (post_read-Kept n d op t) (submitted-Kept n op s))

write_bound-Kept :
    (n v op fd : ℕ) (bound : Answer) (s : Epoll)
    → n ≤ s.made
    → Kept n s (write_bound v op fd bound s)
unfolding write_bound set_error
write_bound-Kept n v op fd (returned r) s h =
    then-Kept (post_write-Kept n s.made op (create_in v fd s)) (create_in-Kept n v fd s h)
write_bound-Kept n v op fd (failed e) s h =
    let t = set_error op (system e) (create_in v fd s) in
    then-Kept (execute-Kept n (operation op) (release_in v s.made t)) (
      then-Kept (release_in-Kept n v s.made t h (create_in-made v fd s) (create_in-live v fd s))
        (then-Kept (set_error-Kept n op (system e) (create_in v fd s)) (create_in-Kept n v fd s h)))

write_opened-Kept :
    (n v op : ℕ) (opened bound : Answer) (s : Epoll)
    → n ≤ s.made
    → Kept n s (write_opened v op opened bound s)
unfolding write_opened
write_opened-Kept n v op (failed e) b s h = refuse-Kept n op e s
write_opened-Kept n v op (returned fd) b s h = write_bound-Kept n v op fd b s h

udp_write-Kept :
    (n v op : ℕ) (opened bound : Answer) (s : Epoll)
    → n ≤ s.made
    → Kept n s (udp_write v op opened bound s)
unfolding udp_write
udp_write-Kept n v op o b s h =
    let t = note (submits op) s in
    by_socket (Kept n s) (s.socket v)
      (λ e. then-Kept (write_opened-Kept n v op o b t h) (submitted-Kept n op s))
      (λ d e. then-Kept (post_write-Kept n d op t) (submitted-Kept n op s))

unbind-Kept : (n v : ℕ) (s : Epoll) → Kept n s (unbind v s)
unfolding unbind execute
unbind-Kept n v s =
    by_socket (Kept n s) (s.socket v) (λ e. same-Kept n s s refl refl refl refl refl (omega arith))
      (λ d e.
        then-Kept (execute-Kept n (unbinds d) (set_socket v none s)) (set_socket-Kept n v none s))

pub request-Kept : (n : ℕ) (r : Request) (s : Epoll) → n ≤ s.made → Kept n s (request r s)
unfolding request
request-Kept n (executes op) s h =
    then-Kept (execute-Kept n (operation op) (note (submits op) s)) (submitted-Kept n op s)
request-Kept n (connects v op o c b) s h =
    then-Kept (connect-Kept n v op o c b (note (submits op) s) h) (submitted-Kept n op s)
request-Kept n (tcp_writes v op) s h = tcp_write-Kept n v op s
request-Kept n (tcp_reads v op) s h = tcp_read-Kept n v op s
request-Kept n (accepts v op) s h = accept-Kept n v op s
request-Kept n (udp_reads v op) s h = udp_read-Kept n v op s
request-Kept n (udp_writes v op o b) s h = udp_write-Kept n v op o b s h
request-Kept n (listens v o r b) s h = listen-Kept n v o r b s h
request-Kept n (binds v o r b) s h = bind_address-Kept n v o r b s h
request-Kept n (opens v o b) s h = open_socket-Kept n v o b s h
request-Kept n (closes v) s h = unbind-Kept n v s

pub requests-Kept : (n : ℕ) (rs : List Request) (s : Epoll) → n ≤ s.made → Kept n s (requests rs s)
unfolding requests
requests-Kept n [] s h = same-Kept n s s refl refl refl refl refl (omega arith)
requests-Kept n (r ∷ rs) s h =
    let k = request-Kept n r s h in
    then-Kept (requests-Kept n rs (request r s) (omega (arith, h, k.grows))) k
