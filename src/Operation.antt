-- ===== src/Operation.antt =====
-- The operations that the multiplexer tries: src/io/ip/tcp/operation_read.cpp, operation_write.cpp and
-- operation_accept.cpp, and their udp counterparts in src/io/ip/udp/, as they are built outside
-- Windows, with the buffers of src/io/buffer.cpp. `answers` is what the system call in the attempt
-- returns, call after call. The lengths and their sums are ints, whose overflow is undefined: integers
-- here, of which the theorems assume that they fit.
pub mod Room
pub mod Whole
mod Tests
use deprecated_tcode.Common.{
  ℕ, zero, suc, ◌+◌, ◌-◌, min, Bool, true, false, not, ◌||◌, ◌==◌, ltb, List, [], ◌∷◌, ◌++◌, Option,
  none, some, if◌then◌else◌, take,
}
use deprecated_tcode.Common.Int.{ℤ, pos, negsuc, pos_part, neg_part, ltb_ℤ, ◌+ℤ◌, ◌-ℤ◌}
use deprecated_tcode.Common.Words.{to_int, to_size, min_int}
use deprecated_tcode.Epoll.{Answer, Code, is_error, Epoll}
use deprecated_tcode.Epoll.Transfer.{Result, writev, readv, read_from, write_to, accept_from}

-- `io::buffer`, an `iovec`, whose length is a `std::size_t`.
pub record Buffer : Type 0 where
  pub buf : ℕ
  pub iov_len : ℕ

-- `len()` and `set( char* , int )`.
unfoldable pub len : Buffer → ℤ
len b = to_int b.iov_len

unfoldable pub set_buffer : ℕ → ℤ → Buffer
set_buffer buf n = record { buf = buf; iov_len = to_size n }

unfoldable pub skip : ℤ → Buffer → Buffer
skip n b = set_buffer (b.buf + pos_part n - neg_part n) (len b -ℤ n)

-- The loops over the buffers: `skips` is what is still to be passed over, and `remain` what is left.
unfoldable pub skipped : (skips : ℤ) → Buffer → Buffer
skipped n b = if ltb_ℤ (pos 0) n then skip (min_int n (len b)) b else b

unfoldable pub skips_left : (skips : ℤ) → Buffer → ℤ
skips_left n b = if ltb_ℤ (pos 0) n then n -ℤ min_int n (len b) else n

unfoldable pub skip_buffers : (skips remain : ℤ) → List Buffer → ℤ × List Buffer
skip_buffers n m [] = (m, [])
skip_buffers n m (b ∷ bs) =
    let b' = skipped n b in
    let rest = skip_buffers (skips_left n b) (m +ℤ len b') bs in (rest.0, b' ∷ rest.1)

abbrev pub is_zero : ℤ → Bool
is_zero (pos zero) = true
is_zero (pos (suc n)) = false
is_zero (negsuc n) = false

-- The fields of a write, or of a read of a fixed length: `moved` is `_write` or `_read`.
pub record Moving : Type 0 where
  pub buffers : List Buffer
  pub moved : ℕ
  pub error : Code

-- What follows the system call in `post_write_impl` and `post_read_impl_fixed_len`.
unfoldable pub moved_on : (n : ℕ) → Moving → Bool × Moving
moved_on n w =
    let r = skip_buffers (pos n) (pos 0) w.buffers in
    (is_zero r.0, record w { buffers = r.1; moved = w.moved + n })

unfoldable pub advance : Result → Moving → Bool × Moving
advance r w =
    let w' = record w { error = r.ec } in
    if is_error r.ec
    then (true, w')
    else elim r.value [ none ↦ (false, w') | some n ↦ moved_on n w' ]

abbrev advanced : Option Result → Moving → Option (Bool × Moving)
advanced none w = none
advanced (some r) w = some (advance r w)

unfoldable pub post_write_impl :
    (fd : Option ℕ) → (answers : List Answer) → Moving → Option (Bool × Moving)
post_write_impl fd answers w = advanced (writev fd answers w.error) w

unfoldable pub post_read_impl_fixed_len :
    (fd : Option ℕ) → (answers : List Answer) → Moving → Option (Bool × Moving)
post_read_impl_fixed_len fd answers w = advanced (readv fd answers w.error) w

-- The fields of the operations that take one call: `moved` is `_read` or `_write`, `none` for -1.
pub record Single : Type 0 where
  pub moved : Option ℕ
  pub error : Code

-- `if ( error() || r >= 0 ) return true; return false;`.
unfoldable pub is_done : Result → Bool
is_done r = is_error r.ec || elim r.value [ none ↦ false | some n ↦ true ]

abbrev concluded : Option Result → Option (Bool × Single)
concluded none = none
concluded (some r) = some (is_done r, record { moved = r.value; error = r.ec })

unfoldable pub post_read_impl :
    (fd : Option ℕ) → (answers : List Answer) → Single → Option (Bool × Single)
post_read_impl fd answers o = concluded (readv fd answers o.error)

unfoldable pub udp_post_read_impl :
    (fd : Option ℕ) → (answers : List Answer) → Single → Option (Bool × Single)
udp_post_read_impl fd answers o = concluded (read_from fd answers o.error)

unfoldable pub udp_post_write_impl :
    (fd : Option ℕ) → (answers : List Answer) → Single → Option (Bool × Single)
udp_post_write_impl fd answers o = concluded (write_to fd answers o.error)

-- `_fd` is the variable `v` of the socket that takes the connection.
unfoldable pub post_accept_impl :
    (fd : Option ℕ)
    → (answers : List Answer) → (v : ℕ) → (error : Code) → Epoll
    → Option (Bool × Code × Epoll)
post_accept_impl fd answers v ec s = elim (accept_from fd answers v ec s) [
  | none ↦ none
  | some (r, s') ↦ some (is_done r, r.ec, s')
]

-- `post_connect`.
unfoldable pub post_connect : Code → Bool × Code
post_connect ec = (true, ec)
