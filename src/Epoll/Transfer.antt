-- ===== src/Epoll/Transfer.antt =====
-- The calls of src/io/epoll.cpp that move data: `writev`, `readv`, `accept`, `read` and `write`.
-- `answers` is what the system call returns, call after call; `none` stands for -1 in a result, and
-- for an answer that never comes where the loop over EINTR does not end.
use mathlib.Core.Path.{subst}
use deprecated_tcode.Common.{
  ℕ, zero, suc, ◌≡◌, ◌≢◌, refl, sym, Bool, true, false, List, [], ◌∷◌, ◌++◌, Option, none, some,
  if◌then◌else◌, All,
}
use deprecated_tcode.Epoll.{
  Errno, eintr, eagain, ewouldblock, einprogress, errno, Answer, returned, failed, Code, success,
  error_invalid, error_disconnected, system, Epoll,
}
use deprecated_tcode.Epoll.Requests.{create_in}

-- `do { r = ...; } while ( r == -1 && errno == EINTR )`.
unfoldable pub retry : List Answer → Option Answer
retry [] = none
retry (returned r ∷ answers) = some (returned r)
retry (failed eintr ∷ answers) = retry answers
retry (failed e ∷ answers) = some (failed e)

-- `( errno == EAGAIN ) || ( errno == EWOULDBLOCK )`.
unfoldable pub would_block : Errno → Bool
would_block eintr = false
would_block eagain = true
would_block ewouldblock = true
would_block einprogress = false
would_block (errno n) = false

-- What the call returns and what it leaves in `ec`.
pub record Result : Type 0 where
  pub value : Option ℕ
  pub ec : Code

unfoldable pub refused : Errno → Result
refused e = record { value = none; ec = if would_block e then success else system e }

unfoldable pub write_result : Code → Answer → Result
write_result ec (returned r) = record { value = some r; ec = ec }
write_result ec (failed e) = refused e

unfoldable pub read_result : Code → Answer → Result
read_result ec (returned zero) = record { value = none; ec = error_disconnected }
read_result ec (returned (suc r)) = record { value = some (suc r); ec = ec }
read_result ec (failed e) = refused e

abbrev answered : (Answer → Result) → Option Answer → Option Result
answered f none = none
answered f (some a) = some (f a)

abbrev invalid : Result
invalid = record { value = none; ec = error_invalid }

unfoldable pub writev : (fd : Option ℕ) → (answers : List Answer) → Code → Option Result
writev none answers ec = some invalid
writev (some fd) answers ec = answered (write_result ec) (retry answers)

unfoldable pub readv : (fd : Option ℕ) → (answers : List Answer) → Code → Option Result
readv none answers ec = some invalid
readv (some fd) answers ec = answered (read_result ec) (retry answers)

-- `recvfrom` and `sendto`.
unfoldable pub read_from : (fd : Option ℕ) → (answers : List Answer) → Code → Option Result
read_from none answers ec = some invalid
read_from (some fd) answers ec = answered (write_result ec) (retry answers)

unfoldable pub write_to : (fd : Option ℕ) → (answers : List Answer) → Code → Option Result
write_to none answers ec = some invalid
write_to (some fd) answers ec = answered (write_result ec) (retry answers)

-- The descriptor for an accepted file descriptor is put in the variable `v`.
unfoldable pub accept_result : (v : ℕ) → Code → Answer → Epoll → Result × Epoll
accept_result v ec (returned fd) s = (record { value = some 0; ec = ec }, create_in v fd s)
accept_result v ec (failed e) s = (refused e, s)

unfoldable pub accept_from :
    (fd : Option ℕ) → (answers : List Answer) → (v : ℕ) → Code → Epoll → Option (Result × Epoll)
accept_from none answers v ec s = some (invalid, s)
accept_from (some fd) answers v ec s = elim (retry answers) [
  | none ↦ none
  | some a ↦ some (accept_result v ec a s)
]

-- An answer that ends the loop.
abbrev pub IsFinal : Answer → Type 0
IsFinal a = a ≢ failed eintr

abbrev pub IsInterrupted : Answer → Type 0
IsInterrupted a = a ≡ failed eintr

retry_final : (a : Answer) (answers : List Answer) → IsFinal a → retry (a ∷ answers) ≡ some a
unfolding retry
retry_final (returned r) answers h = refl
retry_final (failed eintr) answers h = absurd (h refl)
retry_final (failed eagain) answers h = refl
retry_final (failed ewouldblock) answers h = refl
retry_final (failed einprogress) answers h = refl
retry_final (failed (errno n)) answers h = refl

-- The loop returns the first answer that is not EINTR, after any number of interruptions.
pub retry_first :
    (before rest : List Answer) (a : Answer)
    → All IsInterrupted before
    → IsFinal a
    → retry (before ++ a ∷ rest) ≡ some a
unfolding retry
retry_first [] rest a i h = retry_final a rest h
retry_first (x ∷ before) rest a i h =
    subst (λ y. retry (y ∷ (before ++ a ∷ rest)) ≡ some a) (sym i.0)
      (retry_first before rest a i.1 h)

-- After any number of interruptions, `writev` on an open descriptor returns what the first other
-- answer says: its number, or -1 with no error where the call would block, or -1 with the error.
pub writev_first :
    (fd : ℕ) (before rest : List Answer) (a : Answer) (ec : Code)
    → All IsInterrupted before
    → IsFinal a
    → writev (some fd) (before ++ a ∷ rest) ec ≡ some (write_result ec a)
unfolding writev
writev_first fd before rest a ec i h = rw (retry_first before rest a i h) refl

pub readv_first :
    (fd : ℕ) (before rest : List Answer) (a : Answer) (ec : Code)
    → All IsInterrupted before
    → IsFinal a
    → readv (some fd) (before ++ a ∷ rest) ec ≡ some (read_result ec a)
unfolding readv
readv_first fd before rest a ec i h = rw (retry_first before rest a i h) refl
