-- ===== src/Operation/Whole.antt =====
-- The attempts of one operation of src/io/ip/tcp/operation_write.cpp or operation_read.cpp, taken
-- together: what an operation that ends without an error has moved.
use deprecated_tcode.Common.{
  length_zero, length, length-drop, zero, suc, ℕ, ◌+◌, ◌-◌, ◌≤◌, ◌≡◌, refl, sym, ap, ◌∙◌, Bool,
  true, false, List, [], ◌∷◌, ◌++◌, Option, none, some, arith, drop, take, if◌then◌else◌,
}
use deprecated_tcode.Common.Int.{pos}
use deprecated_tcode.Common.Words.{int_max}
use deprecated_tcode.Epoll.{Answer, returned, failed, Code, is_error}
use deprecated_tcode.Epoll.Attempt.{Gives}
use deprecated_tcode.Epoll.Transfer.{Result, retry, writev, write_result, refused}
use deprecated_tcode.Operation.{skip_buffers, is_zero, Moving, moved_on, advance, post_write_impl}
use deprecated_tcode.Operation.Room.{room, room-IsSmall, skip_buffers_lem}

-- The bytes that a call moves.
abbrev pub bytes : Answer → ℕ
bytes (returned n) = n
bytes (failed e) = 0

-- What the system's calls answer: the loop over EINTR ends each time, and a call moves no more bytes
-- than are left of `n`.
abbrev pub IsServed : List (List Answer) → ℕ → Type 0
IsServed [] n = Unit
IsServed (answers ∷ rest) n =
    (a : Answer) × (retry answers ≡ some a) × (bytes a ≤ n) × IsServed rest (n - bytes a)

-- An int counts the bytes that were moved and those that are left.
abbrev pub IsInt : Moving → Type 0
IsInt w = w.moved + length (room w.buffers) ≤ int_max

-- One attempt that moves at most `k` bytes: those that it counts are the next ones, and it is done
-- without an error only when no byte is left.
record Stepped (w : Moving) (k : ℕ) (r : Bool × Moving) : Type 0 where
  grows : w.moved ≤ r.1.moved
  left : room r.1.buffers ≡ drop (r.1.moved - w.moved) (room w.buffers)
  counted : r.1.moved + length (room r.1.buffers) ≡ w.moved + length (room w.buffers)
  at_most : r.1.moved ≤ w.moved + k
  whole : r.0 ≡ true → is_error r.1.error ≡ false → room r.1.buffers ≡ []

is_zero_lem : (n : ℕ) → is_zero (pos n) ≡ true → n ≡ 0
is_zero_lem zero e = refl
is_zero_lem (suc n) e = absurd (ground (arith, e))

moved_on-Stepped :
    (n k : ℕ) (ec : Code) (w : Moving)
    → n ≤ k
    → k ≤ length (room w.buffers)
    → IsInt w
    → Stepped w k (moved_on n (record w { error = ec }))
unfolding moved_on
moved_on-Stepped n k ec w le fits h =
    let s = skip_buffers_lem n 0 w.buffers (room-IsSmall w.buffers (omega (arith, h))) in
    record {
      grows = omega arith;
      left = s.left ∙ ap (λ j. drop j (room w.buffers)) (omega arith);
      counted = omega (arith, ap length s.left, length-drop n (room w.buffers), le, fits);
      at_most = omega (arith, le);
      whole = λ d e.
          let rest = room (skip_buffers (pos n) (pos 0) w.buffers).1 in
          let z = is_zero_lem (0 + length rest) (sym (ap is_zero s.remain) ∙ d) in
          length_zero rest (omega (arith, z));
    }

-- An attempt that moves nothing and is done only with an error.
idle-Stepped :
    (k : ℕ) (w : Moving) (ec : Code) (done : Bool)
    → (done ≡ true → is_error ec ≡ true)
    → Stepped w k (done, record w { error = ec })
idle-Stepped k w ec done f = record {
  grows = omega arith;
  left = ap (λ j. drop j (room w.buffers)) {x = 0} (omega arith);
  counted = refl;
  at_most = omega arith;
  whole = λ d e. ground (arith, f d, e);
}

by_test :
    {A : Type 0} (P : A → Type 0) {x y : A} (b : Bool)
    → (b ≡ true → P x)
    → (b ≡ false → P y)
    → P (if b then x else y)
by_test P true f g = f refl
by_test P false f g = g refl

-- A result that is no more than `k`.
abbrev Within : ℕ → Option ℕ → Type 0
Within k none = Unit
Within k (some n) = n ≤ k

value_lem :
    (v : Option ℕ) (k : ℕ) (ec : Code) (w : Moving)
    → is_error ec ≡ false
    → Within k v
    → k ≤ length (room w.buffers)
    → IsInt w
    → Stepped w k (elim v [
      | none ↦ (false, record w { error = ec })
      | some n ↦ moved_on n (record w { error = ec })
    ])
value_lem none k ec w good within fits h = idle-Stepped k w ec false (λ d. ground (arith, d))
value_lem (some n) k ec w good within fits h = moved_on-Stepped n k ec w within fits h

advance-Stepped :
    (r : Result) (k : ℕ) (w : Moving)
    → Within k r.value
    → k ≤ length (room w.buffers)
    → IsInt w
    → Stepped w k (advance r w)
unfolding advance
advance-Stepped r k w within fits h =
    by_test (Stepped w k) (is_error r.ec) (λ bad. idle-Stepped k w r.ec true (λ d. bad))
      (λ good. value_lem r.value k r.ec w good within fits h)

-- The bytes that an attempt counts: the next addresses of the buffers.
abbrev pub taken : Moving → Moving → List ℕ
taken w w' = take (w'.moved - w.moved) (room w.buffers)

abbrev pub after_taken : List ℕ → Option (Bool × Moving × List ℕ) → Option (Bool × Moving × List ℕ)
after_taken xs none = none
after_taken xs (some (done, w, sent)) = some (done, w, xs ++ sent)

-- The attempts that the multiplexer makes, one each time that the descriptor is ready, until one is
-- done; with the bytes that they count.
unfoldable pub transfer :
    (List Answer → Moving → Option (Bool × Moving))
    → List (List Answer)
    → Moving
    → Option (Bool × Moving × List ℕ)
transfer post [] w = some (false, w, [])
transfer post (answers ∷ rest) w = elim (post answers w) [
  | none ↦ none
  | some (done, w') ↦
      let more = transfer post rest w' in
      if done then some (true, w', taken w w') else after_taken (taken w w') more
]

-- The bytes that were taken, followed by those that are left, are the bytes of the buffers at the
-- start; and none is left when the operation is done without an error.
abbrev pub IsWhole : Moving → Bool × Moving × List ℕ → Type 0
IsWhole w (done, w', sent) =
    (sent ++ room w'.buffers ≡ room w.buffers)
    × (done ≡ true → is_error w'.error ≡ false → sent ≡ room w.buffers)

abbrev Attempts : (List Answer → Moving → Option (Bool × Moving)) → Type 0
Attempts post =
    (answers : List Answer) (w : Moving) (a : Answer)
    → retry answers ≡ some a
    → bytes a ≤ length (room w.buffers)
    → IsInt w
    → Gives (Stepped w (bytes a)) (post answers w)

write_result-Within : (ec : Code) (a : Answer) → Within (bytes a) (write_result ec a).value
unfolding write_result refused
write_result-Within ec (returned n) = omega arith
write_result-Within ec (failed e) = tt

writes : (fd : Option ℕ) → Attempts (post_write_impl fd)
unfolding post_write_impl writev
writes none answers w a e fits h = (_, refl, advance-Stepped _ (bytes a) w tt fits h)
writes (some fd) answers w a e fits h = (
  advance (write_result w.error a) w,
  rw e refl,
  advance-Stepped (write_result w.error a) (bytes a) w (write_result-Within w.error a) fits h,
)
