-- ===== src/Epoll/Reach.antt =====
-- What holds of the multiplexer of src/io/epoll.cpp at every moment between two steps.
use mathlib.Core.Path.{subst}
use deprecated_tcode.Common.Words.{int_mod}
use deprecated_tcode.Common.{
  true, false, zero, suc, length, length_zero, ℕ_discrete, dec_lt, ◌+◌, ◌<◌, refl, ap, Bool, ℕ, ◌+◌,
  ◌<◌, ◌≡◌, ◌⊎◌, inl, inr, sym, ◌∙◌, true, List, [], some, arith, All, Bool-cases,
}
use deprecated_tcode.Epoll.{Code, Closure, Epoll, new, ev_read, ev_write, ev_pri}
use deprecated_tcode.Epoll.Account.{
  one_if, sum_below, count, queued, submitted, completed, dropped, carried, at_descriptors,
}
use deprecated_tcode.Epoll.Owner.{named, IsShort}
use deprecated_tcode.Epoll.Requests.{Request, request}
use deprecated_tcode.Epoll.Sound.{Sound, new-Sound}
use deprecated_tcode.Epoll.Serve.{request-Sound}
use deprecated_tcode.Epoll.Loop.{Ready, Outcome, run}
use deprecated_tcode.Epoll.Run.{IsReady, run-Served}
use deprecated_tcode.Epoll.Refs.{Refs, live_count, new-Refs}
use deprecated_tcode.Epoll.Stay.{request-Kept}

-- A closure that waits, or a variable of a caller, names the descriptor.
abbrev pub IsUsed : ℕ → List Closure → Epoll → Type 0
IsUsed d hand s = (0 < named d hand) ⊎ (0 < named d s.queue) ⊎ ((v : ℕ) × (s.socket v ≡ some d))

used-live :
    (hand : List Closure) (s : Epoll) (d : ℕ)
    → Sound 0 hand s
    → IsShort s
    → IsUsed d hand s
    → (s.descriptor d).live ≡ true
used-live hand s d h short u =
    let c = h.owned short in
    elim (Bool-cases (s.descriptor d).live) [
      | inl live ↦ live
      | inr dead ↦ elim u [
        | inl n ↦ absurd (omega (arith, n, c.counted d, c.gone d dead))
        | inr (inl n) ↦ absurd (omega (arith, n, c.counted d, c.gone d dead))
        | inr (inr (v, e)) ↦ ground (arith, c.counted d, c.gone d dead, c.owned v d e, e)
      ]
    ]

one_if_zero : (b : Bool) → one_if b ≡ 0 → b ≡ false
one_if_zero true e = absurd (omega (arith, e))
one_if_zero false e = refl

sum_zero : (f : ℕ → ℕ) (n : ℕ) → sum_below f n ≡ 0 → (j : ℕ) → j < n → f j ≡ 0
sum_zero f zero e j l = elim l [ ]
sum_zero f (suc n) e j l = elim (ℕ_discrete j n) [
  | yes same ↦ subst (λ k. f k ≡ 0) (sym same) (omega (arith, e))
  | no ne ↦ sum_zero f n (omega (arith, e)) j (omega (arith, l, ne))
]

sum_of_zero : (f : ℕ → ℕ) (n : ℕ) → ((j : ℕ) → f j ≡ 0) → sum_below f n ≡ 0
sum_of_zero f zero h = refl
sum_of_zero f (suc n) h = omega (arith, sum_of_zero f n h, h n)

at_descriptors_dead :
    (op : ℕ) (s : Epoll) → ((d i : ℕ) → (s.descriptor d).op_queue i ≡ []) → at_descriptors op s ≡ 0
at_descriptors_dead op s h =
    sum_of_zero (λ d. queued op (s.descriptor d)) s.made
      (λ d. omega (
        arith,
        ap (count op) (h d ev_read),
        ap (count op) (h d ev_write),
        ap (count op) (h d ev_pri),
      ))

module _ (handler : ℕ → Code → Epoll → List Request)
    (post_proc : (op d : ℕ) → Epoll → Outcome) where
  -- The states between the calls of callers and the runs of the loop.
  pub data Reached : Epoll → Type 0 where
    started : Reached new
    asked : (s : Epoll) (r : Request) → Reached s → Reached (request r s)
    ran :
        (s t : Epoll) (events : List Ready) (n : ℕ)
        → Reached s
        → All (IsReady s.made) events
        → run handler post_proc events s ≡ some (n, t)
        → Reached t

  Reached-Kept : (s : Epoll) → Reached s → Sound 0 [] s × (IsShort s → Refs 0 s)
  Reached-Kept _ started = (new-Sound, λ short. new-Refs)
  Reached-Kept _ (asked s r p) =
      let (h, b) = Reached-Kept s p in
      let k = request-Kept 0 r s (omega arith) in
      (request-Sound r h, λ short. k.balance 0 (b (omega (arith, short, k.longer))))
  Reached-Kept _ (ran s t events n p ready e) =
      let (h, b) = Reached-Kept s p in
      let (r, e', x) = run-Served handler post_proc events s ready h in
      let same : r ≡ (n, t) = cc in
      subst (λ q. Sound 0 [] q.1 × (IsShort q.1 → Refs 0 q.1)) same
        (x.sound, λ short. x.balance short (b (omega (arith, short, x.longer))))

  Reached-Sound : (s : Epoll) → Reached s → Sound 0 [] s
  Reached-Sound s p = (Reached-Kept s p).0

  -- In every state, each operation that was handed over was called, was dropped by `accept`, waits
  -- to be run, or waits at one descriptor, exactly as often as it was handed over.
  pub Reached-conserved :
      (s : Epoll) (op : ℕ)
      → Reached s
      → submitted op s.trace
        ≡ completed op s.trace + dropped op s.trace + carried op s.queue + at_descriptors op s
  Reached-conserved s op p = let h = Reached-Sound s p in omega (arith, h.conserved op)

  -- In every state whose record is short enough for the counts of references to fit an int, a
  -- descriptor that a waiting closure or a variable of a caller names is not deleted.
  pub Reached-live :
      (s : Epoll) (d : ℕ) → Reached s → IsShort s → IsUsed d [] s → (s.descriptor d).live ≡ true
  Reached-live s d p short u = used-live [] s d (Reached-Sound s p) short u

  -- In every such state two variables never hold the same descriptor.
  pub Reached-apart :
      (s : Epoll) (v w d : ℕ)
      → Reached s
      → IsShort s
      → s.socket v ≡ some d
      → s.socket w ≡ some d
      → v ≡ w
  Reached-apart s v w d p short e f =
      let c = (Reached-Sound s p).owned short in sym (c.owned v d e) ∙ c.owned w d f

  -- In every such state, and with fewer live descriptors and waiting closures than an int counts,
  -- the references that the multiplexer holds on its engine are one for each of them.
  pub Reached-counted :
      (s : Epoll)
      → Reached s
      → IsShort s
      → live_count s + length s.queue < int_mod
      → s.engine_refs ≡ live_count s + length s.queue
  Reached-counted s p short l = omega (arith, (Reached-Kept s p).1 short, l)

  -- In every such state in which the engine's count is 0, so that `engine::run` ends once there is
  -- no timer: no closure waits, each descriptor is deleted, and each operation that was handed over
  -- was called as often, but for those that `accept` dropped.
  pub Reached-finished :
      (s : Epoll)
      → Reached s
      → IsShort s
      → live_count s + length s.queue < int_mod
      → s.engine_refs ≡ 0
      → (s.queue ≡ [])
        × ((d : ℕ) → (s.descriptor d).live ≡ false)
        × ((op : ℕ) → submitted op s.trace ≡ completed op s.trace + dropped op s.trace)
  Reached-finished s p short l z =
      let h = Reached-Sound s p in
      let c = h.owned short in
      let n = Reached-counted s p short l in
      let queue : s.queue ≡ [] = length_zero s.queue (omega (arith, n, z)) in
      let dead : (d : ℕ) → (s.descriptor d).live ≡ false = λ d. elim (dec_lt d s.made) [
        | yes b ↦
            one_if_zero (s.descriptor d).live
              (sum_zero (λ j. one_if (s.descriptor j).live) s.made (omega (arith, n, z)) d b)
        | no ne ↦ c.unmade d (omega (arith, ne))
      ] in
      (
        queue,
        dead,
        λ op.
            let here = at_descriptors_dead op s (λ d i. c.emptied d i (dead d)) in
            omega (arith, h.conserved op, here, ap (carried op) queue),
      )
