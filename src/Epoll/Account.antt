-- ===== src/Epoll/Account.antt =====
-- The accounts of src/io/epoll.cpp: where each operation that was handed over is.
use mathlib.Core.Path.{subst}
use deprecated_tcode.Common.{
  ℕ, zero, suc, ◌+◌, ◌<◌, ◌≤◌, ◌≡◌, ◌≢◌, refl, sym, ap, Bool, true, false, ◌==◌, List, [], ◌∷◌,
  ◌++◌, arith, ℕ_discrete,
}
use deprecated_tcode.Common.Maps.{update_ne}
use deprecated_tcode.Epoll.{
  Code, Closure, operation, dispatches_read, dispatches_write, unbinds, Descriptor, Note, submits,
  completes, drops, faults, Epoll, note, wake_up, op_add, execute, push_op, set_queue, ev_read,
  ev_write, ev_pri,
}

abbrev pub sum_below : (ℕ → ℕ) → ℕ → ℕ
sum_below f zero = 0
sum_below f (suc n) = sum_below f n + f n

pub sum_below_same :
    {f g : ℕ → ℕ} (n : ℕ) → ((j : ℕ) → j < n → g j ≡ f j) → sum_below g n ≡ sum_below f n
sum_below_same zero h = refl
sum_below_same {f} {g} (suc n) h =
    omega (arith, sum_below_same n (λ j l. h j (omega arith)), h n (omega arith))

pub sum_below_change :
    {f g : ℕ → ℕ} (n k : ℕ)
    → k < n
    → ((j : ℕ) → j < n → j ≢ k → g j ≡ f j)
    → sum_below g n + f k ≡ sum_below f n + g k
sum_below_change zero k l h = elim l [ ]
sum_below_change {f} {g} (suc n) k l h = elim (ℕ_discrete n k) [
  | yes e ↦
      let same =
        sum_below_same {f = f} {g = g} n (λ j m. h j (omega arith) (omega (arith, e, m))) in
      subst (λ v. sum_below g n + g n + f v ≡ sum_below f n + f n + g v) e (omega (arith, same))
  | no ne ↦
      let same = sum_below_change {f = f} {g = g} n k (omega arith) (λ j m. h j (omega arith)) in
      omega (arith, same, h n (omega arith) ne)
]

-- How often an operation stands in a queue, a list of closures or the record of the calls.
abbrev pub one_if : Bool → ℕ
one_if true = 1
one_if false = 0

abbrev pub count : ℕ → List ℕ → ℕ
count op [] = 0
count op (x ∷ xs) = one_if (x == op) + count op xs

abbrev pub carries : ℕ → Closure → ℕ
carries op (operation x) = one_if (x == op)
carries op (dispatches_read d x) = one_if (x == op)
carries op (dispatches_write d x) = one_if (x == op)
carries op (unbinds d) = 0

abbrev pub carried : ℕ → List Closure → ℕ
carried op [] = 0
carried op (c ∷ cs) = carries op c + carried op cs

abbrev pub submitted : ℕ → List Note → ℕ
submitted op [] = 0
submitted op (submits x ∷ ns) = one_if (x == op) + submitted op ns
submitted op (completes x ec ∷ ns) = submitted op ns
submitted op (drops x ∷ ns) = submitted op ns
submitted op (faults x ∷ ns) = submitted op ns

abbrev pub completed : ℕ → List Note → ℕ
completed op [] = 0
completed op (submits x ∷ ns) = completed op ns
completed op (completes x ec ∷ ns) = one_if (x == op) + completed op ns
completed op (drops x ∷ ns) = completed op ns
completed op (faults x ∷ ns) = completed op ns

abbrev pub dropped : ℕ → List Note → ℕ
dropped op [] = 0
dropped op (submits x ∷ ns) = dropped op ns
dropped op (completes x ec ∷ ns) = dropped op ns
dropped op (drops x ∷ ns) = one_if (x == op) + dropped op ns
dropped op (faults x ∷ ns) = dropped op ns

abbrev pub queued : ℕ → Descriptor → ℕ
queued op x =
    count op (x.op_queue ev_read) + count op (x.op_queue ev_write) + count op (x.op_queue ev_pri)

-- What waits at the descriptors.
abbrev pub at_descriptors : ℕ → Epoll → ℕ
at_descriptors op s = sum_below (λ d. queued op (s.descriptor d)) s.made

-- With `hand` the closures that the loop has taken and not run: each operation that was handed over
-- was called, was dropped, or is in exactly one place.
abbrev pub Conserved : List Closure → Epoll → Type 0
Conserved hand s =
    (op : ℕ)
    → submitted op s.trace
      ≡ completed op s.trace
        + dropped op s.trace
        + carried op hand
        + carried op s.queue
        + at_descriptors op s

pub count-append : (op : ℕ) (xs ys : List ℕ) → count op (xs ++ ys) ≡ count op xs + count op ys
count-append op [] ys = omega arith
count-append op (x ∷ xs) ys = omega (arith, count-append op xs ys)

pub carried-append :
    (op : ℕ) (xs ys : List Closure) → carried op (xs ++ ys) ≡ carried op xs + carried op ys
carried-append op [] ys = omega arith
carried-append op (x ∷ xs) ys = omega (arith, carried-append op xs ys)

pub op_add-Conserved :
    (c : Closure) (hand : List Closure) (s : Epoll)
    → Conserved (c ∷ hand) s
    → Conserved hand (op_add c s)
unfolding op_add
op_add-Conserved c hand s h op = omega (arith, h op, carried-append op s.queue (c ∷ []))

pub execute-Conserved :
    (c : Closure) (hand : List Closure) (s : Epoll)
    → Conserved (c ∷ hand) s
    → Conserved hand (execute c s)
unfolding execute wake_up
execute-Conserved c hand s h = op_add-Conserved c hand s h

pub submits-Conserved :
    (op : ℕ) (hand : List Closure) (s : Epoll)
    → Conserved hand s
    → Conserved (operation op ∷ hand) (note (submits op) s)
submits-Conserved op hand s h x = omega (arith, h x)

pub completes-Conserved :
    (op : ℕ) (ec : Code) (hand : List Closure) (s : Epoll)
    → Conserved (operation op ∷ hand) s
    → Conserved hand (note (completes op ec) s)
completes-Conserved op ec hand s h x = omega (arith, h x)

pub drops-Conserved :
    (op : ℕ) (hand : List Closure) (s : Epoll)
    → Conserved (operation op ∷ hand) s
    → Conserved hand (note (drops op) s)
drops-Conserved op hand s h x = omega (arith, h x)

-- One descriptor's queues change.
pub at_descriptors-change :
    (op d : ℕ) (s t : Epoll)
    → t.made ≡ s.made
    → d < s.made
    → ((j : ℕ) → j ≢ d → t.descriptor j ≡ s.descriptor j)
    → at_descriptors op t + queued op (s.descriptor d)
      ≡ at_descriptors op s + queued op (t.descriptor d)
at_descriptors-change op d s t e l same =
    subst
      (λ n.
        sum_below (λ j. queued op (t.descriptor j)) n + queued op (s.descriptor d)
        ≡ at_descriptors op s + queued op (t.descriptor d))
      (sym e) (sum_below_change s.made d l (λ j m ne. ap (queued op) (same j ne)))

push_op-queued :
    (d i op x : ℕ) (s : Epoll)
    → i ≤ ev_pri
    → queued x ((push_op d i op s).descriptor d) ≡ queued x (s.descriptor d) + one_if (op == x)
unfolding push_op
push_op-queued d zero op x s h =
    ground (arith, count-append x ((s.descriptor d).op_queue 0) (op ∷ []))
push_op-queued d (suc zero) op x s h =
    ground (arith, count-append x ((s.descriptor d).op_queue 1) (op ∷ []))
push_op-queued d (suc (suc zero)) op x s h =
    ground (arith, count-append x ((s.descriptor d).op_queue 2) (op ∷ []))
push_op-queued d (suc (suc (suc i))) op x s h = absurd (omega (arith, h))

pub push_op-Conserved :
    (d i op : ℕ) (hand : List Closure) (s : Epoll)
    → i ≤ ev_pri
    → d < s.made
    → Conserved (operation op ∷ hand) s
    → Conserved hand (push_op d i op s)
unfolding push_op
push_op-Conserved d i op hand s hi hd h x =
    let q = push_op-queued d i op x s hi in
    let change =
      at_descriptors-change x d s (push_op d i op s) refl hd
        (λ j ne. update_ne s.descriptor d _ j ne) in
    omega (arith, h x, q, change)

set_queue-queued :
    (d i op x : ℕ) (ops : List ℕ) (s : Epoll)
    → i ≤ ev_pri
    → (s.descriptor d).op_queue i ≡ op ∷ ops
    → queued x (s.descriptor d) ≡ queued x ((set_queue d i ops s).descriptor d) + one_if (op == x)
unfolding set_queue
set_queue-queued d zero op x ops s h e = ground (arith, e)
set_queue-queued d (suc zero) op x ops s h e = ground (arith, e)
set_queue-queued d (suc (suc zero)) op x ops s h e = ground (arith, e)
set_queue-queued d (suc (suc (suc i))) op x ops s h e = absurd (omega (arith, h))

pub set_queue-Conserved :
    (d i op : ℕ) (ops : List ℕ) (hand : List Closure) (s : Epoll)
    → i ≤ ev_pri
    → d < s.made
    → (s.descriptor d).op_queue i ≡ op ∷ ops
    → Conserved hand s
    → Conserved (operation op ∷ hand) (set_queue d i ops s)
unfolding set_queue
set_queue-Conserved d i op ops hand s hi hd e h x =
    let q = set_queue-queued d i op x ops s hi e in
    let change =
      at_descriptors-change x d s (set_queue d i ops s) refl hd
        (λ j ne. update_ne s.descriptor d _ j ne) in
    omega (arith, h x, q, change)
