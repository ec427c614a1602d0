-- ===== src/Epoll/Owner.antt =====
-- The reference counts of the descriptors of src/io/epoll.cpp: who holds one, and what each
-- operation does to the holders.
use deprecated_tcode.Common.{
  ℕ, suc, ◌+◌, ◌<◌, ◌≤◌, ◌≡◌, refl, false, ◌==◌, List, [], ◌∷◌, ◌++◌, Option, none, some, arith,
  length,
}
use deprecated_tcode.Common.Words.{int_mod}
use deprecated_tcode.Epoll.{
  Closure, operation, dispatches_read, dispatches_write, unbinds, Descriptor, Note, Epoll, note,
  set_socket, op_add, execute, wake_up, descriptor_add_ref, set_descriptor, new,
}
use deprecated_tcode.Epoll.Account.{one_if}

-- The descriptor that a closure keeps alive.
abbrev pub names : ℕ → Closure → ℕ
names d (operation x) = 0
names d (dispatches_read x op) = one_if (x == d)
names d (dispatches_write x op) = one_if (x == d)
names d (unbinds x) = one_if (x == d)

abbrev pub named : ℕ → List Closure → ℕ
named d [] = 0
named d (c ∷ cs) = names d c + named d cs

abbrev pub held : Option ℕ → ℕ → ℕ
held none d = 0
held (some x) d = one_if (x == d)

-- With `hand` the closures that the loop has taken and not run, and `slack` the references that a
-- call in progress may still add.
pub record Counts (slack : ℕ) (hand : List Closure) (s : Epoll) : Type 0 where
  pub owner : ℕ → ℕ
  pub owned : (v d : ℕ) → s.socket v ≡ some d → owner d ≡ v
  pub counted :
      (d : ℕ)
      → named d hand + named d s.queue + held (s.socket (owner d)) d ≤ (s.descriptor d).refcount
  pub small : (d : ℕ) → (s.descriptor d).refcount + slack ≤ 1 + length s.trace
  pub slack_small : slack ≤ length s.trace
  pub gone : (d : ℕ) → (s.descriptor d).live ≡ false → (s.descriptor d).refcount ≡ 0
  pub unmade : (d : ℕ) → s.made ≤ d → (s.descriptor d).live ≡ false
  pub emptied : (d i : ℕ) → (s.descriptor d).live ≡ false → (s.descriptor d).op_queue i ≡ []

-- The record of the calls stays below what an int counts.
abbrev pub IsShort : Epoll → Type 0
IsShort s = length s.trace + 1 < int_mod

abbrev pub Owned : ℕ → List Closure → Epoll → Type 0
Owned slack hand s = IsShort s → Counts slack hand s

pub named-append : (d : ℕ) (xs ys : List Closure) → named d (xs ++ ys) ≡ named d xs + named d ys
named-append d [] ys = omega arith
named-append d (x ∷ xs) ys = omega (arith, named-append d xs ys)

pub new-Owned : Owned 0 [] new
new-Owned short = record {
  owner = λ d. 0;
  owned = λ v d e. ground (arith, e);
  counted = λ d. omega arith;
  small = λ d. omega arith;
  slack_small = omega arith;
  gone = λ d e. refl;
  unmade = λ d e. refl;
  emptied = λ d i e. refl;
}

pub note-Owned :
    (n : Note) (k : ℕ) (hand : List Closure) (s : Epoll)
    → Owned k hand s
    → Owned (suc k) hand (note n s)
note-Owned n k hand s h short =
    let c = h (omega (arith, short)) in
    record {
      owner = c.owner;
      owned = c.owned;
      counted = c.counted;
      small = λ d. omega (arith, c.small d);
      slack_small = omega (arith, c.slack_small);
      gone = c.gone;
      unmade = c.unmade;
      emptied = c.emptied;
    }

pub drop_slack : (k : ℕ) (hand : List Closure) (s : Epoll) → Owned (suc k) hand s → Owned k hand s
drop_slack k hand s h short =
    let c = h short in
    record {
      owner = c.owner;
      owned = c.owned;
      counted = c.counted;
      small = λ d. omega (arith, c.small d);
      slack_small = omega (arith, c.slack_small);
      gone = c.gone;
      unmade = c.unmade;
      emptied = c.emptied;
    }

pub op_add-Owned :
    (c : Closure) (k : ℕ) (hand : List Closure) (s : Epoll)
    → Owned k (c ∷ hand) s
    → Owned k hand (op_add c s)
unfolding op_add
op_add-Owned x k hand s h short =
    let c = h short in
    record {
      owner = c.owner;
      owned = c.owned;
      counted = λ d. omega (arith, c.counted d, named-append d s.queue (x ∷ []));
      small = c.small;
      slack_small = c.slack_small;
      gone = c.gone;
      unmade = c.unmade;
      emptied = c.emptied;
    }

-- An operation holds no descriptor.
pub take-Owned :
    (op k : ℕ) (hand : List Closure) (s : Epoll) → Owned k hand s → Owned k (operation op ∷ hand) s
take-Owned op k hand s h short =
    let c = h short in
    record {
      owner = c.owner;
      owned = c.owned;
      counted = λ d. omega (arith, c.counted d);
      small = c.small;
      slack_small = c.slack_small;
      gone = c.gone;
      unmade = c.unmade;
      emptied = c.emptied;
    }

-- A change of a descriptor that keeps its count.
pub set_descriptor-Owned :
    (d : ℕ) (x : Descriptor) (k : ℕ) (hand : List Closure) (s : Epoll)
    → x.refcount ≡ (s.descriptor d).refcount
    → x.live ≡ (s.descriptor d).live
    → (IsShort s → (i : ℕ) → x.live ≡ false → (s.descriptor d).op_queue i ≡ [] → x.op_queue i ≡ [])
    → Owned k hand s
    → Owned k hand (set_descriptor d x s)
set_descriptor-Owned d x k hand s er el keep h short =
    let c = h short in
    record {
      owner = c.owner;
      owned = c.owned;
      counted = λ j. ground (arith, c.counted j, er);
      small = λ j. ground (arith, c.small j, er);
      slack_small = c.slack_small;
      gone = λ j e. ground (arith, c.gone j, er, el, e);
      unmade = λ j l. ground (arith, c.unmade j l, el);
      emptied = λ j i g. ground (arith, c.emptied j i, keep short i, el, g);
    }

-- A change that no holder reads.
pub same-Owned :
    (k : ℕ) (hand : List Closure) (s t : Epoll)
    → t.descriptor ≡ s.descriptor
    → t.made ≡ s.made
    → t.socket ≡ s.socket
    → t.queue ≡ s.queue
    → t.trace ≡ s.trace
    → Owned k hand s
    → Owned k hand t
same-Owned k hand s t d m v q r h short =
    let c = h (rw r at short) in
    record {
      owner = c.owner;
      owned = rw v c.owned;
      counted = rw (d, v, q) c.counted;
      small = rw (d, r) c.small;
      slack_small = rw r c.slack_small;
      gone = rw d c.gone;
      unmade = rw (d, m) c.unmade;
      emptied = rw d c.emptied;
    }

pub wake_up-Owned :
    (k : ℕ) (hand : List Closure) (s : Epoll) → Owned k hand s → Owned k hand (wake_up s)
unfolding wake_up
wake_up-Owned k hand s h = same-Owned k hand s (wake_up s) refl refl refl refl refl h

pub execute-Owned :
    (c : Closure) (k : ℕ) (hand : List Closure) (s : Epoll)
    → Owned k (c ∷ hand) s
    → Owned k hand (execute c s)
unfolding execute
execute-Owned x k hand s h = wake_up-Owned k hand (op_add x s) (op_add-Owned x k hand s h)

-- The closure in hand is exchanged for one that holds the same descriptor.
pub exchange-Owned :
    (x y : Closure) (k : ℕ) (hand : List Closure) (s : Epoll)
    → ((d : ℕ) → names d y ≡ names d x)
    → Owned k (x ∷ hand) s
    → Owned k (y ∷ hand) s
exchange-Owned x y k hand s n h short =
    let c = h short in
    record {
      owner = c.owner;
      owned = c.owned;
      counted = λ d. omega (arith, c.counted d, n d);
      small = c.small;
      slack_small = c.slack_small;
      gone = c.gone;
      unmade = c.unmade;
      emptied = c.emptied;
    }

-- `unbind` and a failed `bind` take the descriptor out of its variable.
pub clear-Owned :
    (v d k : ℕ) (hand : List Closure) (s : Epoll)
    → s.socket v ≡ some d
    → Owned k hand s
    → Owned k (unbinds d ∷ hand) (set_socket v none s)
unfolding set_socket
clear-Owned v d k hand s e h short =
    let c = h short in
    record {
      owner = c.owner;
      owned = λ w j f. ground (arith, c.owned w j, f);
      counted = λ j. ground (arith, c.counted j, c.owned v d e, e);
      small = c.small;
      slack_small = c.slack_small;
      gone = c.gone;
      unmade = c.unmade;
      emptied = c.emptied;
    }

-- `x` is the closure that the call posts for the operation.
pub descriptor_add_ref-Owned :
    (x : Closure) (v d op k : ℕ) (hand : List Closure) (s : Epoll)
    → ((j : ℕ) → names j x ≡ one_if (d == j))
    → s.socket v ≡ some d
    → Owned (suc k) (operation op ∷ hand) s
    → Owned k (x ∷ hand) (descriptor_add_ref d s)
unfolding descriptor_add_ref
descriptor_add_ref-Owned x v d op k hand s n e h short =
    let c = h short in
    record {
      owner = c.owner;
      owned = c.owned;
      counted = λ j. ground (arith, c.counted j, c.small d, n j);
      small = λ j. ground (arith, c.small j, c.small d);
      slack_small = omega (arith, c.slack_small);
      gone = λ j g. ground (arith, c.counted d, c.owned v d e, c.gone j, c.gone d, g, e);
      unmade = λ j l. ground (arith, c.unmade j l);
      emptied = λ j i g. ground (arith, c.emptied j i, g);
    }
