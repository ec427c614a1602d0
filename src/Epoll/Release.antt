-- ===== src/Epoll/Release.antt =====
-- `descriptor_create` and `descriptor_release` of src/io/epoll.cpp keep the holders' counts.
use mathlib.Core.Path.{subst}
use deprecated_tcode.Common.{
  true, Bool-cases, inl, inr, ℕ, ◌+◌, ◌-◌, ◌%◌, ◌≡◌, sym, List, [], ◌∷◌, arith, ℕ_discrete,
}
use deprecated_tcode.Common.Maps.{update}
use deprecated_tcode.Common.Words.{int_mod}
use deprecated_tcode.Epoll.{
  Closure, operation, Epoll, absent, set_socket, op_add, descriptor_create, post_all, waiting,
  wake_if, descriptor_delete, descriptor_release, set_descriptor, abort_all, engine_release,
}
use deprecated_tcode.Epoll.Conserve.{descriptor_release_last, descriptor_release_more}
use deprecated_tcode.Epoll.Requests.{create_in}
use deprecated_tcode.Epoll.Owner.{IsShort, names, Owned, op_add-Owned, wake_up-Owned, take-Owned}

-- The new descriptor is held by the variable it is put in.
pub create_in-Owned :
    (v fd k : ℕ) (hand : List Closure) (s : Epoll)
    → Owned k hand s
    → Owned k hand (create_in v fd s)
unfolding create_in descriptor_create set_socket
create_in-Owned v fd k hand s h short =
    let c = h short in
    let fresh = c.gone s.made (c.unmade s.made (omega arith)) in
    record {
      owner = update c.owner s.made v;
      owned = λ w d e. ground (arith, c.owned w d, c.counted s.made, fresh, e);
      counted = λ d. ground (arith, c.counted d, fresh);
      small = λ d. ground (arith, c.small d, c.slack_small);
      slack_small = c.slack_small;
      gone = λ d e. ground (arith, c.gone d, e);
      unmade = λ d l. ground (arith, c.unmade d, l);
      emptied = λ d i e. ground (arith, c.emptied d i, e);
    }

post_all-Owned :
    (ops : List ℕ) (k : ℕ) (hand : List Closure) (s : Epoll)
    → Owned k hand s
    → Owned k hand (post_all ops s)
unfolding post_all
post_all-Owned [] k hand s h = h
post_all-Owned (op ∷ ops) k hand s h =
    post_all-Owned ops k hand (op_add (operation op) s)
      (op_add-Owned (operation op) k hand s (take-Owned op k hand s h))

wake_if-Owned :
    (ops : List ℕ) (k : ℕ) (hand : List Closure) (s : Epoll)
    → Owned k hand s
    → Owned k hand (wake_if ops s)
wake_if-Owned [] k hand s h = h
wake_if-Owned (op ∷ ops) k hand s h = wake_up-Owned k hand s h

-- At the last reference nobody else holds the descriptor.
descriptor_delete-Owned :
    (x : Closure) (d k : ℕ) (hand : List Closure) (s : Epoll)
    → names d x ≡ 1
    → (s.descriptor d).refcount ≡ 1
    → Owned k (x ∷ hand) s
    → Owned k hand (descriptor_delete d s)
unfolding descriptor_delete
descriptor_delete-Owned x d k hand s n e h =
    let ops = waiting (s.descriptor d) in
    wake_if-Owned ops k hand _ (post_all-Owned ops k hand _ emptied)
  where
    emptied : Owned k hand (record (set_descriptor d absent s) {
      error = abort_all (waiting (s.descriptor d)) s.error;
      engine_refs = engine_release s.engine_refs;
    })
    emptied short =
        let c = h short in
        record {
          owner = c.owner;
          owned = c.owned;
          counted = λ j. ground (arith, c.counted j, c.counted d, n, e);
          small = λ j. ground (arith, c.small j, c.small d, e);
          slack_small = c.slack_small;
          gone = λ j g. ground (arith, c.gone j, g);
          unmade = λ j l. ground (arith, c.unmade j l);
          emptied = λ j i g. ground (arith, c.emptied j i, g);
        }

descriptor_drop-Owned :
    (x : Closure) (d k : ℕ) (hand : List Closure) (s : Epoll)
    → names d x ≡ 1
    → Owned k (x ∷ hand) s
    → Owned k hand (
        set_descriptor d
          (record (s.descriptor d) {
            refcount = ((s.descriptor d).refcount + int_mod - 1) % int_mod;
          })
          s)
descriptor_drop-Owned x d k hand s n h short =
    let c = h short in
    record {
      owner = c.owner;
      owned = c.owned;
      counted = λ j. ground (arith, c.counted j, c.counted d, c.small d, n, short);
      small = λ j. ground (arith, c.small j, c.counted d, c.small d, n, short);
      slack_small = c.slack_small;
      gone = λ j g. ground (arith, c.gone j, c.gone d, c.counted d, n, g);
      unmade = λ j l. ground (arith, c.unmade j l);
      emptied = λ j i g. ground (arith, c.emptied j i, g);
    }

-- The reference that a closure in hand holds is given back.
pub descriptor_release-Owned :
    (x : Closure) (d k : ℕ) (hand : List Closure) (s : Epoll)
    → names d x ≡ 1
    → Owned k (x ∷ hand) s
    → Owned k hand (descriptor_release d s)
descriptor_release-Owned x d k hand s n h = elim (ℕ_discrete (s.descriptor d).refcount 1) [
  | yes e ↦
      subst (Owned k hand) (sym (descriptor_release_last d s e))
        (descriptor_delete-Owned x d k hand s n e h)
  | no ne ↦
      subst (Owned k hand) (sym (descriptor_release_more d s ne))
        (descriptor_drop-Owned x d k hand s n h)
]

-- Whoever holds a reference in hand names a descriptor that is not deleted.
pub in_hand-live :
    (x : Closure) (d k : ℕ) (hand : List Closure) (s : Epoll)
    → names d x ≡ 1
    → Owned k (x ∷ hand) s
    → IsShort s
    → (s.descriptor d).live ≡ true
in_hand-live x d k hand s n h short =
    let c = h short in
    elim (Bool-cases (s.descriptor d).live) [
      | inl live ↦ live
      | inr dead ↦ absurd (omega (arith, c.counted d, c.gone d dead, n))
    ]
