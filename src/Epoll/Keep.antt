-- ===== src/Epoll/Keep.antt =====
-- What a call of the multiplexer of src/io/epoll.cpp leaves alone: the queues of the descriptors
-- that exist, which are live, and the operations that were called.
use mathlib.Core.Path.{subst}
use deprecated_tcode.Common.{
  ◌+◌, ◌-◌, ◌%◌, ◌<◌, length, true, ℕ, ◌<◌, ◌≤◌, ◌≡◌, ◌≢◌, refl, sym, ap, ◌∙◌, List, [], ◌∷◌, ◌++◌,
  Option, none, arith, ℕ_discrete,
}
use deprecated_tcode.Common.Words.{int_mod}
use deprecated_tcode.Common.Maps.{update_ne}
use deprecated_tcode.Epoll.{
  Code, Closure, operation, Note, submits, completes, drops, faults, Epoll, absent, set_error,
  set_socket, op_add, execute, wake_up, push_op, descriptor_create, descriptor_add_ref,
  descriptor_release, descriptor_delete, post_all, wake_if, waiting, abort_all, engine_release,
  set_descriptor,
}
use deprecated_tcode.Epoll.Refs.{Refs, same-Refs, op_add-Refs, create_in-Refs, deleted-Refs}
use deprecated_tcode.Epoll.Conserve.{descriptor_release_last, descriptor_release_more}
use deprecated_tcode.Epoll.Requests.{create_in, release_in}

-- The operations that were called, the oldest first.
abbrev pub called : List Note → List ℕ
called [] = []
called (submits op ∷ ns) = called ns
called (completes op ec ∷ ns) = called ns ++ op ∷ []
called (drops op ∷ ns) = called ns
called (faults op ∷ ns) = called ns

-- What holds of the descriptors below `n`.
pub record Kept (n : ℕ) (s t : Epoll) : Type 0 where
  pub grows : s.made ≤ t.made
  pub queues : (d : ℕ) → d < n → (t.descriptor d).op_queue ≡ (s.descriptor d).op_queue
  pub lives : (d : ℕ) → d < n → (t.descriptor d).live ≡ (s.descriptor d).live
  pub calls : called t.trace ≡ called s.trace
  pub longer : length s.trace ≤ length t.trace
  pub balance : (e : ℕ) → Refs e s → Refs e t

-- A change that no field reads.
pub same-Kept :
    (n : ℕ) (s t : Epoll)
    → t.made ≡ s.made
    → t.descriptor ≡ s.descriptor
    → called t.trace ≡ called s.trace
    → t.queue ≡ s.queue
    → t.engine_refs ≡ s.engine_refs
    → length s.trace ≤ length t.trace
    → Kept n s t
same-Kept n s t m d c q r longer = record {
  grows = omega (arith, m);
  queues = λ j l. ap (λ f. (f j).op_queue) d;
  lives = λ j l. ap (λ f. (f j).live) d;
  calls = c;
  longer = longer;
  balance = λ e h. same-Refs e s t m (λ j. ap (λ f. (f j).live) d) q r h;
}

pub then-Kept : {n : ℕ} {s t u : Epoll} → Kept n t u → Kept n s t → Kept n s u
then-Kept k h = record {
  grows = omega (arith, k.grows, h.grows);
  queues = λ j l. k.queues j l ∙ h.queues j l;
  lives = λ j l. k.lives j l ∙ h.lives j l;
  calls = k.calls ∙ h.calls;
  longer = omega (arith, k.longer, h.longer);
  balance = λ e r. k.balance e (h.balance e r);
}

pub set_error-Kept : (n op : ℕ) (ec : Code) (s : Epoll) → Kept n s (set_error op ec s)
unfolding set_error
set_error-Kept n op ec s = same-Kept n s (set_error op ec s) refl refl refl refl refl (omega arith)

pub set_socket-Kept : (n v : ℕ) (d : Option ℕ) (s : Epoll) → Kept n s (set_socket v d s)
unfolding set_socket
set_socket-Kept n v d s = same-Kept n s (set_socket v d s) refl refl refl refl refl (omega arith)

pub op_add-Kept : (n : ℕ) (c : Closure) (s : Epoll) → Kept n s (op_add c s)
unfolding op_add
op_add-Kept n c s = record {
  grows = omega arith;
  queues = λ j l. refl;
  lives = λ j l. refl;
  calls = refl;
  longer = omega arith;
  balance = λ e h. op_add-Refs c e s h;
}

pub execute-Kept : (n : ℕ) (c : Closure) (s : Epoll) → Kept n s (execute c s)
unfolding execute wake_up
execute-Kept n c s =
    then-Kept (same-Kept n (op_add c s) (execute c s) refl refl refl refl refl (omega arith))
      (op_add-Kept n c s)

pub create_in-Kept : (n v fd : ℕ) (s : Epoll) → n ≤ s.made → Kept n s (create_in v fd s)
unfolding create_in descriptor_create set_socket
create_in-Kept n v fd s h = record {
  grows = omega arith;
  queues = λ j l. ground (arith, h, l);
  lives = λ j l. ground (arith, h, l);
  calls = refl;
  longer = omega arith;
  balance = λ e r. create_in-Refs v fd e s r;
}

pub push_op-Kept : (n d i op : ℕ) (s : Epoll) → n ≤ d → Kept n s (push_op d i op s)
unfolding push_op
push_op-Kept n d i op s h = record {
  grows = omega arith;
  queues = λ j l. ground (arith, h, l);
  lives = λ j l. ground (arith, h, l);
  calls = refl;
  longer = omega arith;
  balance = λ e r. same-Refs e s (push_op d i op s) refl (λ j. ground arith) refl refl r;
}

pub descriptor_add_ref-Kept : (n d : ℕ) (s : Epoll) → Kept n s (descriptor_add_ref d s)
unfolding descriptor_add_ref
descriptor_add_ref-Kept n d s = record {
  grows = omega arith;
  queues = λ j l. ground arith;
  lives = λ j l. ground arith;
  calls = refl;
  longer = omega arith;
  balance = λ e r. same-Refs e s (descriptor_add_ref d s) refl (λ j. ground arith) refl refl r;
}

pub post_all-Kept : (n : ℕ) (ops : List ℕ) (s : Epoll) → Kept n s (post_all ops s)
unfolding post_all
post_all-Kept n [] s = same-Kept n s s refl refl refl refl refl (omega arith)
post_all-Kept n (op ∷ ops) s =
    then-Kept (post_all-Kept n ops (op_add (operation op) s)) (op_add-Kept n (operation op) s)

pub wake_if-Kept : (n : ℕ) (ops : List ℕ) (s : Epoll) → Kept n s (wake_if ops s)
unfolding wake_up
wake_if-Kept n [] s = same-Kept n s s refl refl refl refl refl (omega arith)
wake_if-Kept n (op ∷ ops) s = same-Kept n s (wake_up s) refl refl refl refl refl (omega arith)

-- A change of a descriptor that is not below `n`.
set_descriptor-Kept :
    (n d : ℕ) (s t : Epoll)
    → n ≤ d
    → ((j : ℕ) → j ≢ d → t.descriptor j ≡ s.descriptor j)
    → t.made ≡ s.made
    → t.trace ≡ s.trace
    → ((e : ℕ) → Refs e s → Refs e t)
    → Kept n s t
set_descriptor-Kept n d s t h f m c b = record {
  grows = omega (arith, m);
  queues = λ j l. ap (λ x. x.op_queue) (f j (omega (arith, h, l)));
  lives = λ j l. ap (λ x. x.live) (f j (omega (arith, h, l)));
  calls = ap called c;
  longer = rw c (omega arith);
  balance = b;
}

pub descriptor_delete-Kept :
    (n d : ℕ) (s : Epoll)
    → n ≤ d
    → d < s.made
    → (s.descriptor d).live ≡ true
    → Kept n s (descriptor_delete d s)
unfolding descriptor_delete
descriptor_delete-Kept n d s h hd live =
    let ops = waiting (s.descriptor d) in
    let emptied = record (set_descriptor d absent s) {
      error = abort_all ops s.error;
      engine_refs = engine_release s.engine_refs;
    } in
    then-Kept (wake_if-Kept n ops (post_all ops emptied)) (
      then-Kept (post_all-Kept n ops emptied) (
        set_descriptor-Kept n d s emptied h (update_ne s.descriptor d absent) refl refl
          (λ e r. deleted-Refs d e ops s hd live r)))

-- The state after a release that is not the last one.
abbrev counted_down : ℕ → Epoll → Epoll
counted_down d s =
    set_descriptor d
      (record (s.descriptor d) { refcount = ((s.descriptor d).refcount + int_mod - 1) % int_mod }) s

pub descriptor_release-Kept :
    (n d : ℕ) (s : Epoll)
    → n ≤ d
    → d < s.made
    → (s.descriptor d).live ≡ true
    → Kept n s (descriptor_release d s)
descriptor_release-Kept n d s h hd live = elim (ℕ_discrete (s.descriptor d).refcount 1) [
  | yes e ↦
      subst (Kept n s) (sym (descriptor_release_last d s e))
        (descriptor_delete-Kept n d s h hd live)
  | no ne ↦ subst (Kept n s) (sym (descriptor_release_more d s ne)) (
      set_descriptor-Kept n d s (counted_down d s) h (update_ne s.descriptor d _) refl refl
        (λ e r. same-Refs e s (counted_down d s) refl (λ j. ground arith) refl refl r))
]

pub release_in-Kept :
    (n v d : ℕ) (s : Epoll)
    → n ≤ d
    → d < s.made
    → (s.descriptor d).live ≡ true
    → Kept n s (release_in v d s)
unfolding release_in
release_in-Kept n v d s h hd live =
    then-Kept (set_socket-Kept n v none (descriptor_release d s))
      (descriptor_release-Kept n d s h hd live)

-- A release is not recorded.
post_all_trace : (ops : List ℕ) (s : Epoll) → (post_all ops s).trace ≡ s.trace
unfolding post_all op_add
post_all_trace [] s = refl
post_all_trace (op ∷ ops) s = post_all_trace ops (op_add (operation op) s)

wake_if_trace : (ops : List ℕ) (s : Epoll) → (wake_if ops s).trace ≡ s.trace
unfolding wake_up
wake_if_trace [] s = refl
wake_if_trace (op ∷ ops) s = refl

descriptor_delete_trace : (d : ℕ) (s : Epoll) → (descriptor_delete d s).trace ≡ s.trace
unfolding descriptor_delete
descriptor_delete_trace d s =
    let ops = waiting (s.descriptor d) in wake_if_trace ops (post_all ops _) ∙ post_all_trace ops _

pub descriptor_release_trace : (d : ℕ) (s : Epoll) → (descriptor_release d s).trace ≡ s.trace
descriptor_release_trace d s = elim (ℕ_discrete (s.descriptor d).refcount 1) [
  | yes e ↦ ap (λ t. t.trace) (descriptor_release_last d s e) ∙ descriptor_delete_trace d s
  | no ne ↦ ap (λ t. t.trace) (descriptor_release_more d s ne)
]
