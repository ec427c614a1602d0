-- ===== src/Epoll/Abort.antt =====
-- `descriptor_release` of src/io/epoll.cpp at the last reference: what becomes of the operations
-- that still wait.
use mathlib.Core.Path.{subst}
use deprecated_tcode.Common.{
  ℕ, suc, ◌≡◌, ◌≢◌, refl, sym, ap, ◌∙◌, List, [], ◌∷◌, ◌++◌, map, arith, append_assoc, append-nil,
  if◌then◌else◌,
}
use deprecated_tcode.Common.Maps.{update, update_self, has}
use deprecated_tcode.Epoll.{
  Code, error_aborted, is_error, operation, Epoll, absent, set_descriptor, op_add, wake_up, wake_if,
  waiting, abort_all, post_all, descriptor_delete, descriptor_release, engine_release,
}
use deprecated_tcode.Epoll.Conserve.{descriptor_release_last}

-- What an operation's error becomes.
abbrev pub aborted : Code → Code
aborted ec = if is_error ec then ec else error_aborted

pub record Aborted (d : ℕ) (s t : Epoll) : Type 0 where
  pub posted : t.queue ≡ s.queue ++ map operation (waiting (s.descriptor d))
  pub errors :
      (op : ℕ)
      → t.error op
        ≡ (if has op (waiting (s.descriptor d)) then aborted (s.error op) else s.error op)
  pub deleted : t.descriptor d ≡ absent
  pub others : (j : ℕ) → j ≢ d → t.descriptor j ≡ s.descriptor j
  pub woken : waiting (s.descriptor d) ≢ [] → t.pipe ≡ suc s.pipe

aborted_twice : (ec : Code) → aborted (aborted ec) ≡ aborted ec
unfolding is_error
aborted_twice ec = ground arith

abort_all_lem :
    (ops : List ℕ) (error : ℕ → Code) (op : ℕ)
    → abort_all ops error op ≡ (if has op ops then aborted (error op) else error op)
unfolding abort_all
abort_all_lem [] error op = refl
abort_all_lem (x ∷ ops) error op =
    ground
      (arith, abort_all_lem ops (update error x (aborted (error x))) op, aborted_twice (error x))

post_all_queue : (ops : List ℕ) (s : Epoll) → (post_all ops s).queue ≡ s.queue ++ map operation ops
unfolding post_all op_add
post_all_queue [] s = sym (append-nil s.queue)
post_all_queue (op ∷ ops) s =
    post_all_queue ops (op_add (operation op) s)
    ∙ append_assoc s.queue (operation op ∷ []) (map operation ops)

-- Posting changes nothing but the queue and the engine's count.
record Posted (s t : Epoll) : Type 0 where
  descriptors : t.descriptor ≡ s.descriptor
  errors : t.error ≡ s.error
  pipe : t.pipe ≡ s.pipe

post_all-Posted : (ops : List ℕ) (s : Epoll) → Posted s (post_all ops s)
unfolding post_all op_add
post_all-Posted [] s = record { descriptors = refl; errors = refl; pipe = refl }
post_all-Posted (op ∷ ops) s =
    let p = post_all-Posted ops (op_add (operation op) s) in
    record { descriptors = p.descriptors; errors = p.errors; pipe = p.pipe }

wake_if_queue : (ops : List ℕ) (s : Epoll) → (wake_if ops s).queue ≡ s.queue
unfolding wake_up
wake_if_queue [] s = refl
wake_if_queue (op ∷ ops) s = refl

wake_if_error : (ops : List ℕ) (s : Epoll) → (wake_if ops s).error ≡ s.error
unfolding wake_up
wake_if_error [] s = refl
wake_if_error (op ∷ ops) s = refl

wake_if_descriptor : (ops : List ℕ) (s : Epoll) → (wake_if ops s).descriptor ≡ s.descriptor
unfolding wake_up
wake_if_descriptor [] s = refl
wake_if_descriptor (op ∷ ops) s = refl

wake_if_pipe : (ops : List ℕ) (s : Epoll) → ops ≢ [] → (wake_if ops s).pipe ≡ suc s.pipe
unfolding wake_up
wake_if_pipe [] s h = absurd (h refl)
wake_if_pipe (op ∷ ops) s h = omega arith

descriptor_delete-Aborted : (d : ℕ) (s : Epoll) → Aborted d s (descriptor_delete d s)
unfolding descriptor_delete
descriptor_delete-Aborted d s =
    let ops = waiting (s.descriptor d) in
    let emptied = record (set_descriptor d absent s) {
      error = abort_all ops s.error;
      engine_refs = engine_release s.engine_refs;
    } in
    let p = post_all-Posted ops emptied in
    let posted = post_all ops emptied in
    let kept = wake_if_descriptor ops posted ∙ p.descriptors in
    record {
      posted = wake_if_queue ops posted ∙ post_all_queue ops emptied;
      errors =
          λ op. ap (λ f. f op) (wake_if_error ops posted ∙ p.errors) ∙ abort_all_lem ops s.error op;
      deleted = ap (λ f. f d) kept ∙ update_self s.descriptor d absent;
      others = λ j ne. ap (λ f. f j) kept ∙ ground (arith, ne);
      woken = λ ne. wake_if_pipe ops posted ne ∙ ap suc p.pipe;
    }

-- Releasing the last reference posts each operation that waits at the descriptor, once and in the
-- order of its queues, with `error_aborted` unless it has an error already; wakes the loop when
-- there was one; and deletes the descriptor and no other.
pub descriptor_release-Aborted :
    (d : ℕ) (s : Epoll) → (s.descriptor d).refcount ≡ 1 → Aborted d s (descriptor_release d s)
descriptor_release-Aborted d s e =
    subst (Aborted d s) (sym (descriptor_release_last d s e)) (descriptor_delete-Aborted d s)
