-- ===== src/Epoll/Conserve.antt =====
-- The operations on descriptors of src/io/epoll.cpp keep the accounts.
use mathlib.Core.Path.{subst}
use deprecated_tcode.Common.{
  ℕ, ◌+◌, ◌%◌, ◌-◌, ◌<◌, ◌≡◌, ◌≢◌, refl, sym, ap, List, [], ◌∷◌, ◌++◌, Option, none, arith, map,
  ℕ_discrete,
}
use deprecated_tcode.Common.Maps.{update_self, update_ne}
use deprecated_tcode.Common.Words.{int_mod}
use deprecated_tcode.Epoll.{
  Closure, operation, Epoll, absent, op_add, wake_up, descriptor_create, post_all, waiting, wake_if,
  descriptor_delete, descriptor_release, set_descriptor, abort_all, run_unbind, engine_release,
}
use deprecated_tcode.Epoll.Account.{
  sum_below_same, count, carried, queued, at_descriptors, Conserved, count-append, carried-append,
  op_add-Conserved, at_descriptors-change,
}

-- A change that no account reads.
same-Conserved :
    (hand : List Closure) (s t : Epoll)
    → t.trace ≡ s.trace
    → t.queue ≡ s.queue
    → ((op : ℕ) → at_descriptors op t ≡ at_descriptors op s)
    → Conserved hand s
    → Conserved hand t
same-Conserved hand s t a b c h op = rw (a, b) (omega (arith, h op, c op))

pub descriptor_create-Conserved :
    (fd : ℕ) (hand : List Closure) (s : Epoll)
    → Conserved hand s
    → Conserved hand (descriptor_create fd s)
unfolding descriptor_create
descriptor_create-Conserved fd hand s h =
    same-Conserved hand s (descriptor_create fd s) refl refl
      (λ op.
        let same =
          sum_below_same {f = λ d. queued op (s.descriptor d)}
            {g = λ d. queued op ((descriptor_create fd s).descriptor d)} s.made
            (λ j l. ap (queued op) (update_ne s.descriptor s.made _ j (omega (arith, l)))) in
        ground (arith, same, update_self s.descriptor s.made))
      h

-- A change of one descriptor that keeps its queues.
pub set_descriptor-Conserved :
    (d : ℕ) (fd : Option ℕ) (refs : ℕ) (hand : List Closure) (s : Epoll)
    → Conserved hand s
    → Conserved hand (set_descriptor d (record (s.descriptor d) { fd = fd; refcount = refs }) s)
set_descriptor-Conserved d fd refs hand s h =
    same-Conserved hand s
      (set_descriptor d (record (s.descriptor d) { fd = fd; refcount = refs }) s) refl refl
      (λ op. sum_below_same {f = λ j. queued op (s.descriptor j)} s.made (λ j l. ground arith)) h

post_all-Conserved :
    (ops : List ℕ) (hand : List Closure) (s : Epoll)
    → Conserved (map operation ops ++ hand) s
    → Conserved hand (post_all ops s)
unfolding post_all
post_all-Conserved [] hand s h = h
post_all-Conserved (op ∷ ops) hand s h =
    post_all-Conserved ops hand (op_add (operation op) s)
      (op_add-Conserved (operation op) (map operation ops ++ hand) s h)

carried-map : (x : ℕ) (ops : List ℕ) → carried x (map operation ops) ≡ count x ops
carried-map x [] = refl
carried-map x (op ∷ ops) = omega (arith, carried-map x ops)

wake_if-Conserved :
    (ops : List ℕ) (hand : List Closure) (s : Epoll)
    → Conserved hand s
    → Conserved hand (wake_if ops s)
unfolding wake_up
wake_if-Conserved [] hand s h = h
wake_if-Conserved (op ∷ ops) hand s h = h

count-append_three :
    (x : ℕ) (xs ys zs : List ℕ) → count x ((xs ++ ys) ++ zs) ≡ count x xs + count x ys + count x zs
count-append_three x xs ys zs = omega (arith, count-append x (xs ++ ys) zs, count-append x xs ys)

count-waiting :
    (x d : ℕ) (s : Epoll) → count x (waiting (s.descriptor d)) ≡ queued x (s.descriptor d)
count-waiting x d s = count-append_three x _ _ _

pub descriptor_delete-Conserved :
    (d : ℕ) (hand : List Closure) (s : Epoll)
    → d < s.made
    → Conserved hand s
    → Conserved hand (descriptor_delete d s)
unfolding descriptor_delete
descriptor_delete-Conserved d hand s hd h =
    wake_if-Conserved ops hand _ (post_all-Conserved ops hand emptied taken)
  where
    ops : List ℕ
    ops = waiting (s.descriptor d)

    emptied : Epoll
    emptied = record (set_descriptor d absent s) {
      error = abort_all ops s.error;
      engine_refs = engine_release s.engine_refs;
    }

    taken : Conserved (map operation ops ++ hand) emptied
    taken x =
        let change =
          at_descriptors-change x d s emptied refl hd (update_ne s.descriptor d absent) in
        let gone = ap (queued x) (update_self s.descriptor d absent) in
        omega (
          arith,
          h x,
          change,
          gone,
          count-waiting x d s,
          carried-map x ops,
          carried-append x (map operation ops) hand,
        )

pub descriptor_release_last :
    (d : ℕ) (s : Epoll)
    → (s.descriptor d).refcount ≡ 1
    → descriptor_release d s ≡ descriptor_delete d s
unfolding descriptor_release
descriptor_release_last d s e = ground (arith, e)

pub descriptor_release_more :
    (d : ℕ) (s : Epoll)
    → (s.descriptor d).refcount ≢ 1
    → descriptor_release d s
      ≡ set_descriptor d
          (record (s.descriptor d) {
            refcount = ((s.descriptor d).refcount + int_mod - 1) % int_mod;
          })
          s
unfolding descriptor_release
descriptor_release_more d s e = ground (arith, e)

pub descriptor_release-Conserved :
    (d : ℕ) (hand : List Closure) (s : Epoll)
    → d < s.made
    → Conserved hand s
    → Conserved hand (descriptor_release d s)
descriptor_release-Conserved d hand s hd h = elim (ℕ_discrete (s.descriptor d).refcount 1) [
  | yes e ↦
      subst (Conserved hand) (sym (descriptor_release_last d s e))
        (descriptor_delete-Conserved d hand s hd h)
  | no ne ↦
      subst (Conserved hand) (sym (descriptor_release_more d s ne))
        (set_descriptor-Conserved d (s.descriptor d).fd _ hand s h)
]

pub run_unbind-Conserved :
    (d : ℕ) (hand : List Closure) (s : Epoll)
    → d < s.made
    → Conserved hand s
    → Conserved hand (run_unbind d s)
unfolding run_unbind
run_unbind-Conserved d hand s hd h =
    descriptor_release-Conserved d hand _ hd
      (set_descriptor-Conserved d none (s.descriptor d).refcount hand s h)
