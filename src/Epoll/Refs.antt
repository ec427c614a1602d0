-- ===== src/Epoll/Refs.antt =====
-- The count of references that the multiplexer of src/io/epoll.cpp holds on its engine.
use deprecated_tcode.Common.{
  ℕ, ◌+◌, ◌%◌, ◌<◌, ◌≡◌, refl, ap, true, List, [], ◌∷◌, arith, length, length-append,
}
use deprecated_tcode.Common.Maps.{update_ne}
use deprecated_tcode.Common.Words.{int_mod}
use deprecated_tcode.Epoll.{
  Closure, operation, Epoll, absent, set_descriptor, op_add, post_all, engine_release, abort_all,
  new,
}
use deprecated_tcode.Epoll.Requests.{create_in}
use deprecated_tcode.Epoll.{descriptor_create, set_socket}
use deprecated_tcode.Epoll.Account.{one_if, sum_below, sum_below_same, sum_below_change}

abbrev pub live_count : Epoll → ℕ
live_count s = sum_below (λ d. one_if (s.descriptor d).live) s.made

-- One reference for each descriptor that is not deleted and each posted closure, and `extra` for
-- the closures that the loop has taken and not yet run.
abbrev pub Refs : ℕ → Epoll → Type 0
Refs extra s = s.engine_refs ≡ (live_count s + length s.queue + extra) % int_mod

pub new-Refs : Refs 0 new
new-Refs = refl

pub same-live_count :
    (s t : Epoll)
    → t.made ≡ s.made
    → ((d : ℕ) → (t.descriptor d).live ≡ (s.descriptor d).live)
    → live_count t ≡ live_count s
same-live_count s t m l = rw m (
    sum_below_same {f = λ d. one_if (s.descriptor d).live} {g = λ d. one_if (t.descriptor d).live}
      s.made (λ d h. ap one_if (l d)))

pub same-Refs :
    (e : ℕ) (s t : Epoll)
    → t.made ≡ s.made
    → ((d : ℕ) → (t.descriptor d).live ≡ (s.descriptor d).live)
    → t.queue ≡ s.queue
    → t.engine_refs ≡ s.engine_refs
    → Refs e s
    → Refs e t
same-Refs e s t m l q r h = rw (q, r) (omega (arith, h, same-live_count s t m l))

pub op_add-Refs : (c : Closure) (e : ℕ) (s : Epoll) → Refs e s → Refs e (op_add c s)
unfolding op_add
op_add-Refs c e s h = omega (arith, h, length-append s.queue (c ∷ []))

pub create_in-Refs : (v fd e : ℕ) (s : Epoll) → Refs e s → Refs e (create_in v fd s)
unfolding create_in descriptor_create set_socket
create_in-Refs v fd e s h =
    let t = create_in v fd s in
    let old =
      sum_below_same {f = λ d. one_if (s.descriptor d).live} {g = λ d. one_if (t.descriptor d).live}
        s.made (λ j l. ground (arith, l)) in
    let fresh : one_if (t.descriptor s.made).live ≡ 1 = ground arith in omega (arith, h, old, fresh)

pub post_all-Refs : (ops : List ℕ) (e : ℕ) (s : Epoll) → Refs e s → Refs e (post_all ops s)
unfolding post_all
post_all-Refs [] e s h = h
post_all-Refs (op ∷ ops) e s h =
    post_all-Refs ops e (op_add (operation op) s) (op_add-Refs (operation op) e s h)

-- A descriptor that is live is deleted.
pub deleted-Refs :
    (d e : ℕ) (error : List ℕ) (s : Epoll)
    → d < s.made
    → (s.descriptor d).live ≡ true
    → Refs e s
    → Refs e (record (set_descriptor d absent s) {
      error = abort_all error s.error;
      engine_refs = engine_release s.engine_refs;
    })
deleted-Refs d e ops s l live h =
    let t = record (set_descriptor d absent s) {
      error = abort_all ops s.error;
      engine_refs = engine_release s.engine_refs;
    } in
    let change =
      sum_below_change {f = λ j. one_if (s.descriptor j).live}
        {g = λ j. one_if (t.descriptor j).live} s.made d l
        (λ j m ne. ap (λ x. one_if x.live) (update_ne s.descriptor d absent j ne)) in
    let gone : one_if (t.descriptor d).live ≡ 0 = ground arith in
    omega (arith, h, change, gone, ap one_if live)
