-- ===== src/Epoll/Dispatch.antt =====
-- The loop of `descriptor_dispatch` in src/io/epoll.cpp: it ends, calls the operations in the order
-- of the queue, and stops at the first that cannot be done yet.
use deprecated_tcode.Common.{
  ℕ, zero, suc, ◌<◌, ◌≤◌, ◌≡◌, ◌≢◌, refl, sym, ap, ◌∙◌, true, false, List, [], ◌∷◌, ◌++◌, some,
  arith, inl, inr, Bool-cases, length, append_assoc, append-nil,
}
use deprecated_tcode.Epoll.{Code, Closure, Epoll, set_queue, ev_pri}
use deprecated_tcode.Epoll.Requests.{Request}
use deprecated_tcode.Epoll.Sound.{Sound}
use deprecated_tcode.Epoll.Refs.{Refs, same-Refs}
use deprecated_tcode.Epoll.Keep.{called}
use deprecated_tcode.Epoll.Loop.{Outcome, attempted, pop_op, complete, dispatch_loop}
use deprecated_tcode.Epoll.Attempt.{
  Gives, attempted-Sound, attempted-Kept, pop_op-Sound, complete-Sound, complete-Kept,
}

module _ (handler : ℕ → Code → Epoll → List Request)
    (post_proc : (op d : ℕ) → Epoll → Outcome) where
  -- The state in which the loop goes on once the first operation is done.
  abbrev pub finished : (d i op : ℕ) → Epoll → Epoll
  finished d i op s = complete handler post_proc op (pop_op d i (attempted op (post_proc op d s) s))

  -- The turns of the loop over the queue `i` of `d`, with the operations that they call: each one is
  -- at the head of the queue, and done in the state in which it is tried. The loop ends at an empty
  -- queue, or at an operation that is tried and not done.
  pub data Turns (d i : ℕ) : Epoll → List ℕ → Epoll → Type 0 where
    ends : (s : Epoll) → (s.descriptor d).op_queue i ≡ [] → Turns d i s [] s
    stops :
        (s : Epoll) (op : ℕ) (ops : List ℕ)
        → (s.descriptor d).op_queue i ≡ op ∷ ops
        → (post_proc op d s).done ≡ false
        → Turns d i s [] (attempted op (post_proc op d s) s)
    calls_next :
        (s t : Epoll) (op : ℕ) (ops ran : List ℕ)
        → (s.descriptor d).op_queue i ≡ op ∷ ops
        → (post_proc op d s).done ≡ true
        → Turns d i (finished d i op s) ran t
        → Turns d i s (op ∷ ran) t

  -- What the loop leaves of the queue `i` of `d`, `hand` being what the caller holds.
  pub record Dispatched (d i : ℕ) (hand : List Closure) (s t : Epoll) : Type 0 where
    pub sound : Sound 0 hand t
    pub grows : s.made ≤ t.made
    pub lives : (j : ℕ) → j < s.made → (t.descriptor j).live ≡ (s.descriptor j).live
    pub others :
        (j : ℕ) → j < s.made → j ≢ d → (t.descriptor j).op_queue ≡ (s.descriptor j).op_queue
    pub beside : (k : ℕ) → k ≢ i → (t.descriptor d).op_queue k ≡ (s.descriptor d).op_queue k
    pub ran : List ℕ
    pub split : (s.descriptor d).op_queue i ≡ ran ++ (t.descriptor d).op_queue i
    pub calls : called t.trace ≡ called s.trace ++ ran
    pub longer : length s.trace ≤ length t.trace
    pub balance : (e : ℕ) → Refs e s → Refs e t
    pub turns : Turns d i s ran t

  loop_empty :
      (f d i : ℕ) (s : Epoll)
      → (s.descriptor d).op_queue i ≡ []
      → dispatch_loop handler post_proc (suc f) d i s ≡ some s
  unfolding dispatch_loop
  loop_empty f d i s e = ground (arith, e)

  loop_blocked :
      (f d i op : ℕ) (ops : List ℕ) (s : Epoll)
      → (s.descriptor d).op_queue i ≡ op ∷ ops
      → (post_proc op d s).done ≡ false
      → dispatch_loop handler post_proc (suc f) d i s ≡ some (attempted op (post_proc op d s) s)
  unfolding dispatch_loop
  loop_blocked f d i op ops s e b = ground (arith, e, b)

  loop_done :
      (f d i op : ℕ) (ops : List ℕ) (s : Epoll)
      → (s.descriptor d).op_queue i ≡ op ∷ ops
      → (post_proc op d s).done ≡ true
      → dispatch_loop handler post_proc (suc f) d i s
        ≡ dispatch_loop handler post_proc f d i (finished d i op s)
  unfolding dispatch_loop
  loop_done f d i op ops s e b = ground (arith, e, b)

  stops-Dispatched :
      (d i op : ℕ) (ops : List ℕ) (hand : List Closure) (s : Epoll)
      → d < s.made
      → Sound 0 hand s
      → (s.descriptor d).op_queue i ≡ op ∷ ops
      → (post_proc op d s).done ≡ false
      → Dispatched d i hand s (attempted op (post_proc op d s) s)
  stops-Dispatched d i op ops hand s hd h e stays =
      let o = post_proc op d s in
      let k = attempted-Kept s.made op o s (omega arith) in
      record {
        sound = attempted-Sound op o h;
        grows = k.grows;
        lives = k.lives;
        others = λ j l ne. k.queues j l;
        beside = λ x ne. ap (λ f. f x) (k.queues d hd);
        ran = [];
        split = sym (ap (λ f. f i) (k.queues d hd));
        calls = k.calls ∙ sym (append-nil (called s.trace));
        longer = k.longer;
        balance = k.balance;
        turns = stops s op ops e stays;
      }

  -- One operation of the queue is done.
  record Advanced (d i op : ℕ) (ops : List ℕ) (hand : List Closure) (s u : Epoll) : Type 0 where
    sound : Sound 0 hand u
    grows : s.made ≤ u.made
    lives : (j : ℕ) → j < s.made → (u.descriptor j).live ≡ (s.descriptor j).live
    others : (j : ℕ) → j < s.made → j ≢ d → (u.descriptor j).op_queue ≡ (s.descriptor j).op_queue
    beside : (k : ℕ) → k ≢ i → (u.descriptor d).op_queue k ≡ (s.descriptor d).op_queue k
    rest : (u.descriptor d).op_queue i ≡ ops
    calls : called u.trace ≡ called s.trace ++ op ∷ []
    longer : length s.trace ≤ length u.trace
    balance : (e : ℕ) → Refs e s → Refs e u

  pop_op-Advanced :
      (d i op : ℕ) (ops : List ℕ) (hand : List Closure) (s : Epoll)
      → i ≤ ev_pri
      → d < s.made
      → (s.descriptor d).op_queue i ≡ op ∷ ops
      → Sound 0 hand s
      → Advanced d i op ops hand s (complete handler post_proc op (pop_op d i s))
  unfolding pop_op set_queue
  pop_op-Advanced d i op ops hand s hi hd e h =
      let popped = pop_op d i s in
      let k = complete-Kept handler post_proc s.made op popped (omega arith) in
      record {
        sound = complete-Sound handler post_proc op (pop_op-Sound d i op ops hi hd e h);
        grows = k.grows;
        lives = λ j l. k.lives j l ∙ ground arith;
        others = λ j l ne. k.queues j l ∙ ground (arith, ne);
        beside = λ x ne. ap (λ f. f x) (k.queues d hd) ∙ ground (arith, ne);
        rest = ap (λ f. f i) (k.queues d hd) ∙ ground (arith, e);
        calls = k.calls;
        longer = omega (arith, k.longer);
        balance = λ x r. k.balance x (same-Refs x s popped refl (λ j. ground arith) refl refl r);
      }

  finished-Advanced :
      (d i op : ℕ) (ops : List ℕ) (hand : List Closure) (s : Epoll)
      → i ≤ ev_pri
      → d < s.made
      → (s.descriptor d).op_queue i ≡ op ∷ ops
      → Sound 0 hand s
      → Advanced d i op ops hand s (finished d i op s)
  finished-Advanced d i op ops hand s hi hd e h =
      let o = post_proc op d s in
      let k = attempted-Kept s.made op o s (omega arith) in
      let a =
        pop_op-Advanced d i op ops hand (attempted op o s) hi (omega (arith, hd, k.grows))
          (ap (λ f. f i) (k.queues d hd) ∙ e) (attempted-Sound op o h) in
      record {
        sound = a.sound;
        grows = omega (arith, a.grows, k.grows);
        lives = λ j l. a.lives j (omega (arith, l, k.grows)) ∙ k.lives j l;
        others = λ j l ne. a.others j (omega (arith, l, k.grows)) ne ∙ k.queues j l;
        beside = λ x ne. a.beside x ne ∙ ap (λ f. f x) (k.queues d hd);
        rest = a.rest;
        calls = a.calls ∙ ap (λ c. c ++ op ∷ []) k.calls;
        longer = omega (arith, a.longer, k.longer);
        balance = λ x r. a.balance x (k.balance x r);
      }

  advance :
      (d i op : ℕ) (ops : List ℕ) (hand : List Closure) (s t : Epoll)
      → (s.descriptor d).op_queue i ≡ op ∷ ops
      → (post_proc op d s).done ≡ true
      → Advanced d i op ops hand s (finished d i op s)
      → Dispatched d i hand (finished d i op s) t
      → Dispatched d i hand s t
  advance d i op ops hand s t e done a r = record {
    sound = r.sound;
    grows = omega (arith, a.grows, r.grows);
    lives = λ j l. r.lives j (omega (arith, l, a.grows)) ∙ a.lives j l;
    others = λ j l ne. r.others j (omega (arith, l, a.grows)) ne ∙ a.others j l ne;
    beside = λ x ne. r.beside x ne ∙ a.beside x ne;
    ran = op ∷ r.ran;
    split = e ∙ ap (λ q. op ∷ q) (sym a.rest ∙ r.split);
    calls = r.calls ∙ ap (λ c. c ++ r.ran) a.calls ∙ append_assoc (called s.trace) (op ∷ []) r.ran;
    longer = omega (arith, r.longer, a.longer);
    balance = λ x b. r.balance x (a.balance x b);
    turns = calls_next s t op ops r.ran e done r.turns;
  }

  -- From a sound state, with fuel beyond the length of the queue, the loop over a queue of an
  -- existing descriptor returns, whatever the operations do and post: it has called the first
  -- operations of the queue in its order, each once and each when its attempt was done; it stops
  -- only at an empty queue or at an operation whose attempt was not done, which stays with those
  -- behind it; the other queues and the deletions are as before; and the state is sound.
  pub dispatch_loop_lem :
      (f d i : ℕ) (q : List ℕ) (hand : List Closure) (s : Epoll)
      → (s.descriptor d).op_queue i ≡ q
      → length q < f
      → i ≤ ev_pri
      → d < s.made
      → Sound 0 hand s
      → Gives (Dispatched d i hand s) (dispatch_loop handler post_proc f d i s)
  dispatch_loop_lem zero d i q hand s e l hi hd h = absurd (omega (arith, l))
  dispatch_loop_lem (suc f) d i [] hand s e l hi hd h = (s, loop_empty f d i s e, stays_here)
    where
      stays_here : Dispatched d i hand s s
      stays_here = record {
        sound = h;
        grows = omega arith;
        lives = λ j l. refl;
        others = λ j l ne. refl;
        beside = λ x ne. refl;
        ran = [];
        split = refl;
        calls = sym (append-nil (called s.trace));
        longer = omega arith;
        balance = λ x b. b;
        turns = ends s e;
      }
  dispatch_loop_lem (suc f) d i (op ∷ ops) hand s e l hi hd h =
      elim (Bool-cases (post_proc op d s).done) [
        | inl done ↦
            let a = finished-Advanced d i op ops hand s hi hd e h in
            let (t, r, x) =
              dispatch_loop_lem f d i ops hand (finished d i op s) a.rest (omega (arith, l)) hi
                (omega (arith, hd, a.grows)) a.sound in
            (t, loop_done f d i op ops s e done ∙ r, advance d i op ops hand s t e done a x)
        | inr stays ↦ (
          attempted op (post_proc op d s) s,
          loop_blocked f d i op ops s e stays,
          stops-Dispatched d i op ops hand s hd h e stays,
        )
      ]
