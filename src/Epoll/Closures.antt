-- ===== src/Epoll/Closures.antt =====
-- The closures that a run of src/io/epoll.cpp takes keep the invariant, and the engine's count.
use deprecated_tcode.Common.{
  ap, suc, ℕ, suc, ◌<◌, ◌≤◌, ◌≡◌, refl, ◌==◌, List, [], ◌∷◌, none, some, arith, length,
}
use deprecated_tcode.Epoll.{
  engine_release, note, completes, Code, Closure, operation, dispatches_read, dispatches_write,
  unbinds, Epoll, set_descriptor, push_op, ev_read, ev_write, ev_pri, descriptor_release,
  run_unbind,
}
use deprecated_tcode.Epoll.Account.{one_if, carries}
use deprecated_tcode.Epoll.Conserve.{set_descriptor-Conserved}
use deprecated_tcode.Epoll.Owner.{names, set_descriptor-Owned}
use deprecated_tcode.Epoll.Known.{same-Known}
use deprecated_tcode.Epoll.Requests.{Request}
use deprecated_tcode.Epoll.Refs.{Refs, same-Refs}
use deprecated_tcode.Epoll.Release.{in_hand-live}
use deprecated_tcode.Epoll.Keep.{descriptor_release-Kept, descriptor_release_trace}
use deprecated_tcode.Epoll.Sound.{Sound, dispatch-Sound, descriptor_release-Sound}
use deprecated_tcode.Epoll.Loop.{
  ◌>>=◌, Events, Outcome, epollin_only, epollout_only, complete, descriptor_dispatch,
  descriptor_dispatch_read, descriptor_dispatch_write, run_closure, op_run, run_ops,
}
use deprecated_tcode.Epoll.Attempt.{complete-Kept, Gives, complete-Sound}
use deprecated_tcode.Epoll.Onward.{
  Gives-bind, Onward, Served, quiet-Sound, descriptor_dispatch-Onward,
}

push_op_below : (d i op : ℕ) (s : Epoll) → d < s.made → d < (push_op d i op s).made
unfolding push_op
push_op_below d i op s h = h

push_op-Refs : (d i op e : ℕ) (s : Epoll) → Refs e s → Refs e (push_op d i op s)
unfolding push_op
push_op-Refs d i op e s h = same-Refs e s (push_op d i op s) refl (λ j. ground arith) refl refl h

push_op_trace : (d i op : ℕ) (s : Epoll) → (push_op d i op s).trace ≡ s.trace
unfolding push_op
push_op_trace d i op s = refl

-- The last step of a closure that holds a reference.
release-Served :
    (d : ℕ) (hand : List Closure) (e : ℕ) (s : Epoll)
    → Sound 0 (unbinds d ∷ hand) s
    → Served e e hand s (descriptor_release d s)
release-Served d hand e s h = record {
  sound = descriptor_release-Sound d h;
  longer = omega (arith, ap length (descriptor_release_trace d s));
  balance = λ short b.
      let live =
        in_hand-live (unbinds d) d 0 hand s (ground arith) h.owned
          (omega (arith, short, ap length (descriptor_release_trace d s))) in
      let k = descriptor_release-Kept 0 d s (omega arith) h.known.in_hand.0 live in k.balance e b;
}

released-Served :
    (d i op : ℕ) (hand : List Closure) (e : ℕ) (s t : Epoll)
    → Onward (unbinds d ∷ hand) (push_op d i op s) t
    → Served e e hand s (descriptor_release d t)
released-Served d i op hand e s t a =
    let r = release-Served d hand e t a.sound in
    record {
      sound = r.sound;
      longer = omega (arith, r.longer, a.longer, ap length (push_op_trace d i op s));
      balance = λ short b. r.balance short (a.balance e (push_op-Refs d i op e s b));
    }

module _ (handler : ℕ → Code → Epoll → List Request)
    (post_proc : (op d : ℕ) → Epoll → Outcome) where
  -- A closure that holds the descriptor dispatches its operation and gives the reference back.
  pub dispatches-Served :
      (x : Closure) (d i op : ℕ) (ev : Events) (hand : List Closure) (e : ℕ) (s : Epoll)
      → i ≤ ev_pri
      → ((j : ℕ) → names j x ≡ one_if (d == j))
      → ((y : ℕ) → carries y x ≡ one_if (op == y))
      → d < s.made
      → Sound 0 (x ∷ hand) s
      → Gives (Served e e hand s) (do
        s' ← descriptor_dispatch handler post_proc d ev (push_op d i op s)
        some (descriptor_release d s'))
  dispatches-Served x d i op ev hand e s hi n c hd h =
      Gives-bind _ _
        (descriptor_dispatch-Onward handler post_proc d ev (unbinds d ∷ hand) (push_op d i op s)
          (push_op_below d i op s hd) (dispatch-Sound x d i op hi n c hd h))
        (λ t a. (descriptor_release d t, refl, released-Served d i op hand e s t a))

  pub run_unbind-Served :
      (d : ℕ) (hand : List Closure) (e : ℕ) (s : Epoll)
      → Sound 0 (unbinds d ∷ hand) s
      → Served e e hand s (run_unbind d s)
  unfolding run_unbind
  run_unbind-Served d hand e s h =
      let t = set_descriptor d (record (s.descriptor d) { fd = none }) s in
      let u : Sound 0 (unbinds d ∷ hand) t = record {
        conserved =
            set_descriptor-Conserved d none (s.descriptor d).refcount (unbinds d ∷ hand) s
              h.conserved;
        owned =
            set_descriptor-Owned d _ 0 (unbinds d ∷ hand) s refl refl (λ short i l e. e) h.owned;
        known = same-Known (unbinds d ∷ hand) s t refl refl refl h.known;
      } in
      let r = release-Served d hand e t u in
      record {
        sound = r.sound;
        longer = r.longer;
        balance = λ short b. r.balance short (same-Refs e s t refl (λ j. ground arith) refl refl b);
      }

  pub run_closure-Served :
      (c : Closure) (hand : List Closure) (e : ℕ) (s : Epoll)
      → Sound 0 (c ∷ hand) s
      → Gives (Served e e hand s) (run_closure handler post_proc c s)
  unfolding run_closure descriptor_dispatch_read descriptor_dispatch_write
  run_closure-Served (operation op) hand e s h =
      let k = complete-Kept handler post_proc 0 op s (omega arith) in
      (
        complete handler post_proc op s,
        refl,
        record {
          sound = complete-Sound handler post_proc op h;
          longer = omega (arith, k.longer);
          balance = λ short b.
              k.balance e
                (same-Refs e s (note (completes op (s.error op)) s) refl (λ j. refl) refl refl b);
        },
      )
  run_closure-Served (dispatches_read d op) hand e s h =
      dispatches-Served (dispatches_read d op) d ev_read op epollin_only hand e s (omega arith)
        (λ j. refl) (λ y. refl) h.known.in_hand.0 h
  run_closure-Served (dispatches_write d op) hand e s h =
      dispatches-Served (dispatches_write d op) d ev_write op epollout_only hand e s (omega arith)
        (λ j. refl) (λ y. refl) h.known.in_hand.0 h
  run_closure-Served (unbinds d) hand e s h = (run_unbind d s, refl, run_unbind-Served d hand e s h)

  pub op_run-Served :
      (c : Closure) (hand : List Closure) (e : ℕ) (s : Epoll)
      → Sound 0 (c ∷ hand) s
      → Gives (Served (suc e) e hand s) (op_run handler post_proc c s)
  unfolding op_run
  op_run-Served c hand e s h =
      let s' = record s { engine_refs = engine_release s.engine_refs } in
      let (t, r, x) =
        run_closure-Served c hand e s' (quiet-Sound s s' refl refl refl refl refl h) in
      (
        t,
        r,
        record {
          sound = x.sound;
          longer = x.longer;
          balance = λ short b. x.balance short (omega (arith, b));
        },
      )

  pub run_ops-Served :
      (cs : List Closure) (s : Epoll)
      → Sound 0 cs s
      → Gives (Served (length cs) 0 [] s) (run_ops handler post_proc cs s)
  unfolding run_ops
  run_ops-Served [] s h =
      (s, refl, record { sound = h; longer = omega arith; balance = λ short b. b })
  run_ops-Served (c ∷ cs) s h = Gives-bind _ _ (op_run-Served c cs (length cs) s h) (λ t a.
      let (u, e, b) = run_ops-Served cs t a.sound in
      (
        u,
        e,
        record {
          sound = b.sound;
          longer = omega (arith, a.longer, b.longer);
          balance = λ short r. b.balance short (a.balance (omega (arith, short, b.longer)) r);
        },
      ))
