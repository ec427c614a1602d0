-- ===== src/Epoll/Run.antt =====
-- `run` of src/io/epoll.cpp returns, and keeps the invariant, whatever the operations do.
use deprecated_tcode.Common.{
  ℕ, ◌+◌, ◌-◌, ◌<◌, ◌≤◌, refl, Bool, true, false, List, [], ◌∷◌, arith, length, All, All-mono,
}
use deprecated_tcode.Epoll.{Code, Epoll}
use deprecated_tcode.Epoll.Requests.{Request}
use deprecated_tcode.Epoll.Refs.{same-Refs}
use deprecated_tcode.Epoll.Sound.{Sound}
use deprecated_tcode.Epoll.Loop.{
  Ready, pipe, descriptor, Outcome, is_woken, dispatched, run_events, run_taken, run,
}
use deprecated_tcode.Epoll.Attempt.{Gives}
use deprecated_tcode.Epoll.Onward.{
  Gives-bind, Onward, Served, quiet-Sound, here, then-Onward, descriptor_dispatch-Onward,
}
use deprecated_tcode.Epoll.Closures.{run_ops-Served}

-- `epoll_wait` names descriptors that were created.
abbrev pub IsReady : ℕ → Ready → Type 0
IsReady n pipe = Unit
IsReady n (descriptor d ev) = d < n

IsReady-mono : (m n : ℕ) → m ≤ n → (r : Ready) → IsReady m r → IsReady n r
IsReady-mono m n l pipe h = tt
IsReady-mono m n l (descriptor d ev) h = omega (arith, l, h)

-- `ops = std::move( _op_queue )`.
take-Sound : (s : Epoll) → Sound 0 [] s → Sound 0 s.queue (record s { queue = [] })
take-Sound s h = record {
  conserved = λ op. omega (arith, h.conserved op);
  owned = λ short.
      let c = h.owned short in
      record {
        owner = c.owner;
        owned = c.owned;
        counted = λ d. omega (arith, c.counted d);
        small = c.small;
        slack_small = c.slack_small;
        gone = c.gone;
        unmade = c.unmade;
        emptied = c.emptied;
      };
  known = record { in_hand = h.known.posted; posted = tt; sockets = h.known.sockets };
}

module _ (handler : ℕ → Code → Epoll → List Request)
    (post_proc : (op d : ℕ) → Epoll → Outcome) where
  pub run_events-Onward :
      (events : List Ready) (s : Epoll)
      → All (IsReady s.made) events
      → Sound 0 [] s
      → Gives (Onward [] s) (run_events handler post_proc events s)
  unfolding run_events
  run_events-Onward [] s r h = (s, refl, here s h)
  run_events-Onward (pipe ∷ rest) s r h =
      let s' = record s { pipe = s.pipe - 256 } in
      let (t, e, o) = run_events-Onward rest s' r.1 (quiet-Sound s s' refl refl refl refl refl h) in
      (
        t,
        e,
        record {
          sound = o.sound;
          grows = o.grows;
          lives = o.lives;
          longer = o.longer;
          balance = λ x b. o.balance x (same-Refs x s s' refl (λ j. refl) refl refl b);
        },
      )
  run_events-Onward (descriptor d ev ∷ rest) s r h =
      Gives-bind _ _ (descriptor_dispatch-Onward handler post_proc d ev [] s r.0 h) (λ s' a.
        let ready = All-mono rest (IsReady-mono s.made s'.made a.grows) r.1 in
        let (t, e, b) = run_events-Onward rest s' ready a.sound in (t, e, then-Onward a b))

  run_taken-Served :
      (woken : Bool) (n : ℕ) (s : Epoll)
      → Sound 0 [] s
      → Gives (λ r. Served 0 0 [] s r.1) (run_taken handler post_proc woken n s)
  unfolding run_taken
  run_taken-Served false n s h =
      ((n, s), refl, record { sound = h; longer = omega arith; balance = λ short b. b })
  run_taken-Served true n s h =
      let s' = record s { queue = [] } in
      Gives-bind _ _ (run_ops-Served handler post_proc s.queue s' (take-Sound s h)) (λ t a. (
        (n + length s.queue, t),
        refl,
        record {
          sound = a.sound;
          longer = a.longer;
          balance = λ short b. a.balance short (omega (arith, b));
        },
      ))

  -- From a sound state, with events of descriptors that were created, `run` returns, whatever the
  -- operations do and post; it leaves a sound state with nothing in hand, and the engine's count
  -- one for each live descriptor and posted closure if it was that before.
  pub run-Served :
      (events : List Ready) (s : Epoll)
      → All (IsReady s.made) events
      → Sound 0 [] s
      → Gives (λ r. Served 0 0 [] s r.1) (run handler post_proc events s)
  unfolding run
  run-Served events s r h = Gives-bind _ _ (run_events-Onward events s r h) (λ t a.
      let (x, e, b) = run_taken-Served (is_woken events) (dispatched events) t a.sound in
      (
        x,
        e,
        record {
          sound = b.sound;
          longer = omega (arith, a.longer, b.longer);
          balance = λ short r. b.balance short (a.balance 0 r);
        },
      ))
