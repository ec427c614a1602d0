-- ===== src/Epoll/Onward.antt =====
-- What each part of a run of src/io/epoll.cpp keeps, and that the dispatch of events keeps it.
use mathlib.Core.Path.{subst}
use deprecated_tcode.Common.{
  suc, ℕ, suc, ◌<◌, ◌≤◌, ◌≡◌, refl, sym, ◌∙◌, Bool, true, false, List, Option, arith, length,
}
use deprecated_tcode.Epoll.{Code, Closure, Epoll, ev_read, ev_write, ev_pri}
use deprecated_tcode.Epoll.Owner.{IsShort, same-Owned}
use deprecated_tcode.Epoll.Known.{same-Known}
use deprecated_tcode.Epoll.Requests.{Request}
use deprecated_tcode.Epoll.Refs.{Refs}
use deprecated_tcode.Epoll.Sound.{Sound}
use deprecated_tcode.Epoll.Loop.{◌>>=◌, Events, Outcome, dispatch_if, descriptor_dispatch}
use deprecated_tcode.Epoll.Attempt.{Gives}
use deprecated_tcode.Epoll.Dispatch.{dispatch_loop_lem}

pub Gives-bind :
    {A B : Type 0} {P : A → Type 0} {Q : B → Type 0} (o : Option A) (f : A → Option B)
    → Gives P o
    → ((a : A) → P a → Gives Q (f a))
    → Gives Q (o >>= f)
Gives-bind {Q} o f (a, e, p) g = subst (λ x. Gives Q (x >>= f)) (sym e) (g a p)

-- What every part of a run keeps.
pub record Onward (hand : List Closure) (s t : Epoll) : Type 0 where
  pub sound : Sound 0 hand t
  pub grows : s.made ≤ t.made
  pub lives : (j : ℕ) → j < s.made → (t.descriptor j).live ≡ (s.descriptor j).live
  pub longer : length s.trace ≤ length t.trace
  pub balance : (e : ℕ) → Refs e s → Refs e t

-- What the closures of a run keep: a descriptor may be deleted, and `before` and `after` are the
-- closures that the engine's count still has references for.
pub record Served (before after : ℕ) (hand : List Closure) (s t : Epoll) : Type 0 where
  pub sound : Sound 0 hand t
  pub longer : length s.trace ≤ length t.trace
  pub balance : IsShort t → Refs before s → Refs after t

pub here : {hand : List Closure} (s : Epoll) → Sound 0 hand s → Onward hand s s
here s h = record {
  sound = h;
  grows = omega arith;
  lives = λ j l. refl;
  longer = omega arith;
  balance = λ e r. r;
}

-- A step that touches neither the accounts nor the holders.
pub quiet-Sound :
    {k : ℕ} {hand : List Closure} (s t : Epoll)
    → t.descriptor ≡ s.descriptor
    → t.made ≡ s.made
    → t.socket ≡ s.socket
    → t.queue ≡ s.queue
    → t.trace ≡ s.trace
    → Sound k hand s
    → Sound k hand t
quiet-Sound {k} {hand} s t d m v q r h = record {
  conserved = λ op. rw (d, m, q, r) (h.conserved op);
  owned = same-Owned k hand s t d m v q r h.owned;
  known = same-Known hand s t m v q h.known;
}

pub then-Onward :
    {hand : List Closure} {s t u : Epoll} → Onward hand s t → Onward hand t u → Onward hand s u
then-Onward a b = record {
  sound = b.sound;
  grows = omega (arith, a.grows, b.grows);
  lives = λ j l. b.lives j (omega (arith, l, a.grows)) ∙ a.lives j l;
  longer = omega (arith, a.longer, b.longer);
  balance = λ e r. b.balance e (a.balance e r);
}

module _ (handler : ℕ → Code → Epoll → List Request)
    (post_proc : (op d : ℕ) → Epoll → Outcome) where
  pub dispatch_if-Onward :
      (ready : Bool) (d i : ℕ) (hand : List Closure) (s : Epoll)
      → i ≤ ev_pri
      → d < s.made
      → Sound 0 hand s
      → Gives (Onward hand s) (dispatch_if handler post_proc ready d i s)
  unfolding dispatch_if
  dispatch_if-Onward false d i hand s hi hd h = (s, refl, here s h)
  dispatch_if-Onward true d i hand s hi hd h =
      let q = (s.descriptor d).op_queue i in
      let (t, e, r) =
        dispatch_loop_lem handler post_proc (suc (length q)) d i q hand s refl (omega arith) hi hd
          h in
      (
        t,
        e,
        record {
          sound = r.sound;
          grows = r.grows;
          lives = r.lives;
          longer = r.longer;
          balance = r.balance;
        },
      )

  pub descriptor_dispatch-Onward :
      (d : ℕ) (ev : Events) (hand : List Closure) (s : Epoll)
      → d < s.made
      → Sound 0 hand s
      → Gives (Onward hand s) (descriptor_dispatch handler post_proc d ev s)
  unfolding descriptor_dispatch
  descriptor_dispatch-Onward d ev hand s hd h =
      Gives-bind _ _ (dispatch_if-Onward ev.epollin d ev_read hand s (omega arith) hd h) (λ s1 a.
        Gives-bind _ _
          (dispatch_if-Onward ev.epollout d ev_write hand s1 (omega arith)
            (omega (arith, hd, a.grows)) a.sound)
          (λ s2 b.
            let (t, e, c) =
              dispatch_if-Onward ev.epollpri d ev_pri hand s2 (omega arith)
                (omega (arith, hd, a.grows, b.grows)) b.sound in
            (t, e, then-Onward (then-Onward a b) c)))
