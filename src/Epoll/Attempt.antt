-- ===== src/Epoll/Attempt.antt =====
-- One turn of the dispatch in src/io/epoll.cpp: the attempt, the queue and the call.
use mathlib.Core.Path.{subst}
use deprecated_tcode.Common.{ℕ, ◌<◌, ◌≤◌, ◌≡◌, refl, sym, List, ◌∷◌, Option, none, some, arith}
use deprecated_tcode.Epoll.{
  Code, Closure, operation, completes, Epoll, note, set_error, set_queue, ev_pri,
}
use deprecated_tcode.Epoll.Account.{Conserved, completes-Conserved, set_queue-Conserved}
use deprecated_tcode.Epoll.Owner.{Owned, note-Owned, set_descriptor-Owned, take-Owned}
use deprecated_tcode.Epoll.Known.{Known, hand-Known, same-Known}
use deprecated_tcode.Epoll.Requests.{Request}
use deprecated_tcode.Epoll.Sound.{Sound, relax, set_error-Sound, create_in-Sound, untake-Owned}
use deprecated_tcode.Epoll.Serve.{requests-Sound}
use deprecated_tcode.Epoll.Keep.{Kept, same-Kept, then-Kept, set_error-Kept, create_in-Kept}
use deprecated_tcode.Epoll.Stay.{requests-Kept}
use deprecated_tcode.Epoll.Loop.{Outcome, accept_into, attempted, tail, pop_op, complete}

-- The code returns, and what it returns has the property.
abbrev pub Gives {ℓ} : {A : Type 0} → (A → Type ℓ) → Option A → Type ℓ
Gives {A} P o = (a : A) × (o ≡ some a) × P a

accept_into-Sound :
    {k : ℕ} {hand : List Closure} {s : Epoll} (a : Option (ℕ × ℕ))
    → Sound k hand s
    → Sound k hand (accept_into a s)
unfolding accept_into
accept_into-Sound none h = h
accept_into-Sound (some (v, fd)) h = create_in-Sound v fd h

pub attempted-Sound :
    {k : ℕ} {hand : List Closure} {s : Epoll} (op : ℕ) (o : Outcome)
    → Sound k hand s
    → Sound k hand (attempted op o s)
unfolding attempted
attempted-Sound op o h = accept_into-Sound o.accepted (set_error-Sound op o.error h)

accept_into-Kept :
    (n : ℕ) (a : Option (ℕ × ℕ)) (s : Epoll) → n ≤ s.made → Kept n s (accept_into a s)
unfolding accept_into
accept_into-Kept n none s h = same-Kept n s s refl refl refl refl refl (omega arith)
accept_into-Kept n (some (v, fd)) s h = create_in-Kept n v fd s h

pub attempted-Kept : (n op : ℕ) (o : Outcome) (s : Epoll) → n ≤ s.made → Kept n s (attempted op o s)
unfolding attempted set_error
attempted-Kept n op o s h =
    then-Kept (accept_into-Kept n o.accepted (set_error op o.error s) h)
      (set_error-Kept n op o.error s)

pop_op-Owned :
    (d i k : ℕ) (hand : List Closure) (s : Epoll) → Owned k hand s → Owned k hand (pop_op d i s)
unfolding pop_op set_queue
pop_op-Owned d i k hand s h =
    set_descriptor-Owned d _ k hand s refl refl (λ short j l e. ground (arith, e)) h

pop_op-Known :
    (d i : ℕ) (hand : List Closure) (s : Epoll) → Known hand s → Known hand (pop_op d i s)
unfolding pop_op set_queue
pop_op-Known d i hand s h = same-Known hand s (pop_op d i s) refl refl refl h

pop_op-Conserved :
    (d i op : ℕ) (ops : List ℕ) (hand : List Closure) (s : Epoll)
    → i ≤ ev_pri
    → d < s.made
    → (s.descriptor d).op_queue i ≡ op ∷ ops
    → Conserved hand s
    → Conserved (operation op ∷ hand) (pop_op d i s)
unfolding pop_op
pop_op-Conserved d i op ops hand s hi hd e h =
    subst (λ q. Conserved (operation op ∷ hand) (set_queue d i (tail q) s)) (sym e)
      (set_queue-Conserved d i op ops hand s hi hd e h)

pub pop_op-Sound :
    {k : ℕ} {hand : List Closure} {s : Epoll} (d i op : ℕ) (ops : List ℕ)
    → i ≤ ev_pri
    → d < s.made
    → (s.descriptor d).op_queue i ≡ op ∷ ops
    → Sound k hand s
    → Sound k (operation op ∷ hand) (pop_op d i s)
unfolding pop_op set_queue
pop_op-Sound {k} {hand} {s} d i op ops hi hd e h = record {
  conserved = pop_op-Conserved d i op ops hand s hi hd e h.conserved;
  owned = take-Owned op k hand (pop_op d i s) (pop_op-Owned d i k hand s h.owned);
  known =
      hand-Known hand (operation op ∷ hand) (pop_op d i s) (tt, h.known.in_hand)
        (pop_op-Known d i hand s h.known);
}

module _ (handler : ℕ → Code → Epoll → List Request)
    (post_proc : (op d : ℕ) → Epoll → Outcome) where
  pub complete-Sound :
      {hand : List Closure} {s : Epoll} (op : ℕ)
      → Sound 0 (operation op ∷ hand) s
      → Sound 0 hand (complete handler post_proc op s)
  unfolding complete
  complete-Sound {hand} {s} op h =
      let n = completes op (s.error op) in
      requests-Sound (handler op (s.error op) s) (note n s) (
        relax record {
          conserved = completes-Conserved op (s.error op) hand s h.conserved;
          owned = note-Owned n 0 hand s (untake-Owned op 0 hand s h.owned);
          known =
              hand-Known (operation op ∷ hand) hand (note n s) h.known.in_hand.1
                (same-Known (operation op ∷ hand) s (note n s) refl refl refl h.known);
        })

  pub complete-Kept :
      (n op : ℕ) (s : Epoll)
      → n ≤ s.made
      → Kept n (note (completes op (s.error op)) s) (complete handler post_proc op s)
  unfolding complete
  complete-Kept n op s h = requests-Kept n (handler op (s.error op) s) _ h
