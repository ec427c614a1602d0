-- ===== src/Epoll/Sound.antt =====
-- The invariant of src/io/epoll.cpp: the accounts, the holders' counts and the known addresses; and
-- that the steps of the calls keep it.
use deprecated_tcode.Common.{true, ℕ, suc, ◌<◌, ◌≤◌, ◌≡◌, refl, sym, ◌==◌, List, [], ◌∷◌, arith}
use deprecated_tcode.Epoll.{
  Code, Closure, operation, unbinds, submits, drops, faults, Epoll, note, set_error, set_socket,
  execute, push_op, descriptor_release, ev_pri, new,
}
use deprecated_tcode.Epoll.Account.{
  Conserved, carries, one_if, execute-Conserved, submits-Conserved, drops-Conserved,
  push_op-Conserved,
}
use deprecated_tcode.Epoll.Conserve.{descriptor_create-Conserved, descriptor_release-Conserved}
use deprecated_tcode.Epoll.Owner.{
  IsShort, Owned, names, note-Owned, drop_slack, execute-Owned, exchange-Owned, take-Owned,
  same-Owned, set_descriptor-Owned, new-Owned,
}
use deprecated_tcode.Epoll.Release.{in_hand-live, create_in-Owned, descriptor_release-Owned}
use deprecated_tcode.Epoll.Known.{
  Known, new-Known, hand-Known, same-Known, execute-Known, create_in-Known,
  descriptor_release-Known,
}
use deprecated_tcode.Epoll.Requests.{create_in}

pub record Sound (slack : ℕ) (hand : List Closure) (s : Epoll) : Type 0 where
  pub conserved : Conserved hand s
  pub owned : Owned slack hand s
  pub known : Known hand s

pub new-Sound : Sound 0 [] new
new-Sound = record { conserved = λ op. refl; owned = new-Owned; known = new-Known }

pub relax : {k : ℕ} {hand : List Closure} {s : Epoll} → Sound (suc k) hand s → Sound k hand s
relax {k} {hand} {s} h = record {
  conserved = h.conserved;
  owned = drop_slack k hand s h.owned;
  known = h.known;
}

pub note-Sound :
    {k : ℕ} {hand : List Closure} {s : Epoll} (op : ℕ)
    → Sound k hand s
    → Sound (suc k) (operation op ∷ hand) (note (submits op) s)
note-Sound {k} {hand} {s} op h = record {
  conserved = submits-Conserved op hand s h.conserved;
  owned =
      take-Owned op (suc k) hand (note (submits op) s) (note-Owned (submits op) k hand s h.owned);
  known =
      hand-Known hand (operation op ∷ hand) (note (submits op) s) (tt, h.known.in_hand)
        (same-Known hand s (note (submits op) s) refl refl refl h.known);
}

pub faults-Sound :
    {k : ℕ} {hand : List Closure} {s : Epoll} (op : ℕ)
    → Sound k hand s
    → Sound k hand (note (faults op) s)
faults-Sound {k} {hand} {s} op h = relax record {
  conserved = h.conserved;
  owned = note-Owned (faults op) k hand s h.owned;
  known = same-Known hand s (note (faults op) s) refl refl refl h.known;
}

pub untake-Owned :
    (op k : ℕ) (hand : List Closure) (s : Epoll) → Owned k (operation op ∷ hand) s → Owned k hand s
untake-Owned op k hand s h short =
    let c = h short in
    record {
      owner = c.owner;
      owned = c.owned;
      counted = λ d. omega (arith, c.counted d);
      small = c.small;
      slack_small = c.slack_small;
      gone = c.gone;
      unmade = c.unmade;
      emptied = c.emptied;
    }

pub drops-Sound :
    {k : ℕ} {hand : List Closure} {s : Epoll} (op : ℕ)
    → Sound k (operation op ∷ hand) s
    → Sound k hand (note (drops op) s)
drops-Sound {k} {hand} {s} op h = relax record {
  conserved = drops-Conserved op hand s h.conserved;
  owned = note-Owned (drops op) k hand s (untake-Owned op k hand s h.owned);
  known =
      hand-Known (operation op ∷ hand) hand (note (drops op) s) h.known.in_hand.1
        (same-Known (operation op ∷ hand) s (note (drops op) s) refl refl refl h.known);
}

pub set_error-Sound :
    {k : ℕ} {hand : List Closure} {s : Epoll} (op : ℕ) (ec : Code)
    → Sound k hand s
    → Sound k hand (set_error op ec s)
unfolding set_error
set_error-Sound {k} {hand} {s} op ec h = record {
  conserved = h.conserved;
  owned = same-Owned k hand s (set_error op ec s) refl refl refl refl refl h.owned;
  known = same-Known hand s (set_error op ec s) refl refl refl h.known;
}

pub execute-Sound :
    {k : ℕ} {hand : List Closure} {s : Epoll} (c : Closure)
    → Sound k (c ∷ hand) s
    → Sound k hand (execute c s)
execute-Sound {k} {hand} {s} c h = record {
  conserved = execute-Conserved c hand s h.conserved;
  owned = execute-Owned c k hand s h.owned;
  known = execute-Known c hand s h.known;
}

create_in-Conserved :
    (v fd : ℕ) (hand : List Closure) (s : Epoll)
    → Conserved hand s
    → Conserved hand (create_in v fd s)
unfolding create_in set_socket
create_in-Conserved v fd hand s h = descriptor_create-Conserved fd hand s h

pub create_in-Sound :
    {k : ℕ} {hand : List Closure} {s : Epoll} (v fd : ℕ)
    → Sound k hand s
    → Sound k hand (create_in v fd s)
create_in-Sound {k} {hand} {s} v fd h = record {
  conserved = create_in-Conserved v fd hand s h.conserved;
  owned = create_in-Owned v fd k hand s h.owned;
  known = create_in-Known v fd hand s h.known;
}

push_op-Owned :
    (d i op k : ℕ) (hand : List Closure) (s : Epoll)
    → (IsShort s → (s.descriptor d).live ≡ true)
    → Owned k hand s
    → Owned k hand (push_op d i op s)
unfolding push_op
push_op-Owned d i op k hand s live h =
    set_descriptor-Owned d _ k hand s refl refl (λ short j dead e. ground (arith, live short, dead))
      h

push_op-Known :
    (d i op : ℕ) (hand : List Closure) (s : Epoll) → Known hand s → Known hand (push_op d i op s)
unfolding push_op
push_op-Known d i op hand s h = same-Known hand s (push_op d i op s) refl refl refl h

pub push_op-Sound :
    {k : ℕ} {hand : List Closure} {s : Epoll} (d i op : ℕ)
    → i ≤ ev_pri
    → d < s.made
    → (IsShort s → (s.descriptor d).live ≡ true)
    → Sound k (operation op ∷ hand) s
    → Sound k hand (push_op d i op s)
push_op-Sound {k} {hand} {s} d i op hi hd live h = record {
  conserved = push_op-Conserved d i op hand s hi hd h.conserved;
  owned = push_op-Owned d i op k hand s live (untake-Owned op k hand s h.owned);
  known =
      push_op-Known d i op hand s
        (hand-Known (operation op ∷ hand) hand s h.known.in_hand.1 h.known);
}

-- The closure that dispatches an operation puts it in the queue and keeps its reference.
pub dispatch-Sound :
    {k : ℕ} {hand : List Closure} {s : Epoll} (x : Closure) (d i op : ℕ)
    → i ≤ ev_pri
    → ((j : ℕ) → names j x ≡ one_if (d == j))
    → ((y : ℕ) → carries y x ≡ one_if (op == y))
    → d < s.made
    → Sound k (x ∷ hand) s
    → Sound k (unbinds d ∷ hand) (push_op d i op s)
dispatch-Sound {k} {hand} {s} x d i op hi n c hd h = record {
  conserved =
      push_op-Conserved d i op (unbinds d ∷ hand) s hi hd (λ y. omega (arith, h.conserved y, c y));
  owned =
      let o = exchange-Owned x (unbinds d) k hand s (λ j. sym (n j)) h.owned in
      push_op-Owned d i op k (unbinds d ∷ hand) s
        (λ short. in_hand-live (unbinds d) d k hand s (ground arith) o short) o;
  known =
      push_op-Known d i op (unbinds d ∷ hand) s
        (hand-Known (x ∷ hand) (unbinds d ∷ hand) s (hd, h.known.in_hand.1) h.known);
}

pub descriptor_release-Sound :
    {k : ℕ} {hand : List Closure} {s : Epoll} (d : ℕ)
    → Sound k (unbinds d ∷ hand) s
    → Sound k hand (descriptor_release d s)
descriptor_release-Sound {k} {hand} {s} d h = record {
  conserved =
      descriptor_release-Conserved d hand s h.known.in_hand.0 (λ y. omega (arith, h.conserved y));
  owned = descriptor_release-Owned (unbinds d) d k hand s (ground arith) h.owned;
  known =
      descriptor_release-Known d hand s
        (hand-Known (unbinds d ∷ hand) hand s h.known.in_hand.1 h.known);
}
