-- ===== src/Epoll/References.antt =====
-- The calls of src/io/epoll.cpp that take a reference or give one back keep the invariant.
use mathlib.Core.Path.{subst}
use deprecated_tcode.Common.{
  ℕ, suc, ◌<◌, ◌≡◌, refl, sym, ap, ◌∙◌, ◌==◌, List, [], ◌∷◌, Option, none, some, arith, ℕ_discrete,
}
use deprecated_tcode.Epoll.{
  Closure, operation, unbinds, Epoll, set_socket, op_add, execute, wake_up, descriptor_add_ref,
  descriptor_release, set_descriptor, post_all, wake_if, waiting, descriptor_delete, abort_all,
  engine_release, absent,
}
use deprecated_tcode.Epoll.Account.{Conserved, carries, one_if}
use deprecated_tcode.Epoll.Conserve.{
  set_descriptor-Conserved, descriptor_release_last, descriptor_release_more,
}
use deprecated_tcode.Epoll.Owner.{names, clear-Owned, descriptor_add_ref-Owned}
use deprecated_tcode.Epoll.Known.{IsBelow, Known, hand-Known, same-Known, clear-Known}
use deprecated_tcode.Epoll.Requests.{release_in}
use deprecated_tcode.Epoll.Sound.{Sound, execute-Sound, descriptor_release-Sound}

clear-Sound :
    {k : ℕ} {hand : List Closure} {s : Epoll} (v d : ℕ)
    → s.socket v ≡ some d
    → Sound k hand s
    → Sound k (unbinds d ∷ hand) (set_socket v none s)
unfolding set_socket
clear-Sound {k} {hand} {s} v d e h = record {
  conserved = λ y. omega (arith, h.conserved y);
  owned = clear-Owned v d k hand s e h.owned;
  known =
      hand-Known hand (unbinds d ∷ hand) (set_socket v none s)
        (h.known.sockets v d e, h.known.in_hand) (clear-Known v hand s h.known);
}

post_all-set_socket :
    (ops : List ℕ) (v : ℕ) (d : Option ℕ) (s : Epoll)
    → post_all ops (set_socket v d s) ≡ set_socket v d (post_all ops s)
unfolding post_all set_socket op_add
post_all-set_socket [] v d s = refl
post_all-set_socket (op ∷ ops) v d s = post_all-set_socket ops v d (op_add (operation op) s)

wake_if-set_socket :
    (ops : List ℕ) (v : ℕ) (d : Option ℕ) (s : Epoll)
    → wake_if ops (set_socket v d s) ≡ set_socket v d (wake_if ops s)
unfolding set_socket wake_up
wake_if-set_socket [] v d s = refl
wake_if-set_socket (op ∷ ops) v d s = refl

descriptor_delete-set_socket :
    (d v : ℕ) (x : Option ℕ) (s : Epoll)
    → descriptor_delete d (set_socket v x s) ≡ set_socket v x (descriptor_delete d s)
unfolding descriptor_delete set_socket
descriptor_delete-set_socket d v x s =
    let ops = waiting (s.descriptor d) in
    let emptied = record (set_descriptor d absent s) {
      error = abort_all ops s.error;
      engine_refs = engine_release s.engine_refs;
    } in
    ap (wake_if ops) (post_all-set_socket ops v x emptied)
    ∙ wake_if-set_socket ops v x (post_all ops emptied)

descriptor_release-set_socket :
    (d v : ℕ) (x : Option ℕ) (s : Epoll)
    → descriptor_release d (set_socket v x s) ≡ set_socket v x (descriptor_release d s)
unfolding set_socket
descriptor_release-set_socket d v x s = elim (ℕ_discrete (s.descriptor d).refcount 1) [
  | yes e ↦
      descriptor_release_last d (set_socket v x s) e
      ∙ descriptor_delete-set_socket d v x s
      ∙ ap (set_socket v x) (sym (descriptor_release_last d s e))
  | no ne ↦
      descriptor_release_more d (set_socket v x s) ne
      ∙ ap (set_socket v x) (sym (descriptor_release_more d s ne))
]

pub release_in-Sound :
    {k : ℕ} {hand : List Closure} {s : Epoll} (v d : ℕ)
    → s.socket v ≡ some d
    → Sound k hand s
    → Sound k hand (release_in v d s)
unfolding release_in
release_in-Sound {k} {hand} {s} v d e h =
    subst (Sound k hand) (descriptor_release-set_socket d v none s)
      (descriptor_release-Sound d (clear-Sound v d e h))

pub unbind-Sound :
    {hand : List Closure} {s : Epoll} (v d : ℕ)
    → s.socket v ≡ some d
    → Sound 0 hand s
    → Sound 0 hand (execute (unbinds d) (set_socket v none s))
unbind-Sound v d e h = execute-Sound (unbinds d) (clear-Sound v d e h)

descriptor_add_ref-Conserved :
    (x : Closure) (d op : ℕ) (hand : List Closure) (s : Epoll)
    → ((y : ℕ) → carries y x ≡ one_if (op == y))
    → Conserved (operation op ∷ hand) s
    → Conserved (x ∷ hand) (descriptor_add_ref d s)
unfolding descriptor_add_ref
descriptor_add_ref-Conserved x d op hand s c h =
    set_descriptor-Conserved d (s.descriptor d).fd _ (x ∷ hand) s (λ y. omega (arith, h y, c y))

descriptor_add_ref-Known :
    (d : ℕ) (hand : List Closure) (s : Epoll) → Known hand s → Known hand (descriptor_add_ref d s)
unfolding descriptor_add_ref
descriptor_add_ref-Known d hand s h = same-Known hand s (descriptor_add_ref d s) refl refl refl h

-- What `read` and `write` post holds a reference of its own.
pub descriptor_add_ref-Sound :
    {k : ℕ} {hand : List Closure} {s : Epoll} (x : Closure) (v d op : ℕ)
    → ((j : ℕ) → names j x ≡ one_if (d == j))
    → ((y : ℕ) → carries y x ≡ one_if (op == y))
    → (d < s.made → IsBelow s.made x)
    → s.socket v ≡ some d
    → Sound (suc k) (operation op ∷ hand) s
    → Sound k hand (execute x (descriptor_add_ref d s))
descriptor_add_ref-Sound {k} {hand} {s} x v d op n c b e h = execute-Sound x record {
  conserved = descriptor_add_ref-Conserved x d op hand s c h.conserved;
  owned = descriptor_add_ref-Owned x v d op k hand s n e h.owned;
  known = descriptor_add_ref-Known d (x ∷ hand) s (
      hand-Known (operation op ∷ hand) (x ∷ hand) s (b (h.known.sockets v d e), h.known.in_hand.1)
        h.known);
}
