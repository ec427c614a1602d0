-- ===== src/Epoll/Known.antt =====
-- The addresses that src/io/epoll.cpp keeps are those of descriptors that were created.
use mathlib.Core.Path.{subst}
use deprecated_tcode.Common.{
  ℕ, suc, ◌<◌, ◌≡◌, refl, sym, List, [], ◌∷◌, none, some, arith, ℕ_discrete, All, All-mono,
  All-append,
}
use deprecated_tcode.Epoll.{
  Closure, operation, dispatches_read, dispatches_write, unbinds, Epoll, absent, set_socket, op_add,
  execute, wake_up, post_all, waiting, wake_if, descriptor_delete, descriptor_release,
  set_descriptor, abort_all, descriptor_create, engine_release, new,
}
use deprecated_tcode.Epoll.Conserve.{descriptor_release_last, descriptor_release_more}
use deprecated_tcode.Epoll.Requests.{create_in}

abbrev pub IsBelow : ℕ → Closure → Type 0
IsBelow n (operation op) = Unit
IsBelow n (dispatches_read d op) = d < n
IsBelow n (dispatches_write d op) = d < n
IsBelow n (unbinds d) = d < n

pub record Known (hand : List Closure) (s : Epoll) : Type 0 where
  pub in_hand : All (IsBelow s.made) hand
  pub posted : All (IsBelow s.made) s.queue
  pub sockets : (v d : ℕ) → s.socket v ≡ some d → d < s.made

pub new-Known : Known [] new
new-Known = record { in_hand = tt; posted = tt; sockets = λ v d e. ground (arith, e) }

IsBelow-suc : (n : ℕ) (c : Closure) → IsBelow n c → IsBelow (suc n) c
IsBelow-suc n (operation op) h = tt
IsBelow-suc n (dispatches_read d op) h = omega (arith, h)
IsBelow-suc n (dispatches_write d op) h = omega (arith, h)
IsBelow-suc n (unbinds d) h = omega (arith, h)

pub hand-Known :
    (xs ys : List Closure) (s : Epoll) → All (IsBelow s.made) ys → Known xs s → Known ys s
hand-Known xs ys s h k = record { in_hand = h; posted = k.posted; sockets = k.sockets }

pub op_add-Known :
    (c : Closure) (hand : List Closure) (s : Epoll) → Known (c ∷ hand) s → Known hand (op_add c s)
unfolding op_add
op_add-Known c hand s k = record {
  in_hand = k.in_hand.1;
  posted = All-append (IsBelow s.made) s.queue (c ∷ []) k.posted (k.in_hand.0, tt);
  sockets = k.sockets;
}

-- A change that keeps the variables, the posted closures and the addresses.
pub same-Known :
    (hand : List Closure) (s t : Epoll)
    → t.made ≡ s.made
    → t.socket ≡ s.socket
    → t.queue ≡ s.queue
    → Known hand s
    → Known hand t
same-Known hand s t m v q k = record {
  in_hand = rw m k.in_hand;
  posted = rw (m, q) k.posted;
  sockets = rw (m, v) k.sockets;
}

pub execute-Known :
    (c : Closure) (hand : List Closure) (s : Epoll) → Known (c ∷ hand) s → Known hand (execute c s)
unfolding execute wake_up
execute-Known c hand s k =
    same-Known hand (op_add c s) (execute c s) refl refl refl (op_add-Known c hand s k)

pub clear-Known :
    (v : ℕ) (hand : List Closure) (s : Epoll) → Known hand s → Known hand (set_socket v none s)
unfolding set_socket
clear-Known v hand s k = record {
  in_hand = k.in_hand;
  posted = k.posted;
  sockets = λ w d e. ground (arith, k.sockets w d, e);
}

pub create_in-Known :
    (v fd : ℕ) (hand : List Closure) (s : Epoll) → Known hand s → Known hand (create_in v fd s)
unfolding create_in descriptor_create set_socket
create_in-Known v fd hand s k = record {
  in_hand = All-mono hand (IsBelow-suc s.made) k.in_hand;
  posted = All-mono s.queue (IsBelow-suc s.made) k.posted;
  sockets = λ w d e. ground (arith, k.sockets w d, e);
}

post_all-Known :
    (ops : List ℕ) (hand : List Closure) (s : Epoll) → Known hand s → Known hand (post_all ops s)
unfolding post_all
post_all-Known [] hand s k = k
post_all-Known (op ∷ ops) hand s k =
    post_all-Known ops hand (op_add (operation op) s) (
      op_add-Known (operation op) hand s
        (hand-Known hand (operation op ∷ hand) s (tt, k.in_hand) k))

wake_if-Known :
    (ops : List ℕ) (hand : List Closure) (s : Epoll) → Known hand s → Known hand (wake_if ops s)
unfolding wake_up
wake_if-Known [] hand s k = k
wake_if-Known (op ∷ ops) hand s k = same-Known hand s (wake_up s) refl refl refl k

descriptor_delete-Known :
    (d : ℕ) (hand : List Closure) (s : Epoll) → Known hand s → Known hand (descriptor_delete d s)
unfolding descriptor_delete
descriptor_delete-Known d hand s k =
    let ops = waiting (s.descriptor d) in
    let emptied = record (set_descriptor d absent s) {
      error = abort_all ops s.error;
      engine_refs = engine_release s.engine_refs;
    } in
    wake_if-Known ops hand _
      (post_all-Known ops hand emptied (same-Known hand s emptied refl refl refl k))

pub descriptor_release-Known :
    (d : ℕ) (hand : List Closure) (s : Epoll) → Known hand s → Known hand (descriptor_release d s)
descriptor_release-Known d hand s k = elim (ℕ_discrete (s.descriptor d).refcount 1) [
  | yes e ↦
      subst (Known hand) (sym (descriptor_release_last d s e)) (descriptor_delete-Known d hand s k)
  | no ne ↦
      subst (Known hand) (sym (descriptor_release_more d s ne))
        (same-Known hand s _ refl refl refl k)
]
