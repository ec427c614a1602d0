-- ===== src/Slist.antt =====
-- The intrusive list of include/tcode/slist.hpp, in which the nodes hold the pointers.
-- A node is a number, 0 for nullptr, and `next` is the heap of their pointers, which the queues
-- share. Copies of a queue, and the moves, take its two pointers over.
pub mod Queue
pub mod Splice
mod Tests
use deprecated_tcode.Common.{ℕ, zero, suc, ◌+◌, Bool, ◌==◌, Option, none, some, if◌then◌else◌}
use deprecated_tcode.Common.Maps.{update}

pub record Slist : Type 0 where
  pub head : ℕ
  pub tail : ℕ

abbrev pub Heap : Type 0
Heap = ℕ → ℕ

-- The default constructor, and what a move leaves.
abbrev pub nothing : Slist
nothing = record { head = 0; tail = 0 }

-- The constructor's walk from a node to the last one; `none` when the fuel runs out.
unfoldable pub tail_loop : (fuel : ℕ) → Heap → ℕ → Option ℕ
tail_loop zero next tail = none
tail_loop (suc f) next tail =
    let rest = tail_loop f next (next tail) in
    if tail == 0 then some tail else if next tail == 0 then some tail else rest

unfoldable pub from_node : (fuel : ℕ) → Heap → ℕ → Option Slist
from_node fuel next head = elim (tail_loop fuel next head) [
  | none ↦ none
  | some t ↦ some (record { head = head; tail = t })
]

unfoldable pub push_back : ℕ → Heap → Slist → Heap × Slist
push_back n next q =
    if q.head == 0
    then (update next n 0, record { head = n; tail = n })
    else (update (update next q.tail n) n 0, record q { tail = n })

unfoldable pub push_front : ℕ → Heap → Slist → Heap × Slist
push_front n next q =
    if q.head == 0
    then (next, record { head = n; tail = n })
    else (update next n q.head, record q { head = n })

abbrev pub front : Slist → ℕ
front q = q.head

unfoldable pub pop_front : Heap → Slist → Heap × Slist
pop_front next q =
    if q.head == 0
    then (next, q)
    else if q.head == q.tail
    then (next, nothing)
    else (update next q.head 0, record q { head = next q.head })

abbrev pub is_empty : Slist → Bool
is_empty q = q.head == 0

-- The loop of `size`; `none` when the fuel runs out.
unfoldable pub size_loop : (fuel : ℕ) → Heap → ℕ → ℕ → Option ℕ
size_loop zero next n sz = none
size_loop (suc f) next n sz =
    let rest = size_loop f next (next n) (sz + 1) in if n == 0 then some sz else rest

unfoldable pub size : (fuel : ℕ) → Heap → Slist → Option ℕ
size fuel next q = size_loop fuel next q.head 0

-- The nodes of `q` go behind those of the list: the heap, the list, and `q` after it.
unfoldable pub splice : Heap → (list q : Slist) → Heap × Slist × Slist
splice next list q =
    if is_empty q
    then (next, list, q)
    else if is_empty list
    then (next, record { head = q.head; tail = q.tail }, nothing)
    else (update next list.tail q.head, record list { tail = q.tail }, nothing)
