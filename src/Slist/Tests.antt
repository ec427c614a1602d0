-- ===== src/Slist/Tests.antt =====
-- The intrusive list at concrete inputs.
use deprecated_tcode.Common.{◌≡◌, refl, [], ◌∷◌, arith, some, ◌==◌, if◌then◌else◌}
use deprecated_tcode.Slist.{Slist, Heap, pop_front, size, splice}
use deprecated_tcode.Slist.Queue.{Queues, pop_front-Queues}
use deprecated_tcode.Slist.Splice.{splice-Queues, size-Queues}

-- Two queues: the nodes 1 and 2, and the node 3; the node 9 points to 7.
abbrev heap : Heap
heap n = if n == 1 then 2 else if n == 9 then 7 else 0

abbrev pair : Slist
pair = record { head = 1; tail = 2 }

abbrev single : Slist
single = record { head = 3; tail = 3 }

pair-Queues : Queues heap pair (1 ∷ 2 ∷ [])
pair-Queues = record {
  path = (refl, omega arith, (refl, omega arith, refl));
  tail = refl;
  distinct = (refl, (refl, tt));
}

single-Queues : Queues heap single (3 ∷ [])
single-Queues = record { path = (refl, omega arith, refl); tail = refl; distinct = (refl, tt) }

pop_front-Queues_example :
    Queues (pop_front heap pair).0 (pop_front heap pair).1 (2 ∷ [])
    × ((pop_front heap pair).0 1 ≡ 0)
pop_front-Queues_example = pop_front-Queues heap pair 1 (2 ∷ []) pair-Queues

splice-Queues_example :
    let (next', list', q') = splice heap pair single in
    Queues next' list' (1 ∷ 2 ∷ 3 ∷ []) × Queues next' q' []
splice-Queues_example =
    splice-Queues heap pair single (1 ∷ 2 ∷ []) (3 ∷ []) pair-Queues single-Queues
      (λ z h. ground (arith, h))

counted : size 3 heap pair ≡ some 2
counted = size-Queues 3 heap pair (1 ∷ 2 ∷ []) pair-Queues (omega arith)
