-- ===== src/Slist/Splice.antt =====
-- `push_front`, `splice` and `size` on the queue of nodes.
use deprecated_tcode.Common.{
  ℕ, zero, suc, ◌+◌, ◌<◌, ◌≡◌, ◌≢◌, refl, sym, ◌∙◌, ap, true, false, List, [], ◌∷◌, ◌++◌, arith,
  some, length, append-nil,
}
use deprecated_tcode.Common.Maps.{update, has}
use deprecated_tcode.Slist.{Slist, Heap, nothing, push_front, size, size_loop, splice, is_empty}
use deprecated_tcode.Slist.Queue.{
  Queues, IsPath, IsPath-frame, IsPath-join, last_of, has_ne, has-last, Distinct-append,
}

push_front_more :
    (n : ℕ) (next : Heap) (q : Slist)
    → q.head ≢ 0
    → push_front n next q ≡ (update next n q.head, record q { head = n })
unfolding push_front
push_front_more n next q e = ground (arith, e)

push_front_empty :
    (n : ℕ) (next : Heap) (q : Slist)
    → q.head ≡ 0
    → push_front n next q ≡ (next, record { head = n; tail = n })
unfolding push_front
push_front_empty n next q e = ground (arith, e)

-- `push_front` puts a node that is not in the list before it. An empty list gets the node as it is:
-- it must point to nothing already.
pub push_front-Queues :
    (n : ℕ) (next : Heap) (q : Slist) (xs : List ℕ)
    → Queues next q xs
    → n ≢ 0
    → has n xs ≡ false
    → (is_empty q ≡ true → next n ≡ 0)
    → Queues (push_front n next q).0 (push_front n next q).1 (n ∷ xs)
push_front-Queues n next q [] w nn out single = rw (push_front_empty n next q w.path) (record {
  path = (refl, nn, single (ground (arith, w.path)));
  tail = refl;
  distinct = (refl, tt);
})
push_front-Queues n next q (x ∷ xs) w nn out single =
    let some_head : q.head ≢ 0 = λ e. w.path.1 (sym w.path.0 ∙ e) in
    let g = update next n q.head in
    let first : g n ≡ q.head = ground arith in
    let rest : IsPath g q.head (x ∷ xs) =
      IsPath-frame next g q.head (x ∷ xs)
        (λ z h. let ne : z ≢ n = has_ne n z (x ∷ xs) out h in ground arith) w.path in
    rw (push_front_more n next q some_head) (record {
      path = (refl, nn, (first ∙ rest.0, rest.1, rest.2));
      tail = w.tail;
      distinct = (out, w.distinct);
    })

last_of-join : (d x : ℕ) (xs ys : List ℕ) → last_of d (xs ++ x ∷ ys) ≡ last_of x ys
last_of-join d x [] ys = refl
last_of-join d x (y ∷ zs) ys = last_of-join y x zs ys

splice_more :
    (next : Heap) (list q : Slist)
    → q.head ≢ 0
    → list.head ≢ 0
    → splice next list q ≡ (update next list.tail q.head, record list { tail = q.tail }, nothing)
unfolding splice
splice_more next list q e e' = ground (arith, e, e')

splice_none : (next : Heap) (list q : Slist) → q.head ≡ 0 → splice next list q ≡ (next, list, q)
unfolding splice
splice_none next list q e = ground (arith, e)

splice_over :
    (next : Heap) (list q : Slist)
    → q.head ≢ 0
    → list.head ≡ 0
    → splice next list q ≡ (next, q, nothing)
unfolding splice
splice_over next list q e e' = ground (arith, e, e')

-- `splice` of two lists without a common node appends the second one and empties it.
pub splice-Queues :
    (next : Heap) (list q : Slist) (xs ys : List ℕ)
    → Queues next list xs
    → Queues next q ys
    → ((z : ℕ) → has z xs ≡ true → has z ys ≡ false)
    → let (next', list', q') = splice next list q in
      Queues next' list' (xs ++ ys) × Queues next' q' []
splice-Queues next list q xs [] v w apart =
    rw (splice_none next list q w.path, append-nil xs) (v, w)
splice-Queues next list q [] (y ∷ ys) v w apart =
    rw (splice_over next list q (λ e. w.path.1 (sym w.path.0 ∙ e)) v.path)
      (w, record { path = refl; tail = refl; distinct = tt })
splice-Queues next list q (x ∷ xs) (y ∷ ys) v w apart =
    let some_q : q.head ≢ 0 = λ e. w.path.1 (sym w.path.0 ∙ e) in
    let some_list : list.head ≢ 0 = λ e. v.path.1 (sym v.path.0 ∙ e) in
    let g = update next list.tail q.head in
    let inside = has-last x xs in
    let at_last : g (last_of x xs) ≡ q.head = ground (arith, v.tail) in
    let off = apart (last_of x xs) inside in
    let rest : IsPath g q.head (y ∷ ys) =
      IsPath-frame next g q.head (y ∷ ys)
        (λ z h.
          let ne : z ≢ last_of x xs = has_ne (last_of x xs) z (y ∷ ys) off h in
          ground (arith, v.tail))
        w.path in
    rw (splice_more next list q some_q some_list) (
      record {
        path =
            IsPath-join next g list.head x xs (y ∷ ys) v.distinct (λ z h ne. ground (arith, v.tail))
              (at_last ∙ rest.0, rest.1, rest.2) v.path;
        tail = w.tail ∙ sym (last_of-join x y xs ys);
        distinct = Distinct-append (x ∷ xs) (y ∷ ys) v.distinct w.distinct apart;
      },
      record { path = refl; tail = refl; distinct = tt },
    )

size_loop_lem :
    (fuel : ℕ) (next : Heap) (n : ℕ) (xs : List ℕ) (sz : ℕ)
    → IsPath next n xs
    → length xs < fuel
    → size_loop fuel next n sz ≡ some (sz + length xs)
unfolding size_loop
size_loop_lem zero next n xs sz p h = absurd (omega (arith, h))
size_loop_lem (suc f) next n [] sz p h = ground (arith, p)
size_loop_lem (suc f) next n (x ∷ xs) sz (at, nx, p) h =
    let run = size_loop_lem f next (next x) xs (sz + 1) p (omega (arith, h)) in
    let sum : sz + 1 + length xs ≡ sz + suc (length xs) = omega arith in
    ground (arith, at, run, sum)

-- `size` returns, given more fuel than there are nodes, and counts them.
pub size-Queues :
    (fuel : ℕ) (next : Heap) (q : Slist) (xs : List ℕ)
    → Queues next q xs
    → length xs < fuel
    → size fuel next q ≡ some (length xs)
unfolding size
size-Queues fuel next q xs w h =
    size_loop_lem fuel next q.head xs 0 w.path h ∙ ap some (omega arith)
