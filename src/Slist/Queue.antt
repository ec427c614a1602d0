-- ===== src/Slist/Queue.antt =====
-- The queue of nodes as a list, and each operation on it.
use deprecated_tcode.Common.{
  ℕ, ◌≡◌, ◌≢◌, refl, sym, ◌∙◌, ap, true, false, ◌||◌, List, [], ◌∷◌, ◌++◌, arith,
}
use deprecated_tcode.Common.Maps.{update, has, Distinct}
use deprecated_tcode.Slist.{Slist, Heap, nothing, push_back, pop_front}

-- From `head` the pointers lead through the list and end at nullptr.
abbrev pub IsPath : Heap → ℕ → List ℕ → Type 0
IsPath next head [] = head ≡ 0
IsPath next head (x ∷ xs) = (head ≡ x) × (x ≢ 0) × IsPath next (next x) xs

abbrev pub last_of : ℕ → List ℕ → ℕ
last_of d [] = d
last_of d (x ∷ xs) = last_of x xs

pub record Queues (next : Heap) (q : Slist) (xs : List ℕ) : Type 0 where
  pub path : IsPath next q.head xs
  pub tail : q.tail ≡ last_of 0 xs
  pub distinct : Distinct xs

pub has_ne : (y z : ℕ) (ys : List ℕ) → has y ys ≡ false → has z ys ≡ true → z ≢ y
has_ne y z ys out inside e = absurd (ground (arith, sym inside ∙ ap (λ w. has w ys) e ∙ out))

pub IsPath-frame :
    (f g : Heap) (head : ℕ) (xs : List ℕ)
    → ((z : ℕ) → has z xs ≡ true → g z ≡ f z)
    → IsPath f head xs
    → IsPath g head xs
IsPath-frame f g head [] same p = p
IsPath-frame f g head (x ∷ xs) same (at, nx, p) = (
  at,
  nx,
  rw (same x (ground arith)) (IsPath-frame f g _ xs (λ z h. same z (ground (arith, h))) p),
)

pub has-last : (x : ℕ) (xs : List ℕ) → has (last_of x xs) (x ∷ xs) ≡ true
has-last x [] = ground arith
has-last x (y ∷ ys) = ground (arith, has-last y ys)

-- The last pointer of a list is set to what leads through another one.
pub IsPath-join :
    (f g : Heap) (head x : ℕ) (xs ys : List ℕ)
    → Distinct (x ∷ xs)
    → ((z : ℕ) → has z (x ∷ xs) ≡ true → z ≢ last_of x xs → g z ≡ f z)
    → IsPath g (g (last_of x xs)) ys
    → IsPath f head (x ∷ xs)
    → IsPath g head ((x ∷ xs) ++ ys)
IsPath-join f g head x [] ys d same rest (at, nx, p) = (at, nx, rest)
IsPath-join f g head x (y ∷ zs) ys d same rest (at, nx, p) =
    let ne : x ≢ last_of y zs = λ e. has_ne x (last_of y zs) (y ∷ zs) d.0 (has-last y zs) (sym e) in
    (
      at,
      nx,
      rw (same x (ground arith) ne)
          (IsPath-join f g _ y zs ys d.1 (λ z h. same z (ground (arith, h))) rest p),
    )

last_of-append : (d n : ℕ) (xs : List ℕ) → last_of d (xs ++ n ∷ []) ≡ n
last_of-append d n [] = refl
last_of-append d n (x ∷ xs) = last_of-append x n xs

has-append : (z : ℕ) (xs ys : List ℕ) → has z (xs ++ ys) ≡ (has z xs || has z ys)
has-append z [] ys = refl
has-append z (x ∷ xs) ys = ground (arith, has-append z xs ys)

pub Distinct-append :
    (xs ys : List ℕ)
    → Distinct xs
    → Distinct ys
    → ((z : ℕ) → has z xs ≡ true → has z ys ≡ false)
    → Distinct (xs ++ ys)
Distinct-append [] ys dx dy apart = dy
Distinct-append (x ∷ xs) ys dx dy apart = (
  ground (arith, dx.0, apart x (ground arith), has-append x xs ys),
  Distinct-append xs ys dx.1 dy (λ z h. apart z (ground (arith, h))),
)

push_back_empty :
    (n : ℕ) (next : Heap) (q : Slist)
    → q.head ≡ 0
    → push_back n next q ≡ (update next n 0, record { head = n; tail = n })
unfolding push_back
push_back_empty n next q e = ground (arith, e)

push_back_more :
    (n : ℕ) (next : Heap) (q : Slist)
    → q.head ≢ 0
    → push_back n next q ≡ (update (update next q.tail n) n 0, record q { tail = n })
unfolding push_back
push_back_more n next q e = ground (arith, e)

-- `push_back` appends a node that is not in the list, whatever that one points to.
pub push_back-Queues :
    (n : ℕ) (next : Heap) (q : Slist) (xs : List ℕ)
    → Queues next q xs
    → n ≢ 0
    → has n xs ≡ false
    → Queues (push_back n next q).0 (push_back n next q).1 (xs ++ n ∷ [])
push_back-Queues n next q [] w nn out =
    rw (push_back_empty n next q w.path)
      (record { path = (refl, nn, ground arith); tail = refl; distinct = (refl, tt) })
push_back-Queues n next q (x ∷ xs) w nn out =
    let some_head : q.head ≢ 0 = λ e. w.path.1 (sym w.path.0 ∙ e) in
    let g = update (update next q.tail n) n 0 in
    let inside : has (last_of x xs) (x ∷ xs) ≡ true = has-last x xs in
    let apart : last_of x xs ≢ n = has_ne n (last_of x xs) (x ∷ xs) out inside in
    let at_last : g (last_of x xs) ≡ n = ground (arith, w.tail, apart) in
    let rest : IsPath g (g (last_of x xs)) (n ∷ []) = (at_last, nn, ground arith) in
    rw (push_back_more n next q some_head) (record {
      path =
          IsPath-join next g q.head x xs (n ∷ []) w.distinct
            (λ z h ne. let z_n : z ≢ n = has_ne n z (x ∷ xs) out h in ground (arith, w.tail)) rest
            w.path;
      tail = sym (last_of-append x n xs);
      distinct =
          Distinct-append (x ∷ xs) (n ∷ []) w.distinct (refl, tt)
            (λ z h. let z_n : z ≢ n = has_ne n z (x ∷ xs) out h in ground arith);
    })

pop_front_last :
    (next : Heap) (q : Slist) → q.head ≢ 0 → q.head ≡ q.tail → pop_front next q ≡ (next, nothing)
unfolding pop_front
pop_front_last next q e same = ground (arith, e, same)

pop_front_more :
    (next : Heap) (q : Slist)
    → q.head ≢ 0
    → q.head ≢ q.tail
    → pop_front next q ≡ (update next q.head 0, record q { head = next q.head })
unfolding pop_front
pop_front_more next q e ne = ground (arith, e, ne)

-- `pop_front` takes the first node out of the list, and that one points to nothing then.
pub pop_front-Queues :
    (next : Heap) (q : Slist) (x : ℕ) (xs : List ℕ)
    → Queues next q (x ∷ xs)
    → Queues (pop_front next q).0 (pop_front next q).1 xs × ((pop_front next q).0 x ≡ 0)
pop_front-Queues next q x [] w =
    let (at, nx, p) = w.path in
    rw (pop_front_last next q (λ e. nx (sym at ∙ e)) (at ∙ sym w.tail))
      (record { path = refl; tail = refl; distinct = tt }, p)
pop_front-Queues next q x (y ∷ ys) w =
    let (at, nx, p) = w.path in
    let ne : x ≢ last_of y ys = λ e. has_ne x _ (y ∷ ys) w.distinct.0 (has-last y ys) (sym e) in
    let apart : q.head ≢ q.tail = λ e. ne (sym at ∙ e ∙ w.tail) in
    rw (pop_front_more next q (λ e. nx (sym at ∙ e)) apart) (
      record {
        path =
            IsPath-frame next (update next q.head 0) (next q.head) (y ∷ ys)
              (λ z h. let z_x : z ≢ x = has_ne x z (y ∷ ys) w.distinct.0 h in ground (arith, at))
              (rw at p);
        tail = w.tail;
        distinct = w.distinct.1;
      },
      ground (arith, at),
    )
