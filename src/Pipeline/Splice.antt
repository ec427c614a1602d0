-- ===== src/Pipeline/Splice.antt =====
-- `add`, `add_inbound`, `add_outbound` and `remove` of the pipeline, as changes of its list.
use deprecated_tcode.Common.{ℕ, ◌≡◌, ◌≢◌, sym, ◌∙◌, false, List, [], ◌∷◌, ◌++◌, arith, append_assoc}
use deprecated_tcode.Common.Maps.{has, Distinct}
use deprecated_tcode.Pipeline.{Filter, Pipeline, add_inbound, add_outbound, remove}
use deprecated_tcode.Pipeline.Chain.{
  IsLinked, IsChain, Inserted, Removed, Inserted-IsLinked, Removed-IsLinked, has-append, next_of,
  far, has_ne,
}

module _ (base x : ℕ) (p : Pipeline) (nb : base ≢ 0) (nx : x ≢ 0) where
  add_inbound-Inserted :
      x ≢ base
      → (p.filters base).inbound ≢ x
      → (p.filters base).inbound ≢ base
      → Inserted p.filters (add_inbound base x p).filters base x
  unfolding add_inbound
  add_inbound-Inserted ne off loop = record {
    new = ground arith;
    before = ground arith;
    after = ground arith;
    rest = ground arith;
  }

  add_inbound_head : (add_inbound base x p).inbound ≡ p.inbound
  unfolding add_inbound
  add_inbound_head = ground arith

  add_outbound-Inserted :
      x ≢ base
      → (y : ℕ) → (p.filters base).outbound ≡ y
      → y ≢ 0
      → x ≢ y
      → base ≢ y
      → (p.filters y).inbound ≡ base
      → Inserted p.filters (add_outbound base x p).filters y x
  unfolding add_outbound
  add_outbound-Inserted ne y out ny off apart back = record {
    new = ground arith;
    before = ground arith;
    after = ground arith;
    rest = ground arith;
  }

  add_outbound_head : (add_outbound base x p).inbound ≡ p.inbound
  unfolding add_outbound
  add_outbound_head = ground arith

module _ (x : ℕ) (p : Pipeline) (nx : x ≢ 0) where
  remove-Removed :
      (y : ℕ)
      → (p.filters x).outbound ≡ y
      → y ≢ 0
      → (p.filters y).inbound ≡ x
      → (p.filters x).inbound ≢ y
      → Removed p.filters (remove x p).filters y x
  unfolding remove
  remove-Removed y out ny back apart = record {
    before = ground arith;
    after = ground arith;
    rest = ground arith;
  }

  remove_head : x ≢ p.inbound → (remove x p).inbound ≡ p.inbound
  unfolding remove
  remove_head ne = ground arith

pub Distinct-insert :
    (y x : ℕ) (xs ys : List ℕ)
    → Distinct (xs ++ y ∷ ys)
    → has x (xs ++ y ∷ ys) ≡ false
    → Distinct (xs ++ y ∷ x ∷ ys)
Distinct-insert y x [] ys d out = (ground (arith, d.0, out), (ground (arith, out), d.1))
Distinct-insert y x (w ∷ ws) ys d out = (
  ground (arith, d.0, out, has-append w ws (y ∷ ys), has-append w ws (y ∷ x ∷ ys)),
  Distinct-insert y x ws ys d.1 (ground (arith, out)),
)

pub Distinct-take_out :
    (y x : ℕ) (xs ys : List ℕ) → Distinct (xs ++ y ∷ x ∷ ys) → Distinct (xs ++ y ∷ ys)
Distinct-take_out y x [] ys d = (ground (arith, d.0), d.1.1)
Distinct-take_out y x (w ∷ ws) ys d = (
  ground (arith, d.0, has-append w ws (y ∷ x ∷ ys), has-append w ws (y ∷ ys)),
  Distinct-take_out y x ws ys d.1,
)

-- What the list says of one place in it.
module _ (f : ℕ → Filter) where
  not_null : (outer head y : ℕ) (xs ys : List ℕ) → IsLinked f outer head (xs ++ y ∷ ys) → y ≢ 0
  not_null outer head y [] ys (at, ne, _, _, _) = ne
  not_null outer head y (w ∷ ws) ys (at, ne, out, here, l) = not_null w _ y ws ys l

  adjacent :
      (outer head y x : ℕ) (xs ys : List ℕ)
      → IsLinked f outer head (xs ++ y ∷ x ∷ ys)
      → ((f y).inbound ≡ x) × (x ≢ 0) × ((f x).outbound ≡ y)
  adjacent outer head y x [] ys (at, ne, out, here, (at', ne', out', _, _)) = (at', ne', out')
  adjacent outer head y x (w ∷ ws) ys (at, ne, out, here, l) = adjacent w _ y x ws ys l

  not_first :
      (outer head y x : ℕ) (xs ys : List ℕ)
      → Distinct (xs ++ y ∷ x ∷ ys)
      → IsLinked f outer head (xs ++ y ∷ x ∷ ys)
      → x ≢ head
  not_first outer head y x [] ys d l e = ground (arith, d.0, l.0, e)
  not_first outer head y x (w ∷ ws) ys d l e =
      has_ne (ws ++ y ∷ x ∷ ys) d.0 (ground (arith, has-append x ws (y ∷ x ∷ ys))) (e ∙ l.0)

behind : (y : ℕ) (xs ys : List ℕ) → Distinct (xs ++ y ∷ ys) → has y ys ≡ false
behind y [] ys d = d.0
behind y (w ∷ ws) ys d = behind y ws ys d.1

outside : (x y : ℕ) (xs ys : List ℕ) → has x (xs ++ y ∷ ys) ≡ false → (x ≢ y) × (has x ys ≡ false)
outside x y xs ys out =
    let no = has-append x xs (y ∷ ys) in (ground (arith, out, no), ground (arith, out, no))

-- `add_inbound` puts a new filter behind its base.
pub add_inbound-IsChain :
    (p : Pipeline) (base x : ℕ) (xs ys : List ℕ)
    → IsChain p (xs ++ base ∷ ys)
    → x ≢ 0
    → has x (xs ++ base ∷ ys) ≡ false
    → IsChain (add_inbound base x p) (xs ++ base ∷ x ∷ ys)
add_inbound-IsChain p base x xs ys c nx out =
    let nb = not_null p.filters 0 _ base xs ys c.linked in
    let next = next_of p.filters 0 _ base xs ys c.linked in
    let (ne, off) = outside x base xs ys out in
    let i : Inserted p.filters (add_inbound base x p).filters base x =
      add_inbound-Inserted base x p nb nx ne (λ e. far ys nx off next (sym e))
        (λ e. far ys nb (behind base xs ys c.distinct) next (sym e)) in
    record {
      linked =
          rw (add_inbound_head base x p nb nx)
            (Inserted-IsLinked p.filters _ base x i nx 0 _ xs ys c.distinct out next c.linked);
      distinct = Distinct-insert base x xs ys c.distinct out;
    }

-- `add_outbound` puts a new filter before its base, if that is not the first one.
pub add_outbound-IsChain :
    (p : Pipeline) (y base x : ℕ) (xs ys : List ℕ)
    → IsChain p (xs ++ y ∷ base ∷ ys)
    → x ≢ 0
    → has x (xs ++ y ∷ base ∷ ys) ≡ false
    → IsChain (add_outbound base x p) (xs ++ y ∷ x ∷ base ∷ ys)
add_outbound-IsChain p y base x xs ys c nx out =
    let ny = not_null p.filters 0 _ y xs (base ∷ ys) c.linked in
    let (back, nb, to) = adjacent p.filters 0 _ y base xs ys c.linked in
    let next = next_of p.filters 0 _ y xs (base ∷ ys) c.linked in
    let (ne, off) = outside x y xs (base ∷ ys) out in
    let apart = behind y xs (base ∷ ys) c.distinct in
    let i : Inserted p.filters (add_outbound base x p).filters y x =
      add_outbound-Inserted base x p nb nx (ground (arith, off)) y to ny ne (ground (arith, apart))
        back in
    record {
      linked =
          rw (add_outbound_head base x p nb nx) (
            Inserted-IsLinked p.filters _ y x i nx 0 _ xs (base ∷ ys) c.distinct out next c.linked);
      distinct = Distinct-insert y x xs (base ∷ ys) c.distinct out;
    }

-- `remove` takes a filter that is not the first one out of the list, and leaves the others.
pub remove-IsChain :
    (p : Pipeline) (y x : ℕ) (xs ys : List ℕ)
    → IsChain p (xs ++ y ∷ x ∷ ys)
    → IsChain (remove x p) (xs ++ y ∷ ys)
remove-IsChain p y x xs ys c =
    let ny = not_null p.filters 0 _ y xs (x ∷ ys) c.linked in
    let (back, nx, to) = adjacent p.filters 0 _ y x xs ys c.linked in
    let rest : IsLinked p.filters 0 p.inbound ((xs ++ y ∷ []) ++ x ∷ ys) =
      rw (append_assoc xs (y ∷ []) (x ∷ ys)) c.linked in
    let next = next_of p.filters 0 _ x (xs ++ y ∷ []) ys rest in
    let i : Removed p.filters (remove x p).filters y x =
      remove-Removed x p nx y to ny back
        (λ e. far ys ny (ground (arith, behind y xs (x ∷ ys) c.distinct)) next (sym e)) in
    record {
      linked =
          rw (remove_head x p nx (not_first p.filters 0 _ y x xs ys c.distinct c.linked))
            (Removed-IsLinked p.filters _ y x i 0 _ xs ys c.distinct next c.linked);
      distinct = Distinct-take_out y x xs ys c.distinct;
    }
