-- ===== src/Pipeline/First.antt =====
-- What `remove` and `add_outbound` do with the first filter of the pipeline.
use deprecated_tcode.Common.{ℕ, ◌≡◌, ◌≢◌, refl, sym, ◌∙◌, ap, false, List, [], ◌∷◌, arith}
use mathlib.Core.Path.{subst}
use deprecated_tcode.Common.Maps.{has}
use deprecated_tcode.Pipeline.{Pipeline, add_outbound, remove}
use deprecated_tcode.Pipeline.Chain.{IsLinked, IsChain, IsLinked-frame, has_ne}

-- `remove` of the first filter takes its outbound neighbour, nullptr, for the first one: the
-- pipeline is empty then, whatever filters came behind.
pub remove_first :
    (p : Pipeline) (x : ℕ) (ys : List ℕ) → IsChain p (x ∷ ys) → IsChain (remove x p) []
unfolding remove
remove_first p x ys c =
    let (at, ne, out, here, l) = c.linked in
    record { linked = ground (arith, at, ne, out); distinct = tt }

-- `add_outbound` before the first filter leaves that one the first: the new filter points to it,
-- and gets what it writes, but the inbound pointers from the pipeline's first filter do not reach
-- the new one.
pub add_outbound_first :
    (p : Pipeline) (base x : ℕ) (ys : List ℕ)
    → IsChain p (base ∷ ys)
    → x ≢ 0
    → has x (base ∷ ys) ≡ false
    → ((add_outbound base x p).inbound ≡ base)
      × IsLinked (add_outbound base x p).filters x base (base ∷ ys)
unfolding add_outbound
add_outbound_first p base x ys c nx fresh =
    let (at, ne, out, here, l) = c.linked in
    let g = (add_outbound base x p).filters in
    let apart : x ≢ base = ground (arith, fresh) in
    let first : g base ≡ record (p.filters base) { outbound = x } =
      ground (arith, ne, nx, out, apart) in
    let l' : IsLinked g base (p.filters base).inbound ys =
      IsLinked-frame p.filters g base _ ys
        (λ z nz inside.
          let z_base : z ≢ base = has_ne ys c.distinct.0 inside in
          let z_new : z ≢ x = has_ne (base ∷ ys) fresh (ground (arith, inside)) in
          ground (arith, ne, nx, out))
        l in
    (
      ground (arith, at, ne, nx, out),
      (
        refl,
        ne,
        ap (λ n. n.outbound) first,
        ap (λ n. n.pipeline) first ∙ here,
        subst (λ n. IsLinked g base n.inbound ys) (sym first) l',
      ),
    )
