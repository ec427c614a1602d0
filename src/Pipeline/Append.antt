-- ===== src/Pipeline/Append.antt =====
-- `add` of the pipeline appends to its list.
use deprecated_tcode.Common.{
  ℕ, zero, suc, ◌<◌, ◌≡◌, ◌≢◌, refl, sym, ◌∙◌, ap, false, List, [], ◌∷◌, ◌++◌, arith, inl, some,
  length, append_assoc,
}
use mathlib.Core.Path.{subst}
use deprecated_tcode.Common.Maps.{has}
use deprecated_tcode.Pipeline.{
  Filter, Pipeline, add, last_loop, new_filter, set_pipeline, set_inbound, set_outbound,
}
use deprecated_tcode.Pipeline.Chain.{
  IsLinked, IsChain, Inserted, IsLinked-frame, Inserted-IsLinked, has-append, has_ne,
}
use deprecated_tcode.Pipeline.Splice.{Distinct-insert}

-- The walk of `add` ends at the last filter.
last_loop_lem :
    (p : Pipeline) (outer head y : ℕ) (ys : List ℕ) (fuel : ℕ)
    → IsLinked p.filters outer head (y ∷ ys)
    → length ys < fuel
    → (xs : List ℕ) × (last : ℕ) × (last_loop fuel head p ≡ some last) × (y ∷ ys ≡ xs ++ last ∷ [])
unfolding last_loop
last_loop_lem p outer head y ys zero l h = absurd (omega (arith, h))
last_loop_lem p outer head y [] (suc fuel) (at, ne, out, here, l) h =
    ([], head, ground (arith, at), ap (λ z. z ∷ []) (sym at))
last_loop_lem p outer head y (z ∷ zs) (suc fuel) (at, ne, out, here, l) h =
    let (xs, last, run, split) =
      last_loop_lem p y (p.filters y).inbound z zs fuel l (omega (arith, h)) in
    (head ∷ xs, last, ground (arith, at, run, l.0, l.1), λ i. sym at i ∷ split i)

module _ (fuel x : ℕ) (p : Pipeline) where
  add_first : p.inbound ≡ 0 → add fuel x p ≡ some (record (set_pipeline x p) { inbound = x })
  unfolding add
  add_first e = ground (arith, e)

  abbrev appended : ℕ → Pipeline
  appended last = set_outbound x last (set_inbound x 0 (set_inbound last x (set_pipeline x p)))

  add_last :
      (last : ℕ)
      → p.inbound ≢ 0
      → last_loop fuel p.inbound (set_pipeline x p) ≡ some last
      → add fuel x p ≡ some (appended last)
  unfolding add
  add_last last ne e = ground (arith, e)

  appended-Inserted :
      (last : ℕ)
      → x ≢ last
      → (p.filters last).inbound ≡ 0
      → Inserted p.filters (appended last).filters last x
  appended-Inserted last ne e = record {
    new = ground (arith, e);
    before = ground arith;
    after = λ h. absurd (h e);
    rest = ground arith;
  }

last_inbound :
    (f : ℕ → Filter) (outer head last : ℕ) (xs : List ℕ)
    → IsLinked f outer head (xs ++ last ∷ [])
    → (f last).inbound ≡ 0
last_inbound f outer head last [] (at, ne, out, here, l) = l
last_inbound f outer head last (w ∷ ws) (at, ne, out, here, l) = last_inbound f w _ last ws l

append_at :
    (p : Pipeline) (fuel x : ℕ) (zs : List ℕ) (last : ℕ)
    → IsChain p (zs ++ last ∷ [])
    → x ≢ 0
    → has x (zs ++ last ∷ []) ≡ false
    → p.inbound ≢ 0
    → last_loop fuel p.inbound (set_pipeline x p) ≡ some last
    → (q : Pipeline) × (add fuel x p ≡ some q) × IsChain q ((zs ++ last ∷ []) ++ x ∷ [])
append_at p fuel x zs last c nx out some_head run =
    let end = last_inbound p.filters 0 _ last zs c.linked in
    let ne : x ≢ last = ground (arith, out, has-append x zs (last ∷ [])) in
    let i = appended-Inserted fuel x p last ne end in
    let chain : IsChain (appended fuel x p last) (zs ++ last ∷ x ∷ []) = record {
      linked =
          Inserted-IsLinked p.filters _ last x i nx 0 _ zs [] c.distinct out (inl end) c.linked;
      distinct = Distinct-insert last x zs [] c.distinct out;
    } in
    (
      appended fuel x p last,
      add_last fuel x p last some_head run,
      subst (IsChain (appended fuel x p last)) (sym (append_assoc zs (last ∷ []) (x ∷ []))) chain,
    )

-- `add` of a new filter returns, given more fuel than there are filters, and appends it.
pub add-IsChain :
    (p : Pipeline) (x : ℕ) (xs : List ℕ) (fuel : ℕ)
    → IsChain p xs
    → x ≢ 0
    → has x xs ≡ false
    → p.filters x ≡ new_filter
    → length xs < fuel
    → (q : Pipeline) × (add fuel x p ≡ some q) × IsChain q (xs ++ x ∷ [])
add-IsChain p x [] fuel c nx out new h = (
  record (set_pipeline x p) { inbound = x },
  add_first fuel x p c.linked,
  record {
    linked = (refl, nx, ground (arith, new), ground arith, ground (arith, new));
    distinct = (refl, tt);
  },
)
add-IsChain p x (y ∷ ys) fuel c nx out new h =
    let same : IsLinked (set_pipeline x p).filters 0 p.inbound (y ∷ ys) =
      IsLinked-frame p.filters _ 0 _ (y ∷ ys)
        (λ z nz inside. let ne = has_ne (y ∷ ys) out inside in ground (arith, ne)) c.linked in
    let (zs, last, run, split) =
      last_loop_lem (set_pipeline x p) 0 p.inbound y ys fuel same (omega (arith, h)) in
    subst (λ ws. (q : Pipeline) × (add fuel x p ≡ some q) × IsChain q (ws ++ x ∷ [])) (sym split)
      (append_at p fuel x zs last (subst (IsChain p) split c) nx (sym (ap (has x) split) ∙ out)
        (λ e. c.linked.1 (sym c.linked.0 ∙ e)) run)
