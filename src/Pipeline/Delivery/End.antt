-- ===== src/Pipeline/Delivery/End.antt =====
-- The end of the channel: each filter gets its `filter_on_end_reference`, which deletes it.
use deprecated_tcode.Common.{
  ℕ, zero, suc, ◌<◌, ◌≡◌, ◌≢◌, sym, ◌∙◌, ap, true, false, List, [], ◌∷◌, ◌++◌, arith, some, length,
  append_assoc, append-nil,
}
use deprecated_tcode.Common.Maps.{update, update_ne, Distinct}
use deprecated_tcode.Pipeline.{Filter, Pipeline, Called, ended}
use deprecated_tcode.Pipeline.Chain.{IsLinked, IsLinked-frame, IsChain, has_ne}
use deprecated_tcode.Pipeline.Delivery.{end_filter, end_loop, fire_end_reference, holding}

abbrev pub endings : List ℕ → List Called
endings [] = []
endings (x ∷ xs) = ended x ∷ endings xs

module _ (leaves : ℕ → Filter → Filter) where
  -- The memory of the filters once each of them was called.
  abbrev pub left : List ℕ → (ℕ → Filter) → ℕ → Filter
  left [] f = f
  left (x ∷ xs) f = left xs (update f x (leaves x (f x)))

  -- The pipeline once each of the filters was called.
  abbrev pub after_end : List ℕ → Pipeline → Pipeline
  after_end xs p = record p { filters = left xs p.filters; trace = p.trace ++ endings xs }

  after_end-first :
      (x : ℕ) (xs : List ℕ) (p : Pipeline)
      → after_end xs (end_filter leaves x p) ≡ after_end (x ∷ xs) p
  unfolding end_filter
  after_end-first x xs p =
      ap {A = List Called} (λ t. record p { filters = left (x ∷ xs) p.filters; trace = t })
        (append_assoc p.trace (ended x ∷ []) (endings xs))

  -- What a filter leaves in its memory is not read by the rest of the walk.
  end_filter-IsLinked :
      (x head : ℕ) (xs : List ℕ) (p : Pipeline)
      → Distinct (x ∷ xs)
      → IsLinked p.filters x head xs
      → IsLinked (end_filter leaves x p).filters x head xs
  unfolding end_filter
  end_filter-IsLinked x head xs p d l =
      IsLinked-frame p.filters _ x head xs
        (λ z nz inside. update_ne p.filters x (leaves x (p.filters x)) z (has_ne xs d.0 inside)) l

  loop_next :
      (f x : ℕ) (p : Pipeline)
      → x ≢ 0
      → end_loop leaves (suc f) x p
        ≡ end_loop leaves f (p.filters x).inbound (end_filter leaves x p)
  unfolding end_loop
  loop_next f x p ne = ground (arith, ne)

  loop_nil : (f x : ℕ) (p : Pipeline) → x ≡ 0 → end_loop leaves (suc f) x p ≡ some p
  unfolding end_loop
  loop_nil f x p e = ground (arith, e)

  end_loop_lem :
      (fuel outer head : ℕ) (xs : List ℕ) (p : Pipeline)
      → IsLinked p.filters outer head xs
      → Distinct xs
      → length xs < fuel
      → end_loop leaves fuel head p ≡ some (after_end xs p)
  unfolding end_loop
  end_loop_lem zero outer head xs p l d h = absurd (omega (arith, h))
  end_loop_lem (suc f) outer head [] p l d h =
      loop_nil f head p l ∙ ap (λ t. some (record p { trace = t })) (sym (append-nil p.trace))
  end_loop_lem (suc f) outer head (x ∷ xs) p (at, ne, out, here, l) d h =
      ap (λ y. end_loop leaves (suc f) y p) at
      ∙ loop_next f x p ne
      ∙ end_loop_lem f x (p.filters x).inbound xs (end_filter leaves x p)
          (end_filter-IsLinked x (p.filters x).inbound xs p d l) d.1 (omega (arith, h))
      ∙ ap (λ q. some q) (after_end-first x xs p)

  -- At its end the channel calls `filter_on_end_reference` of each filter of the pipeline once, in
  -- the order of the list, and the walk returns, given more fuel than there are filters: whatever
  -- the calls leave in the memory of their filters, which they may delete.
  pub fire_end_reference_lem :
      (fuel : ℕ) (xs : List ℕ) (p : Pipeline)
      → IsChain p xs
      → length xs < fuel
      → fire_end_reference leaves fuel p ≡ some (record (after_end xs p) { in_pipeline = false })
  unfolding fire_end_reference holding
  fire_end_reference_lem fuel xs p c h =
      let run =
        end_loop_lem fuel 0 p.inbound xs (record p { in_pipeline = true }) c.linked c.distinct h in
      ground (arith, run)
