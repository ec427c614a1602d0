-- ===== src/Pipeline/Delivery/Outward.antt =====
-- The order in which a write reaches the filters.
use deprecated_tcode.Common.{
  ℕ, zero, suc, ◌+◌, ◌≤◌, ◌≡◌, ◌≢◌, refl, ◌∙◌, ap, true, List, [], ◌∷◌, ◌++◌, arith, Option, none,
  some, length, append_assoc, Option-cases, inl, inr,
}
use deprecated_tcode.ByteBuffer.{ByteBuffer}
use deprecated_tcode.Pipeline.{Filter, Pipeline, Message, Called, do_write, method, channel_write}
use deprecated_tcode.Pipeline.Chain.{IsLinked, IsChain}
use deprecated_tcode.Pipeline.Delivery.{
  deliver, fire_all, fire_from, fire_to, call_or_post, deliver_or_write, trace_call,
}

-- The buffer that a filter writes on, if it does.
abbrev pub written_on : Option ByteBuffer → List Message
written_on none = []
written_on (some b) = do_write b ∷ []

-- What the filters of a list get, the nearest first, and behind the last one the channel.
unfoldable pub writes :
    (through : ℕ → ByteBuffer → Option ByteBuffer) → List ℕ → ByteBuffer → List Called
writes through [] b = channel_write b ∷ []
writes through (x ∷ xs) b =
    method x (do_write b) ∷ elim (through x b) [ none ↦ [] | some b' ↦ writes through xs b' ]

-- The outbound pointers from `y` on.
abbrev pub IsBack : (ℕ → Filter) → ℕ → List ℕ → Type 0
IsBack f y [] = y ≡ 0
IsBack f y (u ∷ us) = (y ≡ u) × (u ≢ 0) × IsBack f (f u).outbound us

-- The first list backwards, before the second.
abbrev pub rev_onto : List ℕ → List ℕ → List ℕ
rev_onto [] us = us
rev_onto (x ∷ xs) us = rev_onto xs (x ∷ us)

pub IsBack-of :
    (f : ℕ → Filter) (outer head x : ℕ) (xs ys us : List ℕ)
    → IsLinked f outer head (xs ++ x ∷ ys)
    → IsBack f outer us
    → IsBack f (f x).outbound (rev_onto xs us)
IsBack-of f outer head x [] ys us (at, nz, out, here, l) b = rw out b
IsBack-of f outer head x (w ∷ ws) ys us (at, nz, out, here, l) b =
    IsBack-of f w _ x ws ys (w ∷ us) l (refl, nz, rw out b)

pub length-rev_onto : (xs us : List ℕ) → length (rev_onto xs us) ≡ length xs + length us
length-rev_onto [] us = omega arith
length-rev_onto (x ∷ xs) us = omega (arith, length-rev_onto xs (x ∷ us))

module _ (through : ℕ → ByteBuffer → Option ByteBuffer) (methods : ℕ → Message → List Message)
    (passes : (x : ℕ) (b : ByteBuffer) → methods x (do_write b) ≡ written_on (through x b)) where
  write_step :
      (f u : ℕ) (b : ByteBuffer) (p : Pipeline)
      → u ≢ 0
      → deliver_or_write (deliver methods (suc f)) u (do_write b) p
        ≡ fire_all
            (deliver methods f)
            u
            (written_on (through u b))
            (trace_call (method u (do_write b)) p)
  unfolding deliver deliver_or_write
  write_step f u b p nu = rw (passes u b) (ground (arith, nu))

  write_on :
      (f x : ℕ) (b : ByteBuffer) (p : Pipeline)
      → p.in_pipeline ≡ true
      → fire_from true (deliver methods f) x (do_write b) p
        ≡ deliver_or_write (deliver methods f) (p.filters x).outbound (do_write b) p
  unfolding fire_from fire_to call_or_post
  write_on f x b p held = ground (arith, held)

  fire_all_one :
      (f x : ℕ) (b : ByteBuffer) (p q : Pipeline)
      → p.in_pipeline ≡ true
      → deliver_or_write (deliver methods f) (p.filters x).outbound (do_write b) p ≡ some q
      → fire_all (deliver methods f) x (do_write b ∷ []) p ≡ some q
  unfolding fire_all
  fire_all_one f x b p q held run =
      let e = write_on f x b p held ∙ run in rw (fire_all, e, fire_all) refl

  write_end :
      (fuel y : ℕ) (b : ByteBuffer) (p : Pipeline)
      → y ≡ 0
      → deliver_or_write (deliver methods fuel) y (do_write b) p
        ≡ some (trace_call (channel_write b) p)
  unfolding deliver_or_write
  write_end fuel y b p e = ground (arith, e)

  pub write_lem :
      (fuel y : ℕ) (us : List ℕ) (b : ByteBuffer) (p : Pipeline)
      → IsBack p.filters y us
      → p.in_pipeline ≡ true
      → length us ≤ fuel
      → deliver_or_write (deliver methods fuel) y (do_write b) p
        ≡ some (record p { trace = p.trace ++ writes through us b })
  unfolding writes fire_all
  write_lem fuel y [] b p back held h = write_end fuel y b p back
  write_lem zero y (u ∷ us) b p back held h = absurd (omega (arith, h))
  write_lem (suc f) y (u ∷ us) b p (at, nu, back) held h =
      let p₁ = trace_call (method u (do_write b)) p in
      ap (λ z. deliver_or_write (deliver methods (suc f)) z (do_write b) p) at
      ∙ write_step f u b p nu
      ∙ elim (Option-cases (through u b)) [
        | inl stops ↦ rw stops refl
        | inr (b', goes) ↦ rw goes (
            fire_all_one f u b' p₁ _ held
              (write_lem f (p.filters u).outbound us b' p₁ back held (omega (arith, h)))
            ∙ ap (λ t. some (record p { trace = t }))
                (append_assoc p.trace (method u (do_write b) ∷ []) (writes through us b')))
      ]

  -- A write that a filter passes on inside the pipeline returns, given as much fuel as there are
  -- filters before it: it goes through these from the nearest to the first, each getting what the
  -- one behind it wrote on, and, if none keeps it, to the channel. Nothing but the trace changes.
  pub fire_from-writes :
      (fuel x : ℕ) (xs ys : List ℕ) (b : ByteBuffer) (p : Pipeline)
      → IsChain p (xs ++ x ∷ ys)
      → p.in_pipeline ≡ true
      → length xs ≤ fuel
      → fire_from true (deliver methods fuel) x (do_write b) p
        ≡ some (record p { trace = p.trace ++ writes through (rev_onto xs []) b })
  fire_from-writes fuel x xs ys b p c held h =
      write_on fuel x b p held
      ∙ write_lem fuel _ (rev_onto xs []) b p (IsBack-of p.filters 0 _ x xs ys [] c.linked refl)
          held (omega (arith, h, length-rev_onto xs []))
