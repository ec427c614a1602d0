-- ===== src/Pipeline/Delivery/Remote.antt =====
-- Writes from another thread: the reference that their closure holds.
use deprecated_tcode.Common.{
  ℕ, ◌+◌, ◌%◌, ◌<◌, ◌≤◌, ◌≡◌, ◌≢◌, refl, ◌∙◌, ap, true, false, not, List, [], ◌∷◌, ◌++◌, arith,
  Option, some, length,
}
use deprecated_tcode.Common.Words.{int_mod}
use deprecated_tcode.ByteBuffer.{ByteBuffer}
use deprecated_tcode.Pipeline.{Filter, Pipeline, Message, Posted, do_write, delivers}
use deprecated_tcode.Pipeline.Chain.{IsChain}
use deprecated_tcode.Pipeline.Delivery.{
  deliver, fire_from, fire_to, call_or_post, deliver_or_write, run_posted, holding, add_ref,
  release, Deliver,
}
use deprecated_tcode.Pipeline.Delivery.Outward.{
  written_on, writes, rev_onto, length-rev_onto, IsBack-of, write_lem,
}
use deprecated_tcode.Pipeline.Delivery.Posting.{release_lem}

module _ (through : ℕ → ByteBuffer → Option ByteBuffer) (methods : ℕ → Message → List Message)
    (passes : (x : ℕ) (b : ByteBuffer) → methods x (do_write b) ≡ written_on (through x b))
    (leaves : ℕ → Filter → Filter) where
  run_written :
      (fuel y : ℕ) (b : ByteBuffer) (p q : Pipeline)
      → deliver_or_write (deliver methods fuel) y (do_write b) (record p { in_pipeline = true })
        ≡ some q
      → run_posted methods leaves fuel (delivers y (do_write b)) p
        ≡ some (record (release q) { in_pipeline = not (release q).in_pipeline })
  unfolding run_posted holding
  run_written fuel y b p q run = ground (arith, run)

  post_written :
      (direct : Deliver) (x : ℕ) (b : ByteBuffer) (p : Pipeline)
      → p.refcount + 1 < int_mod
      → fire_from false direct x (do_write b) p
        ≡ some (record p {
          queue = p.queue ++ delivers (p.filters x).outbound (do_write b) ∷ [];
          refcount = p.refcount + 1;
        })
  unfolding fire_from fire_to call_or_post add_ref
  post_written direct x b p small =
      let r : (p.refcount + 1) % int_mod ≡ p.refcount + 1 = omega (arith, small) in
      ground (arith, r)

  -- A write of a filter of the chain from another thread only posts a closure and takes a reference
  -- to the channel. When the run loop has taken that closure from the queue and runs it, the filters
  -- before that one get the write from the nearest to the first, and, if none keeps it, the channel;
  -- and the reference is given back, so that the channel does not end. The channel is alive, and its
  -- count does not wrap.
  pub posted_writes :
      (direct : Deliver) (fuel x : ℕ) (xs ys : List ℕ) (b : ByteBuffer) (p : Pipeline)
      (others : List Posted)
      → IsChain p (xs ++ x ∷ ys)
      → p.refcount + 1 < int_mod
      → p.refcount ≢ 0
      → length xs ≤ fuel
      → (fire_from false direct x (do_write b) p
          ≡ some (record p {
            queue = p.queue ++ delivers (p.filters x).outbound (do_write b) ∷ [];
            refcount = p.refcount + 1;
          }))
        × (run_posted methods leaves fuel
              (delivers (p.filters x).outbound (do_write b))
              (record p { queue = others; refcount = p.refcount + 1 })
            ≡ some (record p {
              queue = others;
              trace = p.trace ++ writes through (rev_onto xs []) b;
              in_pipeline = false;
            }))
  posted_writes direct fuel x xs ys b p others c small alive h =
      let p₀ = record p { queue = others; refcount = p.refcount + 1 } in
      let p₁ = record p { queue = others; refcount = p.refcount + 1; in_pipeline = true } in
      let p₂ = record p {
        queue = others;
        trace = p.trace ++ writes through (rev_onto xs []) b;
        in_pipeline = true;
      } in
      let back = IsBack-of p.filters 0 _ x xs ys [] c.linked refl in
      (
        post_written direct x b p small,
        run_written fuel (p.filters x).outbound b p₀ _ (
              write_lem through methods passes fuel (p.filters x).outbound (rev_onto xs []) b p₁
                back refl (omega (arith, h, length-rev_onto xs [])))
            ∙ ap {A = Pipeline} (λ r. some (record r { in_pipeline = not r.in_pipeline }))
                (release_lem p₂ small alive),
      )
