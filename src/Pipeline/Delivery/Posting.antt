-- ===== src/Pipeline/Delivery/Posting.antt =====
-- Inbound calls from another thread: the reference that their closure holds.
use deprecated_tcode.Common.{
  ℕ, ◌+◌, ◌-◌, ◌%◌, ◌<◌, ◌≡◌, ◌≢◌, refl, ◌∙◌, ap, true, false, not, List, [], ◌∷◌, ◌++◌, arith,
  Option, some, length,
}
use deprecated_tcode.Common.Words.{int_mod}
use deprecated_tcode.Pipeline.{Filter, Pipeline, Event, Message, Posted, inward, delivers}
use deprecated_tcode.Pipeline.Chain.{IsLinked}
use deprecated_tcode.Pipeline.Delivery.{
  deliver, fire_to, call_or_post, deliver_or_write, run_posted, holding, add_ref, release, Deliver,
}
use deprecated_tcode.Pipeline.Delivery.Inward.{deliveries, deliver_lem, passed_on}

pub release_lem :
    (p : Pipeline)
    → p.refcount + 1 < int_mod
    → p.refcount ≢ 0
    → release (record p { refcount = p.refcount + 1 }) ≡ p
unfolding release
release_lem p h alive =
    let e : (p.refcount + 1 + int_mod - 1) % int_mod ≡ p.refcount = omega (arith, h) in
    ground (arith, e, alive)

module _ (through : ℕ → Event → Option Event) (methods : ℕ → Message → List Message)
    (passes : (x : ℕ) (e : Event) → methods x (inward e) ≡ passed_on (through x e))
    (leaves : ℕ → Filter → Filter) where
  run_posted_lem :
      (fuel x : ℕ) (e : Event) (p q : Pipeline)
      → x ≢ 0
      → deliver methods fuel x (inward e) (record p { in_pipeline = true }) ≡ some q
      → run_posted methods leaves fuel (delivers x (inward e)) p
        ≡ some (record (release q) { in_pipeline = not (release q).in_pipeline })
  unfolding run_posted deliver_or_write holding
  run_posted_lem fuel x e p q nx run = ground (arith, run)

  fire_to_lem :
      (direct : Deliver) (x : ℕ) (e : Event) (p : Pipeline)
      → x ≢ 0
      → p.refcount + 1 < int_mod
      → fire_to false direct x (inward e) p
        ≡ some
            (record p { queue = p.queue ++ delivers x (inward e) ∷ []; refcount = p.refcount + 1 })
  unfolding fire_to call_or_post add_ref
  fire_to_lem direct x e p nx small =
      let r : (p.refcount + 1) % int_mod ≡ p.refcount + 1 = omega (arith, small) in
      ground (arith, r)

  -- An inbound call from another thread to a filter of the chain only posts a closure and takes a
  -- reference to the channel. When the run loop has taken that closure from the queue and runs it,
  -- the filters from that one on get the call in their order, and the reference is given back, so
  -- that the channel does not end. The channel is alive, and its count does not wrap.
  pub posted_runs :
      (direct : Deliver) (fuel outer x : ℕ) (xs : List ℕ) (e : Event) (p : Pipeline)
      (others : List Posted)
      → IsLinked p.filters outer x (x ∷ xs)
      → p.refcount + 1 < int_mod
      → p.refcount ≢ 0
      → length xs < fuel
      → (fire_to false direct x (inward e) p
          ≡ some (record p {
            queue = p.queue ++ delivers x (inward e) ∷ [];
            refcount = p.refcount + 1;
          }))
        × (run_posted methods leaves fuel
              (delivers x (inward e))
              (record p { queue = others; refcount = p.refcount + 1 })
            ≡ some (record p {
              queue = others;
              trace = p.trace ++ deliveries through (x ∷ xs) e;
              in_pipeline = false;
            }))
  posted_runs direct fuel outer x xs e p others l small alive h =
      let (at, nx, out, here, rest) = l in
      let p₁ = record p { queue = others; refcount = p.refcount + 1; in_pipeline = true } in
      let p₂ = record p {
        queue = others;
        trace = p.trace ++ deliveries through (x ∷ xs) e;
        in_pipeline = true;
      } in
      (
        fire_to_lem direct x e p nx small,
        run_posted_lem fuel x e (record p { queue = others; refcount = p.refcount + 1 }) _ nx
              (deliver_lem through methods passes fuel outer x xs e p₁ l refl h)
            ∙ ap {A = Pipeline} (λ r. some (record r { in_pipeline = not r.in_pipeline }))
                (release_lem p₂ small alive),
      )
