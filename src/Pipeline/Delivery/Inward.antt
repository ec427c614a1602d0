-- ===== src/Pipeline/Delivery/Inward.antt =====
-- The order in which an inbound call reaches the filters.
use deprecated_tcode.Common.{
  ℕ, zero, suc, ◌<◌, ◌≡◌, ◌≢◌, refl, sym, ◌∙◌, ap, true, false, List, [], ◌∷◌, ◌++◌, arith, Option,
  none, some, length, append_assoc, append-nil, Option-cases, inl, inr,
}
use deprecated_tcode.Pipeline.{Pipeline, Event, Message, Called, inward, method}
use deprecated_tcode.Pipeline.Chain.{IsLinked, IsChain}
use deprecated_tcode.Pipeline.Delivery.{
  fire, deliver, fire_all, fire_from, fire_to, call_or_post, deliver_or_write, holding, trace_call,
}

-- The call that a filter passes on, if it does.
abbrev pub passed_on : Option Event → List Message
passed_on none = []
passed_on (some e) = inward e ∷ []

-- What the filters of a list get, each what the one before it passes on.
unfoldable pub deliveries : (through : ℕ → Event → Option Event) → List ℕ → Event → List Called
deliveries through [] e = []
deliveries through (x ∷ xs) e =
    method x (inward e) ∷ elim (through x e) [ none ↦ [] | some e' ↦ deliveries through xs e' ]

module _ (through : ℕ → Event → Option Event) (methods : ℕ → Message → List Message)
    (passes : (x : ℕ) (e : Event) → methods x (inward e) ≡ passed_on (through x e)) where
  abbrev grown : Pipeline → List Called → Pipeline
  grown p cs = record p { trace = p.trace ++ cs }

  deliver_step :
      (f x : ℕ) (e : Event) (p : Pipeline)
      → deliver methods (suc f) x (inward e) p
        ≡ fire_all
            (deliver methods f)
            x
            (passed_on (through x e))
            (trace_call (method x (inward e)) p)
  unfolding deliver
  deliver_step f x e p = rw (passes x e) refl

  fire_on :
      (f x y : ℕ) (e : Event) (p : Pipeline)
      → (p.filters x).inbound ≡ y
      → y ≢ 0
      → p.in_pipeline ≡ true
      → fire_all (deliver methods f) x (inward e ∷ []) p ≡ deliver methods f y (inward e) p
  unfolding fire_all fire_from fire_to call_or_post deliver_or_write
  fire_on f x y e p next ny held = ground (arith, next, held)

  fire_off :
      (f x : ℕ) (e : Event) (p : Pipeline)
      → (p.filters x).inbound ≡ 0
      → fire_all (deliver methods f) x (inward e ∷ []) p ≡ some p
  unfolding fire_all fire_from
  fire_off f x e p next = ground (arith, next)

  pub deliver_lem :
      (fuel outer x : ℕ) (xs : List ℕ) (e : Event) (p : Pipeline)
      → IsLinked p.filters outer x (x ∷ xs)
      → p.in_pipeline ≡ true
      → length xs < fuel
      → deliver methods fuel x (inward e) p ≡ some (grown p (deliveries through (x ∷ xs) e))
  unfolding deliveries fire_all
  deliver_lem zero outer x xs e p l held h = absurd (omega (arith, h))
  deliver_lem (suc f) outer x [] e p (at, ne, out, here, l) held h =
      deliver_step f x e p ∙ elim (Option-cases (through x e)) [
        | inl stops ↦ rw stops refl
        | inr (e', goes) ↦ rw goes (fire_off f x e' (trace_call (method x (inward e)) p) l)
      ]
  deliver_lem (suc f) outer x (y ∷ ys) e p (at, ne, out, here, (next, ny, out', here', l)) held h =
      let p₁ = trace_call (method x (inward e)) p in
      deliver_step f x e p ∙ elim (Option-cases (through x e)) [
        | inl stops ↦ rw stops refl
        | inr (e', goes) ↦ rw goes (
            fire_on f x y e' p₁ next ny held
            ∙ deliver_lem f x y ys e' p₁ (refl, ny, out', here', l) held (omega (arith, h))
            ∙ ap (λ t. some (record p { trace = t }))
                (append_assoc p.trace (method x (inward e) ∷ []) (deliveries through (y ∷ ys) e')))
      ]

  -- A call from the channel returns, given more fuel than there are filters. The first filter gets
  -- it, and each further one gets what the one before it passed on, in the order of the list, up to
  -- one that passes nothing on. Nothing but the trace changes, and the pipeline is not held after.
  pub fire_delivers :
      (fuel : ℕ) (xs : List ℕ) (e : Event) (p : Pipeline)
      → IsChain p xs
      → length xs < fuel
      → fire methods fuel e p
        ≡ some (record p { trace = p.trace ++ deliveries through xs e; in_pipeline = false })
  unfolding fire holding deliveries
  fire_delivers fuel [] e p c h = ground (arith, c.linked, append-nil p.trace)
  fire_delivers fuel (x ∷ xs) e p c h =
      let p₁ = record p { in_pipeline = true } in
      let (at, ne, out, here, l) = c.linked in
      let run : deliver methods fuel p.inbound (inward e) p₁
          ≡ some (grown p₁ (deliveries through (x ∷ xs) e)) =
        ap (λ z. deliver methods fuel z (inward e) p₁) at
        ∙ deliver_lem fuel 0 x xs e p₁ (refl, ne, out, here, l) refl (omega (arith, h)) in
      let some_head : p.inbound ≢ 0 = λ z. ne (sym at ∙ z) in ground (arith, run, some_head)
