-- ===== src/Pipeline/Delivery.antt =====
-- How calls go through the pipeline: the fire functions of pipeline.cpp and filter.cpp.
-- Filters may call each other without end, so calls are on fuel, `none` when it runs out. A buffer
-- that is posted is a copy that shares the block. A method returns the calls that it passes on, in
-- order; that is the argument `methods`. What `filter_on_end_reference` leaves in the memory of its
-- filter is the argument `leaves`; the default deletes the filter, so that anything may stand there.
pub mod Inward
pub mod Outward
pub mod Posting
pub mod Remote
pub mod End
use deprecated_tcode.Common.{
  ℕ, zero, suc, ◌+◌, ◌-◌, ◌%◌, Bool, true, false, not, ◌&&◌, ◌==◌, List, [], ◌∷◌, ◌++◌, Option,
  none, some, if◌then◌else◌,
}
use deprecated_tcode.Common.Maps.{update}
use deprecated_tcode.Common.Words.{int_mod}
use deprecated_tcode.Pipeline.{
  Filter, Pipeline, Event, Message, Posted, Called, inward, do_write, delivers, ends_reference,
  method, channel_write, ended,
}

-- `channel::add_ref` and `channel::release`, and `engine::execute`.
abbrev pub post : Posted → Pipeline → Pipeline
post t p = record p { queue = p.queue ++ t ∷ [] }

unfoldable pub add_ref : Pipeline → Pipeline
add_ref p = record p { refcount = (p.refcount + 1) % int_mod }

unfoldable pub release : Pipeline → Pipeline
release p =
    let q = record p { refcount = (p.refcount + int_mod - 1) % int_mod } in
    if q.refcount == 0 then post ends_reference q else q

abbrev pub trace_call : Called → Pipeline → Pipeline
trace_call c p = record p { trace = p.trace ++ c ∷ [] }

-- The constructor and the destructor of `in_pipeline_holder` around a call.
unfoldable pub holding : (Pipeline → Option Pipeline) → Pipeline → Option Pipeline
holding run p = elim (run (record p { in_pipeline = true })) [
  | none ↦ none
  | some q ↦ some (record q { in_pipeline = not q.in_pipeline })
]

-- What a direct call of a filter's method, or of `channel::do_write` for nullptr, does.
abbrev pub Deliver : Type 0
Deliver = ℕ → Message → Pipeline → Option Pipeline

unfoldable pub deliver_or_write : Deliver → Deliver
deliver_or_write deliver x (inward e) p = if x == 0 then some p else deliver x (inward e) p
deliver_or_write deliver x (do_write b) p =
    if x == 0 then some (trace_call (channel_write b) p) else deliver x (do_write b) p

-- `pipeline::in_pipeline`, then the call or its posting: the two branches of each
-- `pipeline::fire_filter_*( filter* , ... )`.
unfoldable pub call_or_post : (in_run_loop : Bool) → Deliver → Deliver
call_or_post in_run_loop deliver x m p =
    if in_run_loop && p.in_pipeline
    then deliver_or_write deliver x m p
    else some (post (delivers x m) (add_ref p))

-- `pipeline::fire_filter_*( filter* , ... )`: an inbound call to nullptr is dropped.
unfoldable pub fire_to : (in_run_loop : Bool) → Deliver → Deliver
fire_to in_run_loop deliver x (inward e) p =
    if x == 0 then some p else call_or_post in_run_loop deliver x (inward e) p
fire_to in_run_loop deliver x (do_write b) p = call_or_post in_run_loop deliver x (do_write b) p

-- `filter::fire_filter_*` of the filter `x`.
unfoldable pub fire_from : (in_run_loop : Bool) → Deliver → Deliver
fire_from in_run_loop deliver x (inward e) p =
    if (p.filters x).inbound == 0
    then some p
    else fire_to in_run_loop deliver (p.filters x).inbound (inward e) p
fire_from in_run_loop deliver x (do_write b) p =
    fire_to in_run_loop deliver (p.filters x).outbound (do_write b) p

-- The calls that a method of `x` makes, one after the other.
unfoldable pub fire_all : Deliver → ℕ → List Message → Pipeline → Option Pipeline
fire_all deliver x [] p = some p
fire_all deliver x (m ∷ ms) p = elim (fire_from true deliver x m p) [
  | none ↦ none
  | some q ↦ fire_all deliver x ms q
]

module _ (methods : ℕ → Message → List Message) where
  -- A method of a filter, called in the run loop.
  unfoldable pub deliver : (fuel : ℕ) → Deliver
  deliver zero x m p = none
  deliver (suc f) x m p = fire_all (deliver f) x (methods x m) (trace_call (method x m) p)

  -- `pipeline::fire_filter_on_*` without a filter: the call from the channel.
  unfoldable pub fire : (fuel : ℕ) → Event → Pipeline → Option Pipeline
  fire fuel e =
      holding (λ p. if p.inbound == 0 then some p else deliver fuel p.inbound (inward e) p)

module _ (leaves : ℕ → Filter → Filter) where
  -- `filter_on_end_reference` of a filter, which deletes it unless a class overrides it.
  unfoldable pub end_filter : ℕ → Pipeline → Pipeline
  end_filter x p = record p {
    filters = update p.filters x (leaves x (p.filters x));
    trace = p.trace ++ ended x ∷ [];
  }

  -- The loop over the filters from `x` on, which reads the pointer of a filter before it calls it.
  unfoldable pub end_loop : (fuel : ℕ) → ℕ → Pipeline → Option Pipeline
  end_loop zero x p = none
  end_loop (suc f) x p =
      let next = (p.filters x).inbound in
      let rest = end_loop f next (end_filter x p) in if x == 0 then some p else rest

  unfoldable pub fire_end_reference : (fuel : ℕ) → Pipeline → Option Pipeline
  fire_end_reference fuel = holding (λ p. end_loop fuel p.inbound p)

module _ (methods : ℕ → Message → List Message) (leaves : ℕ → Filter → Filter) where
  -- A posted closure, which the run loop took from the queue.
  unfoldable pub run_posted : (fuel : ℕ) → Posted → Pipeline → Option Pipeline
  run_posted fuel (delivers x m) = holding (λ p.
      elim (deliver_or_write (deliver methods fuel) x m p) [
        | none ↦ none
        | some q ↦ some (release q)
      ])
  run_posted fuel ends_reference = fire_end_reference leaves fuel
