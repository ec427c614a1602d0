-- ===== src/Pipeline/Tests.antt =====
-- A pipeline at concrete inputs.
use deprecated_tcode.Common.{
  ℕ, ◌≡◌, refl, true, false, ◌==◌, if◌then◌else◌, List, [], ◌∷◌, arith, Option, none, some,
}
use deprecated_tcode.Pipeline.{
  Filter, Pipeline, Event, Message, inward, do_write, delivers, method, on_close, on_error, add,
  add_inbound, remove, new_filter,
}
use deprecated_tcode.ByteBuffer.{ByteBuffer}
use deprecated_tcode.Pipeline.Chain.{IsChain}
use deprecated_tcode.Pipeline.Splice.{add_inbound-IsChain, remove-IsChain}
use deprecated_tcode.Pipeline.Append.{add-IsChain}
use deprecated_tcode.Pipeline.Delivery.{
  fire, fire_end_reference, fire_from, fire_to, run_posted, deliver,
}
use deprecated_tcode.Pipeline.Delivery.Inward.{passed_on, deliveries, fire_delivers}
use deprecated_tcode.Pipeline.Delivery.Outward.{written_on, writes, fire_from-writes}
use deprecated_tcode.Pipeline.Delivery.Posting.{posted_runs}
use deprecated_tcode.Pipeline.Delivery.Remote.{posted_writes}
use deprecated_tcode.Pipeline.Delivery.End.{after_end, fire_end_reference_lem}

abbrev filters : ℕ → Filter
filters x =
    if x == 1
    then record { pipeline = true; inbound = 2; outbound = 0 }
    else if x == 2
    then record { pipeline = true; inbound = 3; outbound = 1 }
    else if x == 3
    then record { pipeline = true; inbound = 0; outbound = 2 }
    else new_filter

-- Three filters in a row, and two references to the channel.
abbrev three : Pipeline
three = record {
  filters = filters;
  inbound = 1;
  in_pipeline = false;
  refcount = 2;
  queue = [];
  trace = [];
}

three-IsChain : IsChain three (1 ∷ 2 ∷ 3 ∷ [])
three-IsChain = record {
  linked = (
    refl,
    omega arith,
    refl,
    refl,
    (refl, omega arith, refl, refl, (refl, omega arith, refl, refl, refl)),
  );
  distinct = (refl, (refl, (refl, tt)));
}

add-IsChain_example : (q : Pipeline) × (add 4 9 three ≡ some q) × IsChain q (1 ∷ 2 ∷ 3 ∷ 9 ∷ [])
add-IsChain_example =
    add-IsChain three 9 (1 ∷ 2 ∷ 3 ∷ []) 4 three-IsChain (omega arith) refl refl (omega arith)

add_inbound-IsChain_example : IsChain (add_inbound 2 9 three) (1 ∷ 2 ∷ 9 ∷ 3 ∷ [])
add_inbound-IsChain_example =
    add_inbound-IsChain three 2 9 (1 ∷ []) (3 ∷ []) three-IsChain (omega arith) refl

remove-IsChain_example : IsChain (remove 2 three) (1 ∷ 3 ∷ [])
remove-IsChain_example = remove-IsChain three 1 2 [] (3 ∷ []) three-IsChain

-- The filter 2 passes each inbound call on as a close, and drops the buffers that are written.
abbrev through : ℕ → Event → Option Event
through x e = some (if x == 2 then on_close else e)

abbrev through_write : ℕ → ByteBuffer → Option ByteBuffer
through_write x b = if x == 2 then none else some b

abbrev methods : ℕ → Message → List Message
methods x (inward e) = passed_on (through x e)
methods x (do_write b) = written_on (through_write x b)

abbrev open_pipeline : Pipeline
open_pipeline = record three { in_pipeline = true }

fire_delivers_example :
    fire methods 4 (on_error 7) three
    ≡ some (record three {
      trace = deliveries through (1 ∷ 2 ∷ 3 ∷ []) (on_error 7);
      in_pipeline = false;
    })
fire_delivers_example =
    fire_delivers through methods (λ x e. refl) 4 (1 ∷ 2 ∷ 3 ∷ []) (on_error 7) three three-IsChain
      (omega arith)

-- The third filter gets the close.
deliveries_run :
    deliveries through (1 ∷ 2 ∷ 3 ∷ []) (on_error 7)
    ≡ method 1 (inward (on_error 7))
      ∷ method 2 (inward (on_error 7))
      ∷ method 3 (inward on_close)
      ∷ []
unfolding deliveries
deliveries_run = refl

abbrev buffer : ByteBuffer
buffer = record { block = 5; pos = record { read = 0; write = 3 } }

open-IsChain : IsChain open_pipeline (1 ∷ 2 ∷ 3 ∷ [])
open-IsChain = record { linked = three-IsChain.linked; distinct = three-IsChain.distinct }

fire_from-writes_example :
    fire_from true (deliver methods 3) 3 (do_write buffer) open_pipeline
    ≡ some (record open_pipeline { trace = writes through_write (2 ∷ 1 ∷ []) buffer })
fire_from-writes_example =
    fire_from-writes through_write methods (λ x b. refl) 3 3 (1 ∷ 2 ∷ []) [] buffer open_pipeline
      open-IsChain refl (omega arith)

-- The memory of a deleted filter is cleared.
abbrev cleared : ℕ → Filter → Filter
cleared x f = new_filter

posted_runs_example :
    (fire_to false (deliver methods 3) 2 (inward on_close) three
      ≡ some (record three { queue = delivers 2 (inward on_close) ∷ []; refcount = 3 }))
    × (run_posted methods cleared 3
          (delivers 2 (inward on_close))
          (record three { queue = []; refcount = 3 })
        ≡ some (record three {
          queue = [];
          trace = deliveries through (2 ∷ 3 ∷ []) on_close;
          in_pipeline = false;
        }))
posted_runs_example =
    posted_runs through methods (λ x e. refl) cleared (deliver methods 3) 3 1 2 (3 ∷ []) on_close
      three [] (refl, omega arith, refl, refl, (refl, omega arith, refl, refl, refl)) (omega arith)
      (omega arith) (omega arith)

posted_writes_example :
    (fire_from false (deliver methods 3) 3 (do_write buffer) three
      ≡ some (record three { queue = delivers 2 (do_write buffer) ∷ []; refcount = 3 }))
    × (run_posted methods cleared 3
          (delivers 2 (do_write buffer))
          (record three { queue = []; refcount = 3 })
        ≡ some (record three {
          queue = [];
          trace = writes through_write (2 ∷ 1 ∷ []) buffer;
          in_pipeline = false;
        }))
posted_writes_example =
    posted_writes through_write methods (λ x b. refl) cleared (deliver methods 3) 3 3 (1 ∷ 2 ∷ [])
      [] buffer three [] three-IsChain (omega arith) (omega arith) (omega arith)

fire_end_reference_lem_example :
    fire_end_reference cleared 4 three
    ≡ some (record (after_end cleared (1 ∷ 2 ∷ 3 ∷ []) three) { in_pipeline = false })
fire_end_reference_lem_example =
    fire_end_reference_lem cleared 4 (1 ∷ 2 ∷ 3 ∷ []) three three-IsChain (omega arith)
