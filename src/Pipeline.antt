-- ===== src/Pipeline.antt =====
-- The pipeline of filters of a TCP channel: src/io/ip/tcp/pipeline/pipeline.cpp and filter.cpp.
-- A `filter*` is a number, 0 for nullptr. `pipeline` of a filter is whether it points to this
-- pipeline, and `in_pipeline` the bit FLAG_IN_PIPELINE of `_flag`, its only one. The channel's
-- reference count and the operations it posted stand in the state, since the pipeline changes them;
-- `trace` records each call of a filter's method and of `channel::do_write`. What the methods of the
-- filters do is an argument, as is the calling thread, `in_run_loop`.
pub mod Chain
pub mod Splice
pub mod Append
pub mod First
pub mod Delivery
mod Tests
use deprecated_tcode.Common.{
  ℕ, zero, suc, ◌+◌, ◌-◌, ◌%◌, Bool, true, false, not, ◌&&◌, ◌==◌, List, [], ◌∷◌, ◌++◌, Option,
  none, some, if◌then◌else◌,
}
use deprecated_tcode.Common.Maps.{update}
use deprecated_tcode.Common.Int.{ℤ}
use deprecated_tcode.Common.Words.{int_mod}
use deprecated_tcode.ByteBuffer.{ByteBuffer}

-- The inbound calls, with an address and an error code as numbers.
pub data Event : Type 0 where
  on_open : (addr : ℕ) → Event
  on_close : Event
  on_read : ByteBuffer → Event
  on_write : (written : ℤ) → (flush : Bool) → Event
  on_error : (ec : ℕ) → Event

-- A call that a filter passes on: inbound, or `filter_do_write`.
pub data Message : Type 0 where
  inward : Event → Message
  do_write : ByteBuffer → Message

pub record Filter : Type 0 where
  pub pipeline : Bool
  pub inbound : ℕ
  pub outbound : ℕ

-- The closures that are given to `engine::execute`; a target 0 is the channel.
pub data Posted : Type 0 where
  delivers : ℕ → Message → Posted
  ends_reference : Posted

-- A method that was called: of a filter, of the channel, and `filter_on_end_reference` of a filter.
pub data Called : Type 0 where
  method : ℕ → Message → Called
  channel_write : ByteBuffer → Called
  ended : ℕ → Called

pub record Pipeline : Type 0 where
  pub filters : ℕ → Filter
  pub inbound : ℕ
  pub in_pipeline : Bool
  pub refcount : ℕ
  pub queue : List Posted
  pub trace : List Called

abbrev pub set_inbound : ℕ → ℕ → Pipeline → Pipeline
set_inbound x y p = record p { filters = update p.filters x (record (p.filters x) { inbound = y }) }

abbrev pub set_outbound : ℕ → ℕ → Pipeline → Pipeline
set_outbound x y p = record p {
  filters = update p.filters x (record (p.filters x) { outbound = y });
}

abbrev pub set_pipeline : ℕ → Pipeline → Pipeline
set_pipeline x p = record p {
  filters = update p.filters x (record (p.filters x) { pipeline = true });
}

-- The constructor of `filter`.
abbrev pub new_filter : Filter
new_filter = record { pipeline = false; inbound = 0; outbound = 0 }

-- The loop of `add`, from a filter to the last one; `none` when the fuel runs out.
unfoldable pub last_loop : (fuel : ℕ) → ℕ → Pipeline → Option ℕ
last_loop zero last p = none
last_loop (suc f) last p =
    let next = last_loop f (p.filters last).inbound p in
    if (p.filters last).inbound == 0 then some last else next

unfoldable pub add : (fuel : ℕ) → ℕ → Pipeline → Option Pipeline
add fuel x p =
    let q = set_pipeline x p in
    if q.inbound == 0 then some (record q { inbound = x }) else elim (last_loop fuel q.inbound q) [
      | none ↦ none
      | some last ↦ some (set_outbound x last (set_inbound x 0 (set_inbound last x q)))
    ]

-- `if ( in ) in->outbound( out )`, and the other way round.
abbrev pub link_outbound : ℕ → ℕ → Pipeline → Pipeline
link_outbound x y p = if x == 0 then p else set_outbound x y p

abbrev pub link_inbound : ℕ → ℕ → Pipeline → Pipeline
link_inbound x y p = if x == 0 then p else set_inbound x y p

unfoldable pub add_inbound : (base x : ℕ) → Pipeline → Pipeline
add_inbound base x p =
    if base == 0
    then p
    else if x == 0
    then p
    else let q = set_pipeline x p in
      let r = set_inbound x (q.filters base).inbound q in
      let s = set_inbound base x (set_outbound x base r) in link_outbound (s.filters x).inbound x s

unfoldable pub add_outbound : (base x : ℕ) → Pipeline → Pipeline
add_outbound base x p =
    if base == 0
    then p
    else if x == 0
    then p
    else let q = set_inbound x base (set_pipeline x p) in
      let r = set_outbound x (q.filters base).outbound q in
      let s = set_outbound base x r in link_inbound (s.filters x).outbound x s

unfoldable pub remove : ℕ → Pipeline → Pipeline
remove x p =
    if x == 0
    then p
    else let inner = (p.filters x).inbound in
      let outer = (p.filters x).outbound in
      let q = link_inbound outer inner (link_outbound inner outer p) in
      if x == q.inbound then record q { inbound = outer } else q
