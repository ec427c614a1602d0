-- ===== src/Channel/Tests.antt =====
-- The channel at concrete inputs.
use deprecated_tcode.Common.{
  ◌+◌, ◌*◌, ◌≡◌, refl, true, false, List, [], ◌∷◌, arith, some, none, All, drop, length, leb,
  if◌then◌else◌, ◌==◌,
}
use deprecated_tcode.Common.Int.{pos}
use deprecated_tcode.Common.Memory.{bytes}
use deprecated_tcode.Block.{Manager, Header}
use deprecated_tcode.ByteBuffer
use deprecated_tcode.ByteBuffer.{ByteBuffer}
use deprecated_tcode.ByteBuffer.Holds.{Holds}
use deprecated_tcode.Pipeline.{Event, on_write}
use deprecated_tcode.Channel.{
  Channel, closes, create, close, is_open, handle_write, write_remains, contains, error_flag,
  close_flag, add_ref,
}
use deprecated_tcode.Channel.Flag.{word, close_once}
use deprecated_tcode.Channel.Life.{new, next, takes, closing, closings, endings, Reached-once}
use deprecated_tcode.Channel.Pending.{pending, IsHeld, HasBytes, handle_write_lem}

-- A channel that is referred to twice, with two buffers to send.
abbrev first : ByteBuffer
first = record { block = 1; pos = record { read = 2; write = 5 } }

abbrev second : ByteBuffer
second = record { block = 2; pos = record { read = 0; write = 4 } }

abbrev channel : Channel
channel = record {
  fd_open = true;
  flag = error_flag + close_flag + 2;
  write_buffers = first ∷ second ∷ [];
  buffer = ByteBuffer.empty;
  queue = [];
  requests = [];
  deleted = false;
}

close_once_example :
    ((close 7 channel).flag ≡ word true false 2)
    × ((close 7 channel).queue ≡ closes 7 ∷ [])
    × (is_open (close 7 channel) ≡ false)
    × (close 9 (close 7 channel) ≡ close 7 channel)
close_once_example = close_once 7 9 channel true true 2 (omega arith) (omega arith)

-- Closed, and with an error that was told, it has one reference left.
abbrev closed : Channel
closed = record channel { flag = 1 }

Reached-once_example :
    (closings (close 7 (add_ref create)).queue
      ≡ (if is_open (close 7 (add_ref create)) then 0 else 1))
    × (endings (close 7 (add_ref create)).queue
        ≡ (if (close 7 (add_ref create)).flag == 0 then 1 else 0))
unfolding create
Reached-once_example = Reached-once (close 7 (add_ref create)) (
    next (add_ref create) _
      (next create _ new (takes create true true 0 (omega arith) (omega arith) (omega arith)))
      (closing 7 (add_ref create)))

abbrev memory : Manager
memory = record {
  pools = λ _. record { alloc_size = 24; pool = [] };
  header = λ _. some (record { refcount = 1; capacity = 8 });
  memory = λ p i. 10 * p + i;
  chunk = λ _. none;
}

abbrev eight : Header
eight = record { refcount = 1; capacity = 8 }

first-Holds : Holds memory first eight
first-Holds = record {
  ne_null = omega arith;
  alive = refl;
  ordered = omega arith;
  within = omega arith;
  small = omega arith;
}

second-Holds : Holds memory second eight
second-Holds = record {
  ne_null = omega arith;
  alive = refl;
  ordered = omega arith;
  within = omega arith;
  small = omega arith;
}

abbrev nothing : Event → Channel → Channel
nothing e c = c

channel-is_open : is_open channel ≡ true
unfolding is_open contains
channel-is_open = refl

-- Five of the seven bytes were sent.
handle_write_lem_example :
    (left : List ByteBuffer) × (pending memory left ≡ drop 5 (pending memory (first ∷ second ∷ [])))
    × All (IsHeld memory) left
    × All (HasBytes memory) left
    × (let flush = leb (length (pending memory (first ∷ second ∷ []))) 5 in
        let told = nothing (on_write (pos 5) flush) (record channel { write_buffers = left }) in
        handle_write nothing 0 (pos 5) channel ≡ (if flush then told else write_remains told))
handle_write_lem_example =
    handle_write_lem memory nothing 5 channel channel-is_open
      ((eight, first-Holds), ((eight, second-Holds), tt))

some_left : pending memory (first ∷ second ∷ []) ≡ 12 ∷ 13 ∷ 14 ∷ 20 ∷ 21 ∷ 22 ∷ 23 ∷ []
unfolding pending bytes
some_left = refl
