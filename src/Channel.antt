-- ===== src/Channel.antt =====
-- The TCP channel: src/io/ip/tcp/pipeline/channel.cpp.
-- `_flag` is an atomic int, here its bit pattern: two bits that say that no error and no close came
-- yet, and below them the count of references. The socket's operations are recorded in `requests`,
-- and their handlers are run by what the run loop takes up next. What the pipeline's filters do, on
-- each event, is the argument `fire`; the calling thread is `in_run_loop`, an error code is a
-- number, 0 for none. `deleted` is whether the channel deleted itself.
pub mod Flag
pub mod Life
pub mod Pending
mod Tests
use deprecated_tcode.Common.{
  ℕ, ◌+◌, ◌-◌, ◌*◌, ◌/◌, ◌%◌, Bool, true, false, not, ◌==◌, List, [], ◌∷◌, ◌++◌, Option, none, some,
  if◌then◌else◌, length, replicate,
}
use deprecated_tcode.Common.Int.{ℤ, pos, ltb_ℤ, ◌-ℤ◌}
use deprecated_tcode.Common.Words.{int_mod, to_int}
use deprecated_tcode.Block.{M, ◌>>=◌, pure}
use deprecated_tcode.ByteBuffer
use deprecated_tcode.ByteBuffer.{ByteBuffer}
use deprecated_tcode.Pipeline.{Event, on_open, on_close, on_read, on_write, on_error}

abbrev pub error_flag : ℕ
error_flag = 268435456

abbrev pub close_flag : ℕ
close_flag = 536870912

-- `( val & bit ) == bit`, of a single bit.
unfoldable pub contains : (val bit : ℕ) → Bool
contains val bit = val / bit % 2 == 1

-- `reset_if_val_contains_bit`: the exchange, which is atomic, and whether it took the bit away.
unfoldable pub reset_bit : (val bit : ℕ) → Bool × ℕ
reset_bit val bit = if contains val bit then (true, val - bit) else (false, val)

-- `io::buffer`: the place and the length of bytes.
pub record Buffer : Type 0 where
  pub block : ℕ
  pub offset : ℕ
  pub len : ℤ

abbrev pub null_buffer : Buffer
null_buffer = record { block = 0; offset = 0; len = pos 0 }

-- The operations that the socket was given.
pub data Request : Type 0 where
  reads : Buffer → Request
  sends : List Buffer → Request

-- The closures that are given to `engine::execute`.
pub data Task : Type 0 where
  closes : (ec : ℕ) → Task
  ends : Task
  opens : (addr : ℕ) → Task
  writes : ByteBuffer → Task

pub record Channel : Type 0 where
  pub fd_open : Bool
  pub flag : ℕ
  pub write_buffers : List ByteBuffer
  pub buffer : ByteBuffer
  pub queue : List Task
  pub requests : List Request
  pub deleted : Bool

-- The constructor.
unfoldable pub create : Channel
create = record {
  fd_open = true;
  flag = error_flag + close_flag;
  write_buffers = [];
  buffer = ByteBuffer.empty;
  queue = [];
  requests = [];
  deleted = false;
}

abbrev pub post : Task → Channel → Channel
post t c = record c { queue = c.queue ++ t ∷ [] }

abbrev pub request : Request → Channel → Channel
request r c = record c { requests = c.requests ++ r ∷ [] }

unfoldable pub add_ref : Channel → Channel
add_ref c = record c { flag = (c.flag + 1) % int_mod }

unfoldable pub release : Channel → Channel
release c =
    let val = (c.flag + int_mod - 1) % int_mod in
    let d = record c { flag = val } in if val == 0 then post ends d else d

unfoldable pub close : (ec : ℕ) → Channel → Channel
close ec c =
    if (reset_bit c.flag close_flag).0
    then post (closes ec) (record c { flag = (reset_bit c.flag close_flag).1 })
    else c

-- `check_if_val_contains_bit( _flag , close_flag )`.
unfoldable pub is_open : Channel → Bool
is_open c = contains c.flag close_flag

abbrev pub is_empty : List ByteBuffer → Bool
is_empty [] = true
is_empty (_ ∷ _) = false

-- The buffer of the readable bytes.
abbrev pub readable : ByteBuffer → Buffer
readable b = record { block = b.block; offset = b.pos.read; len = to_int (ByteBuffer.length b) }

abbrev pub all_readable : List ByteBuffer → List Buffer
all_readable [] = []
all_readable (b ∷ bs) = readable b ∷ all_readable bs

-- What `write_remains` hands to the socket: for more than one buffer, the vector is constructed
-- with that many empty ones before the real ones are appended.
unfoldable pub to_send : List ByteBuffer → List Buffer
to_send bs =
    if length bs == 1 then all_readable bs else replicate (length bs) null_buffer ++ all_readable bs

unfoldable pub write_remains : Channel → Channel
write_remains c = if is_open c then request (sends (to_send c.write_buffers)) (add_ref c) else c

unfoldable pub do_write : (in_run_loop : Bool) → ByteBuffer → Channel → Channel
do_write in_run_loop buf c =
    if not (is_open c)
    then c
    else if in_run_loop
    then (let d = record c { write_buffers = c.write_buffers ++ buf ∷ [] } in
        if is_empty c.write_buffers then write_remains d else d)
    else post (writes buf) (add_ref c)

-- The loop of `handle_write`: what was sent is read from the buffers.
unfoldable pub consume : (bytes : ℤ) → List ByteBuffer → List ByteBuffer
consume bytes [] = []
consume bytes (b ∷ bs) =
    let rest = consume (bytes -ℤ (ByteBuffer.rd_ptr b bytes).1) bs in
    if ltb_ℤ (pos 0) bytes then (ByteBuffer.rd_ptr b bytes).0 ∷ rest else b ∷ bs

-- `erase` of `remove_if`: the buffers that still have bytes.
unfoldable pub remaining : List ByteBuffer → List ByteBuffer
remaining [] = []
remaining (b ∷ bs) = let rest = remaining bs in if ByteBuffer.length b == 0 then rest else b ∷ rest

-- `read`: the request for as many bytes as there is space behind the write position.
unfoldable pub read : (fresh : ℕ) → Channel → M Channel
read fresh c = if not (is_open c) then pure c else do
  b ← ByteBuffer.reserve fresh c.buffer (pos 4096)
  s ← ByteBuffer.space b
  let space : Buffer = record { block = b.block; offset = b.pos.write; len = to_int s }
  pure (request (reads space) (record (add_ref c) { buffer = b }))

module _ (fire : Event → Channel → Channel) where
  unfoldable pub fire_on_open : (in_run_loop : Bool) → (fresh addr : ℕ) → Channel → M Channel
  fire_on_open in_run_loop fresh addr c =
      if in_run_loop
      then read fresh (fire (on_open addr) (add_ref c))
      else pure (post (opens addr) (add_ref c))

  unfoldable pub fire_on_close : (ec : ℕ) → Channel → Channel
  fire_on_close ec c =
      let d = record c { fd_open = false; flag = (reset_bit c.flag error_flag).1 } in
      let e = if (reset_bit c.flag error_flag).0 then fire (on_error ec) d else d in
      release (fire on_close e)

  unfoldable pub handle_read : (fresh ec : ℕ) → (nbyte : ℤ) → Channel → M Channel
  handle_read fresh ec nbyte c =
      if not (is_open c) then pure c else if not (ec == 0) then pure (close ec c) else do
        (b, _) ← ByteBuffer.wr_ptr c.buffer nbyte
        let d = fire (on_read b) (record c { buffer = b })
        read fresh (record d { buffer = ByteBuffer.clear d.buffer })

  unfoldable pub handle_write : (ec : ℕ) → (nbytes : ℤ) → Channel → Channel
  handle_write ec nbytes c =
      if not (is_open c)
      then c
      else if not (ec == 0)
      then close ec c
      else let left = remaining (consume nbytes c.write_buffers) in
        let flush = is_empty left in
        let d = fire (on_write nbytes flush) (record c { write_buffers = left }) in
        if flush then d else write_remains d

  -- The handlers of the socket's operations, which give the operation's reference back.
  unfoldable pub read_done : (fresh ec : ℕ) → (nbyte : ℤ) → Channel → M Channel
  read_done fresh ec nbyte c = do d ← handle_read fresh ec nbyte c; pure (release d)

  unfoldable pub write_done : (ec : ℕ) → (nbytes : ℤ) → Channel → Channel
  write_done ec nbytes c = release (handle_write ec nbytes c)

  -- A posted closure, run in the run loop.
  unfoldable pub run_task : (fresh : ℕ) → Task → Channel → M Channel
  run_task fresh (closes ec) c = pure (fire_on_close ec c)
  run_task fresh ends c = pure (record c { deleted = true })
  run_task fresh (opens addr) c = fire_on_open true fresh addr c
  run_task fresh (writes buf) c = pure (release (do_write true buf c))
