-- ===== src/Operation/Tests.antt =====
-- The operations at concrete inputs.
use deprecated_tcode.Common.{ℕ, ◌≡◌, refl, true, List, [], ◌∷◌, some}
use deprecated_tcode.Common.Int.{◌+ℤ◌, ◌-ℤ◌}
use deprecated_tcode.Common.Words.{to_int, to_size, min_int}
use deprecated_tcode.Epoll.{
  Answer, returned, failed, eintr, eagain, success, error_disconnected, is_error,
}
use deprecated_tcode.Epoll.Transfer.{
  retry, writev, readv, write_result, read_result, refused, would_block,
}
use deprecated_tcode.Operation.{
  len, set_buffer, skip, skipped, skips_left, skip_buffers, Moving, moved_on, advance,
  post_write_impl, post_read_impl_fixed_len,
}
use deprecated_tcode.Operation.Whole.{transfer}

-- Two buffers, of four and of three bytes.
abbrev seven : Moving
seven = record {
  buffers = record { buf = 100; iov_len = 4 } ∷ record { buf = 200; iov_len = 3 } ∷ [];
  moved = 0;
  error = success;
}

-- Five bytes after an interruption, then none, then the other two.
abbrev attempts : List (List Answer)
attempts = (failed eintr ∷ returned 5 ∷ []) ∷ (failed eagain ∷ []) ∷ (returned 2 ∷ []) ∷ []

abbrev all_seven : List ℕ
all_seven = 100 ∷ 101 ∷ 102 ∷ 103 ∷ 200 ∷ 201 ∷ 202 ∷ []

transfer_lem :
    transfer (post_write_impl (some 7)) attempts seven
    ≡ some (
      true,
      record {
        buffers = record { buf = 104; iov_len = 0 } ∷ record { buf = 203; iov_len = 0 } ∷ [];
        moved = 7;
        error = success;
      },
      all_seven,
    )
unfolding transfer post_write_impl writev retry write_result refused would_block advance is_error
    moved_on skip_buffers skipped skips_left skip set_buffer len to_int to_size min_int ◌+ℤ◌ ◌-ℤ◌
transfer_lem = refl

-- The peer closes after five bytes.
disconnected :
    transfer (post_read_impl_fixed_len (some 7)) ((returned 5 ∷ []) ∷ (returned 0 ∷ []) ∷ []) seven
    ≡ some (
      true,
      record {
        buffers = record { buf = 104; iov_len = 0 } ∷ record { buf = 201; iov_len = 2 } ∷ [];
        moved = 5;
        error = error_disconnected;
      },
      100 ∷ 101 ∷ 102 ∷ 103 ∷ 200 ∷ [],
    )
unfolding transfer post_read_impl_fixed_len readv retry read_result refused would_block advance
    is_error moved_on skip_buffers skipped skips_left skip set_buffer len to_int to_size min_int
    ◌+ℤ◌ ◌-ℤ◌
disconnected = refl
