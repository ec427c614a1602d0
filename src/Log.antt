-- ===== src/Log.antt =====
-- The hexadecimal dumps of src/log/logger.cpp and src/string.cpp. A string is a list of character
-- codes, and a byte is a number below 256.
pub mod Dump
pub mod Files
mod Tests
use deprecated_tcode.Common.{
  ℕ, zero, suc, ◌+◌, ◌-◌, ◌*◌, ◌/◌, ◌%◌, ◌<◌, ◌≤◌, ◌≡◌, refl, sym, ap, Bool, true, false, ◌==◌, ltb,
  List, [], ◌∷◌, ◌++◌, Option, none, some, if◌then◌else◌, arith, length, length-append, get_or, All,
}
use deprecated_tcode.Common.Words.{int_mod}

-- `"0123456789ABCDEF"`.
abbrev pub hex : List ℕ
hex = 48 ∷ 49 ∷ 50 ∷ 51 ∷ 52 ∷ 53 ∷ 54 ∷ 55 ∷ 56 ∷ 57 ∷ 65 ∷ 66 ∷ 67 ∷ 68 ∷ 69 ∷ 70 ∷ []

-- `i_to_hex::convert`, and the two lines of `raw_to_hex_string`.
unfoldable pub hex_of : ℕ → List ℕ
hex_of ch = get_or hex (ch / 16) 0 ∷ get_or hex (ch % 16) 0 ∷ []

unfoldable pub raw_to_hex_string : List ℕ → List ℕ
raw_to_hex_string [] = []
raw_to_hex_string (b ∷ bs) = hex_of b ++ raw_to_hex_string bs

-- The switch of `write_dump`, where the cases 8, 4 and 12 fall through.
unfoldable pub separator : (i : ℕ) → List ℕ
separator i =
    let column = i % 16 + 1 in
    if column == 16
    then 10 ∷ []
    else if column == 8
    then 32 ∷ 32 ∷ 32 ∷ []
    else if column == 4
    then 32 ∷ 32 ∷ []
    else if column == 12
    then 32 ∷ 32 ∷ []
    else 32 ∷ []

-- The loop of `write_dump`: the message so far, of which `index` is the length.
unfoldable pub dump_loop : (i : ℕ) → List ℕ → (message : List ℕ) → List ℕ
dump_loop i [] message = message
dump_loop i (b ∷ bs) message =
    let message' = message ++ hex_of b ++ separator i in
    let rest = dump_loop (suc i) bs message' in
    if ltb 2040 (length message') then message' else rest

-- What `write_dump` has stored when it formats the caller's text behind it.
unfoldable pub write_dump : List ℕ → List ℕ
write_dump buffer = dump_loop 0 buffer (10 ∷ []) ++ 10 ∷ []

pub length-separator : (i : ℕ) → length (separator i) ≤ 3
unfolding separator
length-separator i = ground arith

pub length-hex_of : (b : ℕ) → length (hex_of b) ≡ 2
unfolding hex_of
length-hex_of b = refl

by_length :
    (m rest : List ℕ)
    → length m ≤ 2045
    → (length m ≤ 2040 → length rest ≤ 2045)
    → length (if ltb 2040 (length m) then m else rest) ≤ 2045
by_length m rest h f = ground (arith, h, f)

length-dump_loop :
    (i : ℕ) (bs message : List ℕ) → length message ≤ 2040 → length (dump_loop i bs message) ≤ 2045
unfolding dump_loop
length-dump_loop i [] message h = omega (arith, h)
length-dump_loop i (b ∷ bs) message h =
    let m = message ++ hex_of b ++ separator i in
    let size : length m ≤ 2045 = omega (
      arith,
      h,
      length-append (message ++ hex_of b) (separator i),
      length-append message (hex_of b),
      length-hex_of b,
      length-separator i,
    ) in
    by_length m (dump_loop (suc i) bs m) size (length-dump_loop (suc i) bs m)

-- The message and what follows it stay within the 2048 bytes of `record::message`, whatever the
-- buffer: at least two of them are left for the caller's text.
pub length-write_dump : (buffer : List ℕ) → length (write_dump buffer) + 2 ≤ 2048
unfolding write_dump
length-write_dump buffer = omega (
  arith,
  length-append (dump_loop 0 buffer (10 ∷ [])) (10 ∷ []),
  length-dump_loop 0 buffer (10 ∷ []) (omega arith),
)
