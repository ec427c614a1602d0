-- ===== src/Base64.antt =====
-- Base64: src/base64.cpp.
-- A string is the list of its characters, as numbers, and so are bytes. The accumulator is an
-- unsigned int, whose shifts wrap; an index beyond the decoder's table, which the code does not
-- check, is undefined, `none`. `base64_decode` does not use its argument `size`.
pub mod Groups
pub mod Decode
mod Tests
use deprecated_tcode.Common.{
  ℕ, zero, suc, ◌+◌, ◌-◌, ◌*◌, ◌/◌, ◌%◌, ◌^◌, Bool, true, false, ◌||◌, ◌&&◌, ◌==◌, List, [], ◌∷◌,
  ◌++◌, Option, none, some, if◌then◌else◌, leb, ltb, length, get_or, get_elem?, replicate,
}
use deprecated_tcode.Common.Words.{int_mod}

-- The characters of `b64_table`.
abbrev pub table : List ℕ
table =
    65 ∷ 66 ∷ 67 ∷ 68 ∷ 69 ∷ 70 ∷ 71 ∷ 72 ∷ 73 ∷ 74 ∷ 75 ∷ 76 ∷ 77 ∷ 78 ∷ 79 ∷ 80 ∷ 81 ∷ 82 ∷ 83
    ∷ 84 ∷ 85 ∷ 86 ∷ 87 ∷ 88 ∷ 89 ∷ 90 ∷ 97 ∷ 98 ∷ 99 ∷ 100 ∷ 101 ∷ 102 ∷ 103 ∷ 104 ∷ 105 ∷ 106
    ∷ 107 ∷ 108 ∷ 109 ∷ 110 ∷ 111 ∷ 112 ∷ 113 ∷ 114 ∷ 115 ∷ 116 ∷ 117 ∷ 118 ∷ 119 ∷ 120 ∷ 121 ∷ 122
    ∷ 48 ∷ 49 ∷ 50 ∷ 51 ∷ 52 ∷ 53 ∷ 54 ∷ 55 ∷ 56 ∷ 57 ∷ 43 ∷ 47 ∷ []

-- `b64_table_r`: the value of a character, 64 for one that has none.
abbrev pub table_r : List ℕ
table_r =
    64 ∷ 64 ∷ 64 ∷ 64 ∷ 64 ∷ 64 ∷ 64 ∷ 64 ∷ 64 ∷ 64 ∷ 64 ∷ 64 ∷ 64 ∷ 64 ∷ 64 ∷ 64 ∷ 64 ∷ 64 ∷ 64
    ∷ 64 ∷ 64 ∷ 64 ∷ 64 ∷ 64 ∷ 64 ∷ 64 ∷ 64 ∷ 64 ∷ 64 ∷ 64 ∷ 64 ∷ 64 ∷ 64 ∷ 64 ∷ 64 ∷ 64 ∷ 64 ∷ 64
    ∷ 64 ∷ 64 ∷ 64 ∷ 64 ∷ 64 ∷ 62 ∷ 64 ∷ 64 ∷ 64 ∷ 63 ∷ 52 ∷ 53 ∷ 54 ∷ 55 ∷ 56 ∷ 57 ∷ 58 ∷ 59 ∷ 60
    ∷ 61 ∷ 64 ∷ 64 ∷ 64 ∷ 64 ∷ 64 ∷ 64 ∷ 64 ∷ 0 ∷ 1 ∷ 2 ∷ 3 ∷ 4 ∷ 5 ∷ 6 ∷ 7 ∷ 8 ∷ 9 ∷ 10 ∷ 11 ∷ 12
    ∷ 13 ∷ 14 ∷ 15 ∷ 16 ∷ 17 ∷ 18 ∷ 19 ∷ 20 ∷ 21 ∷ 22 ∷ 23 ∷ 24 ∷ 25 ∷ 64 ∷ 64 ∷ 64 ∷ 64 ∷ 64 ∷ 64
    ∷ 26 ∷ 27 ∷ 28 ∷ 29 ∷ 30 ∷ 31 ∷ 32 ∷ 33 ∷ 34 ∷ 35 ∷ 36 ∷ 37 ∷ 38 ∷ 39 ∷ 40 ∷ 41 ∷ 42 ∷ 43 ∷ 44
    ∷ 45 ∷ 46 ∷ 47 ∷ 48 ∷ 49 ∷ 50 ∷ 51 ∷ 64 ∷ 64 ∷ 64 ∷ 64 ∷ 64 ∷ []

-- `b64_table[ i & 0x3f ]`.
unfoldable pub char_of : ℕ → ℕ
char_of i = get_or table (i % 64) 0

-- `( accumulator << 8 ) | ( byte & 0xff )`, in which no bits meet.
unfoldable pub push_byte : (accumulator byte : ℕ) → ℕ
push_byte accumulator byte = accumulator * 256 % int_mod + byte % 256

-- `while ( bits_collected >= 6 )`: the characters, and the bits that are left. A round takes six
-- bits away, so as many rounds as there are bits are enough.
unfoldable pub emit : (fuel accumulator bits_collected : ℕ) → List ℕ × ℕ
emit zero accumulator bits_collected = ([], bits_collected)
emit (suc f) accumulator bits_collected =
    let (out, left) = emit f accumulator (bits_collected - 6) in
    if leb 6 bits_collected
    then (char_of (accumulator / 2 ^ (bits_collected - 6)) ∷ out, left)
    else ([], bits_collected)

-- The loop over the bytes, and what follows it.
unfoldable pub encode_loop : List ℕ → (accumulator bits_collected : ℕ) → List ℕ
encode_loop [] accumulator bits_collected =
    if ltb 0 bits_collected
    then char_of (accumulator * 2 ^ (6 - bits_collected) % int_mod) ∷ []
    else []
encode_loop (x ∷ xs) accumulator bits_collected =
    let accumulator' = push_byte accumulator x in
    let (out, left) = emit (bits_collected + 8) accumulator' (bits_collected + 8) in
    out ++ encode_loop xs accumulator' left

-- The string that is filled with `=` first, after the characters are written from its start on.
unfoldable pub base64_encode : List ℕ → List ℕ
base64_encode bytes =
    if ltb 1024968 (length bytes)
    then []
    else (let out = encode_loop bytes 0 0 in
        out ++ replicate ((length bytes + 2) / 3 * 4 - length out) 61)

-- `isspace( c ) || c == '='`, in the C locale.
unfoldable pub is_skipped : ℕ → Bool
is_skipped c = (c == 32) || (leb 9 c && leb c 13) || (c == 61)

-- `( accumulator << 6 ) | value`, for a value of at most 64, whose one bit the shifted accumulator
-- may have already.
unfoldable pub push_value : (accumulator value : ℕ) → ℕ
push_value accumulator value =
    if ltb value 64
    then accumulator * 64 % int_mod + value
    else if accumulator % 2 == 1
    then accumulator * 64 % int_mod
    else accumulator * 64 % int_mod + value

unfoldable pub decode_loop : List ℕ → (accumulator bits_collected : ℕ) → Option (List ℕ)
decode_loop [] accumulator bits_collected = some []
decode_loop (c ∷ cs) accumulator bits_collected = elim (is_skipped c) [
  | true ↦ decode_loop cs accumulator bits_collected
  | false ↦ elim (get_elem? table_r c) [
    | none ↦ none
    | some value ↦
        let accumulator' = push_value accumulator value in
        elim (leb 8 (bits_collected + 6)) [
          | true ↦ elim (decode_loop cs accumulator' (bits_collected - 2)) [
            | none ↦ none
            | some bytes ↦ some (accumulator' / 2 ^ (bits_collected - 2) % 256 ∷ bytes)
          ]
          | false ↦ decode_loop cs accumulator' (bits_collected + 6)
        ]
  ]
]

unfoldable pub base64_decode : List ℕ → Option (List ℕ)
base64_decode src = decode_loop src 0 0
