-- ===== src/Log/Dump.antt =====
-- What the dumps of src/log/logger.cpp and src/string.cpp show: the bytes can be read from them.
use deprecated_tcode.Common.{
  ℕ, suc, ◌+◌, ◌-◌, ◌*◌, ◌/◌, ◌%◌, ◌<◌, ◌≤◌, ◌≡◌, refl, sym, ap, ap₂, ◌∙◌, Bool, true, false, ◌==◌,
  ◌&&◌, ◌||◌, not, ltb, ==_iff, List, [], ◌∷◌, ◌++◌, if◌then◌else◌, arith, length, length-append,
  get_or, All, append_assoc, append-nil,
}
use deprecated_tcode.Common.Maps.{all_below, all_below_lem}
use deprecated_tcode.Log.{
  hex, hex_of, raw_to_hex_string, separator, dump_loop, write_dump, length-separator, length-hex_of,
}

-- The value of a hexadecimal digit, and the bytes that pairs of digits stand for.
abbrev pub digit_value : ℕ → ℕ
digit_value c = if ltb c 58 then c - 48 else c - 55

abbrev pub unhex : List ℕ → List ℕ
unhex [] = []
unhex (a ∷ []) = []
unhex (a ∷ b ∷ cs) = (digit_value a * 16 + digit_value b) ∷ unhex cs

abbrev pub is_blank : ℕ → Bool
is_blank c = (c == 10) || (c == 32)

-- The text without its spaces and line ends.
abbrev pub strip : List ℕ → List ℕ
strip [] = []
strip (c ∷ cs) = let rest = strip cs in if is_blank c then rest else c ∷ rest

abbrev pub IsByte : ℕ → Type 0
IsByte b = b < 256

-- What holds of the two digits of a byte.
digits_right : ℕ → Bool
digits_right b =
    let x = get_or hex (b / 16) 0 in
    let y = get_or hex (b % 16) 0 in
    (digit_value x * 16 + digit_value y == b) && not (is_blank x) && not (is_blank y)

digits_checked : all_below digits_right 256 ≡ true
unfolding all_below digits_right
digits_checked = refl

record Digits (b : ℕ) : Type 0 where
  value : digit_value (get_or hex (b / 16) 0) * 16 + digit_value (get_or hex (b % 16) 0) ≡ b
  first : is_blank (get_or hex (b / 16) 0) ≡ false
  second : is_blank (get_or hex (b % 16) 0) ≡ false

split_test : (p q r : Bool) → (p && not q && not r) ≡ true → (p ≡ true) × (q ≡ false) × (r ≡ false)
split_test true false false e = (refl, refl, refl)
split_test true true r e = absurd (ground (arith, e))
split_test true false true e = absurd (ground (arith, e))
split_test false q r e = absurd (ground (arith, e))

digits_lem : (b : ℕ) → IsByte b → Digits b
unfolding digits_right
digits_lem b h =
    let e = all_below_lem digits_right 256 b digits_checked h in
    let x = get_or hex (b / 16) 0 in
    let y = get_or hex (b % 16) 0 in
    let (v, f, s) =
      split_test (digit_value x * 16 + digit_value y == b) (is_blank x) (is_blank y) e in
    record { value = (==_iff (digit_value x * 16 + digit_value y) b).0 v; first = f; second = s }

-- Reading the digits of `raw_to_hex_string` gives the bytes back.
pub unhex-raw_to_hex_string : (bs : List ℕ) → All IsByte bs → unhex (raw_to_hex_string bs) ≡ bs
unfolding raw_to_hex_string hex_of
unhex-raw_to_hex_string [] h = refl
unhex-raw_to_hex_string (b ∷ bs) h =
    ap₂ (λ v vs. v ∷ vs) (digits_lem b h.0).value (unhex-raw_to_hex_string bs h.1)

strip-append : (xs ys : List ℕ) → strip (xs ++ ys) ≡ strip xs ++ strip ys
strip-append [] ys = refl
strip-append (x ∷ xs) ys = ground (arith, strip-append xs ys)

strip-separator : (i : ℕ) → strip (separator i) ≡ []
unfolding separator
strip-separator i = ground arith

strip-hex_of : (b : ℕ) → IsByte b → strip (hex_of b) ≡ hex_of b
unfolding hex_of
strip-hex_of b h = let d = digits_lem b h in rw (d.first, d.second) refl

-- One byte of the dump.
strip-message :
    (message : List ℕ) (b i : ℕ)
    → IsByte b
    → strip (message ++ hex_of b ++ separator i) ≡ strip message ++ hex_of b
strip-message message b i h =
    strip-append (message ++ hex_of b) (separator i)
    ∙ ap₂ (λ x y. x ++ y)
        (strip-append message (hex_of b) ∙ ap (λ x. strip message ++ x) (strip-hex_of b h))
        (strip-separator i)
    ∙ append-nil (strip message ++ hex_of b)

dump_loop-next :
    (i b : ℕ) (bs message : List ℕ)
    → length (message ++ hex_of b ++ separator i) ≤ 2040
    → dump_loop i (b ∷ bs) message ≡ dump_loop (suc i) bs (message ++ hex_of b ++ separator i)
unfolding dump_loop
dump_loop-next i b bs message h = ground (arith, h)

length-line :
    (message : List ℕ) (b i : ℕ) → length (message ++ hex_of b ++ separator i) ≤ length message + 5
length-line message b i = omega (
  arith,
  length-append (message ++ hex_of b) (separator i),
  length-append message (hex_of b),
  length-hex_of b,
  length-separator i,
)

strip-dump_loop :
    (i : ℕ) (bs message : List ℕ)
    → All IsByte bs
    → length message + 5 * length bs ≤ 2040
    → strip (dump_loop i bs message) ≡ strip message ++ raw_to_hex_string bs
unfolding dump_loop raw_to_hex_string
strip-dump_loop i [] message h l = sym (append-nil (strip message))
strip-dump_loop i (b ∷ bs) message h l =
    let m = message ++ hex_of b ++ separator i in
    let size = length-line message b i in
    ap strip (dump_loop-next i b bs message (omega (arith, size, l)))
    ∙ strip-dump_loop (suc i) bs m h.1 (omega (arith, size, l))
    ∙ ap (λ x. x ++ raw_to_hex_string bs) (strip-message message b i h.0)
    ∙ append_assoc (strip message) (hex_of b) (raw_to_hex_string bs)

-- The dump of up to 407 bytes, without its spaces and line ends, is the digits of all of them in
-- order, from which the bytes can be read.
pub write_dump_complete :
    (buffer : List ℕ)
    → All IsByte buffer
    → length buffer ≤ 407
    → (strip (write_dump buffer) ≡ raw_to_hex_string buffer)
      × (unhex (strip (write_dump buffer)) ≡ buffer)
unfolding write_dump
write_dump_complete buffer h l =
    let loop = dump_loop 0 buffer (10 ∷ []) in
    let digits =
      strip-append loop (10 ∷ [])
      ∙ append-nil (strip loop)
      ∙ strip-dump_loop 0 buffer (10 ∷ []) h (omega (arith, l)) in
    (digits, ap unhex digits ∙ unhex-raw_to_hex_string buffer h)
