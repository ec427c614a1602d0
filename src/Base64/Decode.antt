-- ===== src/Base64/Decode.antt =====
-- The decoder takes back what the encoder writes.
use deprecated_tcode.Common.{
  ℕ, zero, suc, ◌+◌, ◌-◌, ◌*◌, ◌/◌, ◌%◌, ◌<◌, ◌≤◌, ◌≡◌, refl, ◌∙◌, ap, Bool, true, false, ◌&&◌, not,
  List, [], ◌∷◌, ◌++◌, arith, ltb, ◌==◌, Option, none, some, get_elem?, replicate, length,
  length-append, length-replicate, All,
}
use deprecated_tcode.Base64.{
  char_of, table_r, is_skipped, push_value, decode_loop, encode_loop, base64_encode, base64_decode,
}
use deprecated_tcode.Base64.Groups.{sextets, encode_three, encode_one, encode_two}

-- Whether the table takes back the character of a value.
is_some_of : ℕ → Option ℕ → Bool
is_some_of v none = false
is_some_of v (some w) = w == v

takes_back : ℕ → Bool
unfolding is_some_of is_skipped char_of
takes_back v = not (is_skipped (char_of v)) && is_some_of v (get_elem? table_r (char_of v))

all_below : (ℕ → Bool) → ℕ → Bool
all_below p zero = true
all_below p (suc n) = p n && all_below p n

all_below_lem : (p : ℕ → Bool) (n v : ℕ) → all_below p n ≡ true → v < n → p v ≡ true
unfolding all_below
all_below_lem p zero v e h = absurd (omega (arith, h))
all_below_lem p (suc n) v e h = ground (arith, e, all_below_lem p n v)

table_checked : all_below takes_back 64 ≡ true
unfolding all_below takes_back
table_checked = refl

is_some_of_lem : (v : ℕ) (o : Option ℕ) → is_some_of v o ≡ true → o ≡ some v
unfolding is_some_of
is_some_of_lem v none e = absurd (ground (arith, e))
is_some_of_lem v (some w) e = ap some (ground (arith, e))

char_lem :
    (v : ℕ) → v < 64 → (is_skipped (char_of v) ≡ false) × (get_elem? table_r (char_of v) ≡ some v)
unfolding takes_back
char_lem v h =
    let e = all_below_lem takes_back 64 v table_checked h in
    (ground (arith, e), is_some_of_lem v _ (ground (arith, e)))

abbrev prepend : ℕ → Option (List ℕ) → Option (List ℕ)
prepend x o = elim o [ none ↦ none | some bytes ↦ some (x ∷ bytes) ]

-- One character, by the number of bits that are collected before it.
module _ (v : ℕ) (h : v < 64) (cs : List ℕ) (acc : ℕ) where
  at_0 : decode_loop (char_of v ∷ cs) acc 0 ≡ decode_loop cs (push_value acc v) 6
  unfolding decode_loop
  at_0 = let (kept, value) = char_lem v h in rw (decode_loop, kept, value) refl

  at_6 :
      decode_loop (char_of v ∷ cs) acc 6
      ≡ prepend (push_value acc v / 16 % 256) (decode_loop cs (push_value acc v) 4)
  unfolding decode_loop
  at_6 = let (kept, value) = char_lem v h in rw (decode_loop, kept, value) refl

  at_4 :
      decode_loop (char_of v ∷ cs) acc 4
      ≡ prepend (push_value acc v / 4 % 256) (decode_loop cs (push_value acc v) 2)
  unfolding decode_loop
  at_4 = let (kept, value) = char_lem v h in rw (decode_loop, kept, value) refl

  at_2 :
      decode_loop (char_of v ∷ cs) acc 2
      ≡ prepend (push_value acc v / 1 % 256) (decode_loop cs (push_value acc v) 0)
  unfolding decode_loop
  at_2 = let (kept, value) = char_lem v h in rw (decode_loop, kept, value) refl

-- The low bits of the accumulator.
push_value-mod :
    (acc v : ℕ)
    → v < 64
    → (push_value acc v % 64 ≡ v)
      × (push_value acc v / 16 % 256 ≡ acc % 64 * 4 + v / 16)
      × (push_value acc v / 4 % 256 ≡ acc % 64 % 16 * 16 + v / 4)
      × (push_value acc v / 1 % 256 ≡ acc % 64 % 4 * 64 + v)
unfolding push_value
push_value-mod acc v h =
    (ground (arith, h), ground (arith, h), ground (arith, h), ground (arith, h))

prepend_lem :
    (x a : ℕ) (o : Option (List ℕ)) (bytes : List ℕ)
    → x ≡ a
    → o ≡ some bytes
    → prepend x o ≡ some (a ∷ bytes)
prepend_lem x a o bytes e run = rw run (ap (λ z. some (z ∷ bytes)) e)

-- The padding decodes to nothing.
padding : (n acc bits : ℕ) → decode_loop (replicate n 61) acc bits ≡ some []
unfolding decode_loop is_skipped
padding zero acc bits = refl
padding (suc n) acc bits = padding n acc bits

-- The first two characters of a group give its first byte.
decode_first :
    (a v : ℕ) (cs : List ℕ) (acc : ℕ) (bytes : List ℕ)
    → a < 256
    → v < 64
    → v / 16 ≡ a % 4
    → ((acc' : ℕ) → acc' % 64 ≡ v → decode_loop cs acc' 4 ≡ some bytes)
    → decode_loop (char_of (a / 4) ∷ char_of v ∷ cs) acc 0 ≡ some (a ∷ bytes)
decode_first a v cs acc bytes ha hv top rest =
    let acc₁ = push_value acc (a / 4) in
    let low₁ = (push_value-mod acc (a / 4) (omega (arith, ha))).0 in
    let low₂ = push_value-mod acc₁ v hv in
    at_0 (a / 4) (omega (arith, ha)) (char_of v ∷ cs) acc
    ∙ at_6 v hv cs acc₁
    ∙ prepend_lem _ a _ bytes (low₂.1 ∙ omega (arith, low₁, top)) (rest _ low₂.0)

-- The third one gives the second byte, and the fourth one the third byte.
decode_second :
    (b u v : ℕ) (cs : List ℕ) (acc : ℕ) (bytes : List ℕ)
    → v < 64
    → acc % 64 ≡ u
    → u % 16 * 16 + v / 4 ≡ b
    → ((acc' : ℕ) → acc' % 64 ≡ v → decode_loop cs acc' 2 ≡ some bytes)
    → decode_loop (char_of v ∷ cs) acc 4 ≡ some (b ∷ bytes)
decode_second b u v cs acc bytes hv low sum rest =
    let low' = push_value-mod acc v hv in
    at_4 v hv cs acc ∙ prepend_lem _ b _ bytes (low'.2 ∙ omega (arith, low, sum)) (rest _ low'.0)

decode_third :
    (c u v : ℕ) (cs : List ℕ) (acc : ℕ) (bytes : List ℕ)
    → v < 64
    → acc % 64 ≡ u
    → u % 4 * 64 + v ≡ c
    → ((acc' : ℕ) → decode_loop cs acc' 0 ≡ some bytes)
    → decode_loop (char_of v ∷ cs) acc 2 ≡ some (c ∷ bytes)
decode_third c u v cs acc bytes hv low sum rest =
    let low' = push_value-mod acc v hv in
    at_2 v hv cs acc ∙ prepend_lem _ c _ bytes (low'.3 ∙ omega (arith, low, sum)) (rest _)

abbrev pub IsByte : ℕ → Type 0
IsByte x = x < 256

decode_three :
    (a b c : ℕ) (cs bytes : List ℕ) (acc : ℕ)
    → a < 256
    → b < 256
    → c < 256
    → ((acc' : ℕ) → decode_loop cs acc' 0 ≡ some bytes)
    → decode_loop (sextets a b c ++ cs) acc 0 ≡ some (a ∷ b ∷ c ∷ bytes)
decode_three a b c cs bytes acc ha hb hc rest =
    decode_first a (a % 4 * 16 + b / 16) _ acc _ ha (omega (arith, hb)) (omega (arith, hb))
      (λ acc₁ low₁.
        decode_second b (a % 4 * 16 + b / 16) (b % 16 * 4 + c / 64) _ acc₁ _ (omega (arith, hc))
          low₁ (omega (arith, hb, hc))
          (λ acc₂ low₂.
            decode_third c (b % 16 * 4 + c / 64) (c % 64) cs acc₂ bytes (omega arith) low₂
              (omega (arith, hc)) rest))

encode_nil : (acc : ℕ) → encode_loop [] acc 0 ≡ []
unfolding encode_loop
encode_nil acc = refl

decode-encode_loop :
    (xs : List ℕ) (n acc acc' : ℕ)
    → All IsByte xs
    → decode_loop (encode_loop xs acc 0 ++ replicate n 61) acc' 0 ≡ some xs
decode-encode_loop [] n acc acc' h = rw (encode_nil acc) (padding n acc' 0)
decode-encode_loop (a ∷ []) n acc acc' (ha, h) = rw (encode_one a acc ha) (
    decode_first a (a % 4 * 16) (replicate n 61) acc' [] ha (omega arith) (omega arith)
      (λ acc₁ low. padding n acc₁ 4))
decode-encode_loop (a ∷ b ∷ []) n acc acc' (ha, (hb, h)) = rw (encode_two a b acc ha hb) (
    decode_first a (a % 4 * 16 + b / 16) _ acc' _ ha (omega (arith, hb)) (omega (arith, hb))
      (λ acc₁ low.
        decode_second b (a % 4 * 16 + b / 16) (b % 16 * 4) (replicate n 61) acc₁ [] (omega arith)
          low (omega (arith, hb)) (λ acc₂ _. padding n acc₂ 2)))
decode-encode_loop (a ∷ b ∷ c ∷ xs) n acc acc' (ha, (hb, (hc, h))) =
    let (acc₃, run) = encode_three a b c xs acc ha hb hc in
    rw run (
      decode_three a b c (encode_loop xs acc₃ 0 ++ replicate n 61) xs acc' ha hb hc
        (λ acc₄. decode-encode_loop xs n acc₃ acc₄ h))

-- Decoding what was encoded gives the bytes back, up to the length that the encoder takes.
pub decode-encode :
    (bytes : List ℕ)
    → All IsByte bytes
    → length bytes ≤ 1024968
    → base64_decode (base64_encode bytes) ≡ some bytes
unfolding base64_decode base64_encode
decode-encode bytes h small =
    let fits : ltb 1024968 (length bytes) ≡ false = ground (arith, small) in
    rw fits (decode-encode_loop bytes _ 0 0 h)

length-encode_loop :
    (xs : List ℕ) (acc : ℕ)
    → All IsByte xs
    → length (encode_loop xs acc 0) ≤ (length xs + 2) / 3 * 4
length-encode_loop [] acc h = rw (encode_nil acc) (omega arith)
length-encode_loop (a ∷ []) acc (ha, h) = rw (encode_one a acc ha) (omega arith)
length-encode_loop (a ∷ b ∷ []) acc (ha, (hb, h)) = rw (encode_two a b acc ha hb) (omega arith)
length-encode_loop (a ∷ b ∷ c ∷ xs) acc (ha, (hb, (hc, h))) =
    let (acc₃, run) = encode_three a b c xs acc ha hb hc in
    rw run (omega (arith, length-encode_loop xs acc₃ h))

-- The encoder writes within the string that it made: it has four characters for each three bytes,
-- the last ones of which may be padding.
pub length-encode :
    (bytes : List ℕ)
    → All IsByte bytes
    → length bytes ≤ 1024968
    → (length (encode_loop bytes 0 0) ≤ (length bytes + 2) / 3 * 4)
      × (length (base64_encode bytes) ≡ (length bytes + 2) / 3 * 4)
unfolding base64_encode
length-encode bytes h small =
    let fits : ltb 1024968 (length bytes) ≡ false = ground (arith, small) in
    let within = length-encode_loop bytes 0 h in
    let n = (length bytes + 2) / 3 * 4 - length (encode_loop bytes 0 0) in
    let whole = length-append (encode_loop bytes 0 0) (replicate n 61) in
    (within, rw fits (omega (arith, whole, length-replicate {A = ℕ} n 61, within)))
