-- ===== src/Base64/Groups.antt =====
-- What the encoder writes for three bytes, and for the last one or two.
use deprecated_tcode.Common.{
  ℕ, ◌+◌, ◌*◌, ◌/◌, ◌%◌, ◌^◌, ◌<◌, ◌≡◌, refl, ap, List, [], ◌∷◌, ◌++◌, arith,
}
use deprecated_tcode.Common.Words.{int_mod}
use deprecated_tcode.Base64.{char_of, push_byte, emit, encode_loop}

-- Six bits at a time of three bytes.
abbrev pub sextets : (a b c : ℕ) → List ℕ
sextets a b c =
    char_of (a / 4)
    ∷ char_of (a % 4 * 16 + b / 16)
    ∷ char_of (b % 16 * 4 + c / 64)
    ∷ char_of (c % 64)
    ∷ []

char-mod : (i j : ℕ) → i % 64 ≡ j % 64 → char_of i ≡ char_of j
unfolding char_of
char-mod i j e = rw e refl

-- The accumulator after a byte, by its low bits, whatever it held before.
push_byte-mod :
    (acc a : ℕ) → a < 256 → (push_byte acc a % 4 ≡ a % 4) × (push_byte acc a % 16 ≡ a % 16)
unfolding push_byte
push_byte-mod acc a h = (omega (arith, h), omega (arith, h))

first_byte : (acc a : ℕ) → a < 256 → emit 8 (push_byte acc a) 8 ≡ (char_of (a / 4) ∷ [], 2)
unfolding emit push_byte
first_byte acc a h =
    let e : (acc * 256 % int_mod + a % 256) / 4 % 64 ≡ a / 4 % 64 = omega (arith, h) in
    λ i. (char-mod _ (a / 4) e i ∷ [], 2)

second_byte :
    (acc b : ℕ) → b < 256 → emit 10 (push_byte acc b) 10 ≡ (char_of (acc % 4 * 16 + b / 16) ∷ [], 4)
unfolding emit push_byte
second_byte acc b h =
    let e : (acc * 256 % int_mod + b % 256) / 16 % 64 ≡ (acc % 4 * 16 + b / 16) % 64 =
      omega (arith, h) in
    λ i. (char-mod _ (acc % 4 * 16 + b / 16) e i ∷ [], 4)

third_byte :
    (acc c : ℕ)
    → c < 256
    → emit 12 (push_byte acc c) 12 ≡ (char_of (acc % 16 * 4 + c / 64) ∷ char_of (c % 64) ∷ [], 0)
unfolding emit push_byte
third_byte acc c h =
    let e : (acc * 256 % int_mod + c % 256) / 64 % 64 ≡ (acc % 16 * 4 + c / 64) % 64 =
      omega (arith, h) in
    let d : (acc * 256 % int_mod + c % 256) / 1 % 64 ≡ c % 64 % 64 = omega (arith, h) in
    λ i. (char-mod _ (acc % 16 * 4 + c / 64) e i ∷ char-mod _ (c % 64) d i ∷ [], 0)

-- Three bytes become their sextets, and the loop goes on as from the start.
pub encode_three :
    (a b c : ℕ) (rest : List ℕ) (acc : ℕ)
    → a < 256
    → b < 256
    → c < 256
    → (acc' : ℕ) × (encode_loop (a ∷ b ∷ c ∷ rest) acc 0 ≡ sextets a b c ++ encode_loop rest acc' 0)
unfolding encode_loop
encode_three a b c rest acc ha hb hc =
    let acc₁ = push_byte acc a in
    let acc₂ = push_byte acc₁ b in
    let low₁ = (push_byte-mod acc a ha).0 in
    let low₂ = (push_byte-mod acc₁ b hb).1 in
    (
      push_byte acc₂ c,
      rw (first_byte acc a ha, second_byte acc₁ b hb, third_byte acc₂ c hc, low₁, low₂) refl,
    )

pub encode_one :
    (a acc : ℕ) → a < 256 → encode_loop (a ∷ []) acc 0 ≡ char_of (a / 4) ∷ char_of (a % 4 * 16) ∷ []
unfolding encode_loop
encode_one a acc ha =
    let low = (push_byte-mod acc a ha).0 in
    let e : push_byte acc a * 2 ^ 4 % int_mod % 64 ≡ a % 4 * 16 % 64 = omega (arith, low) in
    rw (first_byte acc a ha) (ap (λ c. char_of (a / 4) ∷ c ∷ []) (char-mod _ (a % 4 * 16) e))

pub encode_two :
    (a b acc : ℕ)
    → a < 256
    → b < 256
    → encode_loop (a ∷ b ∷ []) acc 0
      ≡ char_of (a / 4) ∷ char_of (a % 4 * 16 + b / 16) ∷ char_of (b % 16 * 4) ∷ []
unfolding encode_loop
encode_two a b acc ha hb =
    let acc₁ = push_byte acc a in
    let low₁ = (push_byte-mod acc a ha).0 in
    let low₂ = (push_byte-mod acc₁ b hb).1 in
    let e : push_byte acc₁ b * 2 ^ 2 % int_mod % 64 ≡ b % 16 * 4 % 64 = omega (arith, low₂) in
    rw (first_byte acc a ha, second_byte acc₁ b hb, low₁)
      (ap (λ c. char_of (a / 4) ∷ char_of (a % 4 * 16 + b / 16) ∷ c ∷ [])
        (char-mod _ (b % 16 * 4) e))
