-- ===== src/Base64/Tests.antt =====
-- Base64 at concrete inputs.
use deprecated_tcode.Common.{ℕ, ◌≡◌, refl, List, [], ◌∷◌, arith, some}
use deprecated_tcode.Base64.{base64_encode, base64_decode, encode_loop, emit, push_byte, char_of}
use deprecated_tcode.Base64.Decode.{decode-encode}

-- The text `tcod`, which becomes `dGNvZA==`.
abbrev text : List ℕ
text = 116 ∷ 99 ∷ 111 ∷ 100 ∷ []

encoded : base64_encode text ≡ 100 ∷ 71 ∷ 78 ∷ 118 ∷ 90 ∷ 65 ∷ 61 ∷ 61 ∷ []
unfolding base64_encode encode_loop emit push_byte char_of
encoded = refl

decode-encode_example : base64_decode (base64_encode text) ≡ some text
decode-encode_example =
    decode-encode text (omega arith, (omega arith, (omega arith, (omega arith, tt)))) (omega arith)
