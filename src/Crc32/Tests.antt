-- ===== src/Crc32/Tests.antt =====
-- The checksum of `123456789`, in two blocks.
use deprecated_tcode.Common.{ℕ, ◌≡◌, refl, List, [], ◌∷◌, arith}
use deprecated_tcode.Crc32.{start, update, update_byte, value}
use deprecated_tcode.Crc32.Bitwise.{reference, update-update}

abbrev front : List ℕ
front = 0x31 ∷ 0x32 ∷ 0x33 ∷ 0x34 ∷ []

abbrev back : List ℕ
back = 0x35 ∷ 0x36 ∷ 0x37 ∷ 0x38 ∷ 0x39 ∷ []

check_value : value (update (update start front) back) ≡ 0xcbf43926
unfolding value update update_byte
check_value = refl

update-update_example :
    update (update start front) back
    ≡ reference start (0x31 ∷ 0x32 ∷ 0x33 ∷ 0x34 ∷ 0x35 ∷ 0x36 ∷ 0x37 ∷ 0x38 ∷ 0x39 ∷ [])
update-update_example =
    update-update start front back (omega arith, (omega arith, (omega arith, (omega arith, tt))))
      (omega arith, (omega arith, (omega arith, (omega arith, (omega arith, tt)))))
