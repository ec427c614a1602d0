-- ===== src/Channel/Flag.antt =====
-- The flag word of the channel: closing happens once, and the channel ends after it.
use deprecated_tcode.Common.{
  ℕ, ◌+◌, ◌-◌, ◌*◌, ◌%◌, ◌<◌, ◌≡◌, refl, sym, ◌∙◌, ap, Bool, true, false, [], ◌∷◌, ◌++◌, arith,
  ◌==◌, if◌then◌else◌, append-nil,
}
use deprecated_tcode.Common.Words.{int_mod}
use deprecated_tcode.Channel.{
  Channel, closes, ends, error_flag, close_flag, contains, reset_bit, is_open, close, release,
}

abbrev pub bit : Bool → ℕ
bit true = 1
bit false = 0

-- The word: whether no error and no close came yet, and the count of references, below the bits.
abbrev pub word : (no_error no_close : Bool) → (count : ℕ) → ℕ
word no_error no_close count = bit no_error * error_flag + bit no_close * close_flag + count

pub contains-word :
    (e k : Bool) (n : ℕ)
    → n < error_flag
    → (contains (word e k n) close_flag ≡ k) × (contains (word e k n) error_flag ≡ e)
unfolding contains
contains-word true true n h = (ground (arith, h), ground (arith, h))
contains-word true false n h = (ground (arith, h), ground (arith, h))
contains-word false true n h = (ground (arith, h), ground (arith, h))
contains-word false false n h = (ground (arith, h), ground (arith, h))

pub reset_close :
    (e k : Bool) (n : ℕ) → n < error_flag → reset_bit (word e k n) close_flag ≡ (k, word e false n)
unfolding reset_bit
reset_close e true n h = rw (contains-word e true n h).0 (λ i. (true, taken i))
  where
    taken : word e true n - close_flag ≡ word e false n
    taken = omega arith
reset_close e false n h = rw (contains-word e false n h).0 refl

pub reset_error :
    (e k : Bool) (n : ℕ) → n < error_flag → reset_bit (word e k n) error_flag ≡ (e, word false k n)
unfolding reset_bit
reset_error true k n h = rw (contains-word true k n h).1 (λ i. (true, taken i))
  where
    taken : word true k n - error_flag ≡ word false k n
    taken = omega arith
reset_error false k n h = rw (contains-word false k n h).1 refl

pub word_small : (e k : Bool) (n : ℕ) → n < error_flag → word e k n + 1 < int_mod
word_small true true n h = omega (arith, h)
word_small true false n h = omega (arith, h)
word_small false true n h = omega (arith, h)
word_small false false n h = omega (arith, h)

module _ (ec : ℕ) (c : Channel) (e : Bool) (n : ℕ) (h : n < error_flag) where
  pub close_open :
      c.flag ≡ word e true n
      → close ec c ≡ record c { flag = word e false n; queue = c.queue ++ closes ec ∷ [] }
  unfolding close
  close_open is =
      let r : reset_bit c.flag close_flag ≡ (true, word e false n) =
        ap (λ v. reset_bit v close_flag) is ∙ reset_close e true n h in
      rw r refl

  pub close_closed : c.flag ≡ word e false n → close ec c ≡ c
  unfolding close
  close_closed is =
      let r : reset_bit c.flag close_flag ≡ (false, word e false n) =
        ap (λ v. reset_bit v close_flag) is ∙ reset_close e false n h in
      rw r refl

  pub is_open-word : (k : Bool) → c.flag ≡ word e k n → is_open c ≡ k
  unfolding is_open
  is_open-word k is = ap (λ v. contains v close_flag) is ∙ (contains-word e k n h).0

-- Closing an open channel posts one closure with the error code, and closing it again, with any
-- code, does nothing; the mark of an error and the count stay. The count is below the bits.
pub close_once :
    (ec again : ℕ) (c : Channel) (e k : Bool) (n : ℕ)
    → c.flag ≡ word e k n
    → n < error_flag
    → ((close ec c).flag ≡ word e false n)
      × ((close ec c).queue ≡ c.queue ++ (if k then closes ec ∷ [] else []))
      × (is_open (close ec c) ≡ false)
      × (close again (close ec c) ≡ close ec c)
close_once ec again c e true n is h =
    let d = record c { flag = word e false n; queue = c.queue ++ closes ec ∷ [] } in
    rw (close_open ec c e n h is)
      (refl, refl, is_open-word ec d e n h false refl, close_closed again d e n h refl)
close_once ec again c e false n is h =
    rw (close_closed ec c e n h is) (
      is,
      sym (append-nil c.queue),
      is_open-word ec c e n h false is,
      close_closed again c e n h is,
    )

-- Giving back a reference ends the channel, by posting that, just when it is the last one and both
-- marks are gone; else it only counts.
pub release_ends :
    (c : Channel) (e k : Bool) (n : ℕ)
    → c.flag ≡ word e k (n + 1)
    → n + 1 < error_flag
    → ((release c).flag ≡ word e k n)
      × ((release c).queue ≡ c.queue ++ (if word e k n == 0 then ends ∷ [] else []))
unfolding release
release_ends c e k n is h =
    let f : (c.flag + int_mod - 1) % int_mod ≡ word e k n =
      omega (arith, is, word_small e k n (omega (arith, h))) in
    (ground (arith, f, append-nil c.queue), ground (arith, f, append-nil c.queue))
