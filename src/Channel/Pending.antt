-- ===== src/Channel/Pending.antt =====
-- The bytes that wait to be sent, and what `handle_write` does to them.
use deprecated_tcode.Common.{
  ℕ, zero, suc, ◌+◌, ◌-◌, ◌≤◌, ◌≡◌, ◌≢◌, refl, sym, ◌∙◌, ap, ap₂, true, List, [], ◌∷◌, ◌++◌, arith,
  ◌==◌, leb, if◌then◌else◌, length, length-append, length-drop, drop, min, All, Bool-cases, inl,
  inr,
}
use deprecated_tcode.Common.Int.{ℤ, pos, ltb_ℤ, ◌-ℤ◌}
use deprecated_tcode.Common.Memory.{bytes, length-bytes, bytes-zero}
use deprecated_tcode.Block.{Manager, Header}
use deprecated_tcode.ByteBuffer
use deprecated_tcode.ByteBuffer.{ByteBuffer}
use deprecated_tcode.ByteBuffer.Holds.{Holds, contents, length_lem}
use deprecated_tcode.ByteBuffer.Move.{rd_ptr-pos, moved, with_read}
use deprecated_tcode.Pipeline.{Event, on_write}
use deprecated_tcode.Channel.{
  Channel, consume, remaining, is_empty, is_open, handle_write, write_remains,
}

-- The readable bytes of all buffers, one after the other.
unfoldable pub pending : Manager → List ByteBuffer → List ℕ
pending m [] = []
pending m (b ∷ bs) = contents m b ++ pending m bs

abbrev pub IsHeld : Manager → ByteBuffer → Type 0
IsHeld m b = (h : Header) × Holds m b h

drop-append : (n : ℕ) (xs ys : List ℕ) → drop n (xs ++ ys) ≡ drop n xs ++ drop (n - length xs) ys
drop-append zero [] ys = refl
drop-append zero (x ∷ xs) ys = let e : zero - suc (length xs) ≡ zero = omega arith in rw e refl
drop-append (suc n) [] ys = let e : suc n - 0 ≡ suc n = omega arith in rw e refl
drop-append (suc n) (x ∷ xs) ys =
    let e : suc n - suc (length xs) ≡ n - length xs = omega arith in rw e (drop-append n xs ys)

drop-bytes :
    (n len lo : ℕ) (f : ℕ → ℕ)
    → drop n (bytes f lo len) ≡ bytes f (lo + min n len) (len - min n len)
unfolding bytes
drop-bytes zero len lo f =
    let a : lo + min zero len ≡ lo = omega arith in
    let b : len - min zero len ≡ len = omega arith in rw (a, b) refl
drop-bytes (suc n) zero lo f = let b : zero - min (suc n) zero ≡ zero = omega arith in rw b refl
drop-bytes (suc n) (suc len) lo f =
    let a : lo + min (suc n) (suc len) ≡ lo + 1 + min n len = omega arith in
    let b : suc len - min (suc n) (suc len) ≡ len - min n len = omega arith in
    rw (a, b) (drop-bytes n len (lo + 1) f)

not_nil : (xs : List ℕ) → xs ≢ [] → length xs ≢ 0
not_nil [] some = absurd (some refl)
not_nil (x ∷ xs) some = omega arith

int_sub : (n k : ℕ) → k ≤ n → pos n -ℤ pos k ≡ pos (n - k)
unfolding ◌-ℤ◌
int_sub n k h =
    let a : n + 0 ≡ n = omega arith in let b : 0 + k ≡ k = omega arith in ground (arith, a, b)

consume_nil : (n : ℤ) → consume n [] ≡ []
unfolding consume
consume_nil n = refl

module _ (m : Manager) where
  -- `rd_ptr` of `n` bytes drops them from what can be read.
  contents-with_read :
      (b : ByteBuffer) (n : ℕ)
      → contents m (with_read b (b.pos.read + min n (b.pos.write - b.pos.read)))
        ≡ drop n (contents m b)
  contents-with_read b n =
      let l = b.pos.write - b.pos.read in
      let e : b.pos.write - (b.pos.read + min n l) ≡ l - min n l = omega arith in
      rw e (sym (drop-bytes n l b.pos.read (m.memory b.block)))

  consume_zero : (bs : List ByteBuffer) → consume (pos 0) bs ≡ bs
  unfolding consume
  consume_zero [] = refl
  consume_zero (b ∷ bs) = refl

  consume-suc :
      (n : ℕ) (b : ByteBuffer) (bs : List ByteBuffer) (h : Header)
      → Holds m b h
      → consume (pos (suc n)) (b ∷ bs)
        ≡ with_read b (b.pos.read + min (suc n) (b.pos.write - b.pos.read))
          ∷ consume (pos (suc n - (b.pos.write - b.pos.read))) bs
  unfolding consume
  consume-suc n b bs h w =
      let l = b.pos.write - b.pos.read in
      let left : pos (suc n) -ℤ pos (min (suc n) l) ≡ pos (suc n - l) =
        int_sub (suc n) (min (suc n) l) (omega arith) ∙ ap pos (omega arith) in
      let some_left : ltb_ℤ (pos 0) (pos (suc n)) ≡ true = ground arith in
      rw (rd_ptr-pos w (suc n), left, some_left) refl

  -- Sending `n` bytes takes them from the front of all that waits.
  consume-Pending :
      (n : ℕ) (bs : List ByteBuffer)
      → All (IsHeld m) bs
      → (pending m (consume (pos n) bs) ≡ drop n (pending m bs))
        × All (IsHeld m) (consume (pos n) bs)
  unfolding pending
  consume-Pending zero bs held = rw (consume_zero bs) (refl, held)
  consume-Pending (suc n) [] held = rw (consume_nil (pos (suc n))) (refl, tt)
  consume-Pending (suc n) (b ∷ bs) ((h, w), held) =
      let l = b.pos.write - b.pos.read in
      let (rest, held') = consume-Pending (suc n - l) bs held in
      let count : length (contents m b) ≡ l = length-bytes _ _ _ in
      let split = drop-append (suc n) (contents m b) (pending m bs) in
      rw (consume-suc n b bs h w) (
        ap₂ (λ c ps. c ++ ps) (contents-with_read b (suc n))
              (rest ∙ ap (λ k. drop (suc n - k) (pending m bs)) (sym count))
            ∙ sym split,
        ((h, moved w _ (omega (arith, w.ordered))), held'),
      )

  remaining_nil : remaining [] ≡ []
  unfolding remaining
  remaining_nil = refl

  remaining-cons :
      (b : ByteBuffer) (bs : List ByteBuffer)
      → remaining (b ∷ bs) ≡ (if ByteBuffer.length b == 0 then remaining bs else b ∷ remaining bs)
  unfolding remaining
  remaining-cons b bs = refl

  abbrev pub HasBytes : ByteBuffer → Type 0
  HasBytes b = contents m b ≢ []

  remaining-Pending :
      (bs : List ByteBuffer)
      → All (IsHeld m) bs
      → (pending m (remaining bs) ≡ pending m bs)
        × All (IsHeld m) (remaining bs)
        × All HasBytes (remaining bs)
  unfolding pending
  remaining-Pending [] held = rw remaining_nil (refl, tt, tt)
  remaining-Pending (b ∷ bs) ((h, w), held) =
      let (same, held', full) = remaining-Pending bs held in
      elim (Bool-cases (ByteBuffer.length b == 0)) [
        | inl gone ↦
            let zero_len : b.pos.write - b.pos.read ≡ 0 = ground (arith, gone, length_lem w) in
            let none_left : contents m b ≡ [] =
              ap (bytes (m.memory b.block) b.pos.read) zero_len ∙ bytes-zero _ _ in
            rw (remaining-cons b bs, gone)
              (same ∙ sym (ap (λ c. c ++ pending m bs) none_left), held', full)
        | inr stays ↦
            let count : length (contents m b) ≡ b.pos.write - b.pos.read = length-bytes _ _ _ in
            rw (remaining-cons b bs, stays)
              (
                ap (λ ps. contents m b ++ ps) same,
                ((h, w), held'),
                ((λ e. ground (arith, stays, length_lem w, count, ap length e)), full),
              )
      ]

  -- Only a list without bytes is empty.
  is_empty-Pending :
      (bs : List ByteBuffer) → All HasBytes bs → is_empty bs ≡ leb (length (pending m bs)) 0
  unfolding pending
  is_empty-Pending [] full = ground arith
  is_empty-Pending (b ∷ bs) (some_bytes, full) =
      let count = length-append (contents m b) (pending m bs) in
      ground (arith, count, not_nil (contents m b) some_bytes)

  -- `handle_write` after the socket sent `n` bytes of an open channel, whose buffers hold their
  -- blocks: from what waits exactly the first `n` bytes go, no buffer without bytes is kept, and the
  -- filters are told a flush just when nothing is left; if something is, the channel writes on.
  pub handle_write_lem :
      (fire : Event → Channel → Channel) (n : ℕ) (c : Channel)
      → is_open c ≡ true
      → All (IsHeld m) c.write_buffers
      → (left : List ByteBuffer) × (pending m left ≡ drop n (pending m c.write_buffers))
        × All (IsHeld m) left
        × All HasBytes left
        × (let flush = leb (length (pending m c.write_buffers)) n in
            let told = fire (on_write (pos n) flush) (record c { write_buffers = left }) in
            handle_write fire 0 (pos n) c ≡ (if flush then told else write_remains told))
  unfolding handle_write
  handle_write_lem fire n c open_now held =
      let (sent, held') = consume-Pending n c.write_buffers held in
      let (same, held'', full) = remaining-Pending (consume (pos n) c.write_buffers) held' in
      let left = remaining (consume (pos n) c.write_buffers) in
      let flush : is_empty left ≡ leb (length (pending m c.write_buffers)) n =
        let count = ap length (same ∙ sent) ∙ length-drop n (pending m c.write_buffers) in
        ground (arith, is_empty-Pending left full, count) in
      (left, same ∙ sent, held'', full, rw (open_now, flush) refl)
