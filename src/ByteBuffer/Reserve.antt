-- ===== src/ByteBuffer/Reserve.antt =====
-- `reserve` gives the buffer a block of its own that is large enough, and keeps its bytes.
use deprecated_tcode.Common.{
  ℕ, ◌+◌, ◌-◌, ◌≤◌, ◌<◌, ◌≡◌, ◌≢◌, refl, ◌∙◌, some, none, arith, min, ◌==◌, true, false, ◌&&◌, ltb,
  Bool-cases, inl, inr,
}
use deprecated_tcode.Common.Int.{pos}
use deprecated_tcode.Common.Memory.{bytes-zero}
use deprecated_tcode.Common.Words.{int_max, int_mod, to_int_lem, to_size-pos}
use deprecated_tcode.Block
use deprecated_tcode.Block.{Manager, Header, header_size, ◌>>=◌, ◌>>◌}
use deprecated_tcode.Block.Sound.{IsSound, IsSound-memory}
use deprecated_tcode.Block.Alloc.{Allocated, alloc-Allocated}
use deprecated_tcode.Block.Free.{Freed, free-Freed}
use deprecated_tcode.ByteBuffer.{
  ByteBuffer, start, keeps_block, create, refill, destruct, swap, reserve,
}
use deprecated_tcode.ByteBuffer.Holds.{
  Holds, contents, length_lem, capacity_lem, refcount_lem, not_null,
}
use deprecated_tcode.ByteBuffer.Write.{write_lem, stored, stored-Holds, contents-stored}
use deprecated_tcode.ByteBuffer.Move.{with_write, written}

-- What `reserve` promises a buffer `b` of header `h`.
pub record Reserved (m : Manager) (b : ByteBuffer) (h : Header) (sz : ℕ) (b' : ByteBuffer)
    (m' : Manager) : Type 0 where
  pub header : Header
  pub sound : IsSound m'
  pub holds : Holds m' b' header
  pub own : header.refcount ≡ 1
  pub enough : sz ≤ header.capacity
  pub kept : b.pos.write - b.pos.read ≤ sz → contents m' b' ≡ contents m b
  pub shared :
      h.refcount ≢ 1
      → (m'.header b.block ≡ some (record h { refcount = h.refcount - 1 }))
        × (m'.memory b.block ≡ m.memory b.block)
  pub others :
      (q : ℕ) (g : Header)
      → q ≢ b.block
      → m.header q ≡ some g
      → (m'.header q ≡ some g) × (m'.memory q ≡ m.memory q)

module _ {m : Manager} {b : ByteBuffer} {h : Header} (s : IsSound m) (w : Holds m b h) (sz : ℕ)
    (fits : sz ≤ int_max) where
  keeps_lem : keeps_block b (pos sz) m ≡ some ((h.refcount == 1) && ltb sz h.capacity, m)
  unfolding keeps_block
  keeps_lem =
      let a : sz + 0 ≡ sz = omega arith in
      let c : h.capacity + 0 ≡ h.capacity = omega arith in
      rw (refcount_lem w, ◌>>=◌, capacity_lem w, to_int_lem h.capacity w.small, a, c)

  keep-Reserved : ((h.refcount == 1) && ltb sz h.capacity) ≡ true → Reserved m b h sz b m
  keep-Reserved keep = record {
    header = h;
    sound = s;
    holds = w;
    own = ground arith;
    enough = ground arith;
    kept = λ _. refl;
    shared = λ ne. ground arith;
    others = λ q g ne e. (e, refl);
  }

  module _ (fresh : ℕ) (ne : fresh ≢ 0) (new : m.chunk fresh ≡ none)
      (count : h.refcount < int_mod) where
    abbrev nb : ByteBuffer
    nb = record { block = (Block.alloc fresh sz m).0; pos = start }

    abbrev m₁ : Manager
    m₁ = (Block.alloc fresh sz m).1

    allocated : Allocated m sz nb.block m₁
    allocated = alloc-Allocated fresh sz m s ne new (omega arith)

    abbrev h₁ : Header
    h₁ = record { refcount = 1; capacity = allocated.capacity }

    nb-Holds : Holds m₁ nb h₁
    nb-Holds = record {
      ne_null = allocated.ne_null;
      alive = allocated.header;
      ordered = omega arith;
      within = omega arith;
      small = omega (arith, allocated.bounded);
    }

    -- The write to the new block.
    record Refilled (nb' : ByteBuffer) (m₂ : Manager) : Type 0 where
      filled : refill nb b m₁ ≡ some (nb', m₂)
      same_block : nb'.block ≡ nb.block
      holds : Holds m₂ nb' h₁
      kept : b.pos.write - b.pos.read ≤ sz → contents m₂ nb' ≡ contents m b
      headers : m₂.header ≡ m₁.header
      others : (q : ℕ) → q ≢ nb.block → m₂.memory q ≡ m.memory q
      sound : IsSound m₂

    refilled : (nb' : ByteBuffer) × (m₂ : Manager) × Refilled nb' m₂
    unfolding refill
    refilled =
        let l = b.pos.write - b.pos.read in
        let n = min l (allocated.capacity - 0) in
        let src = m₁.memory b.block in
        (
          with_write nb (0 + n),
          stored m₁ nb src b.pos.read n,
          record {
            filled = rw (not_null w, ◌>>=◌, length_lem w, write_lem nb-Holds src b.pos.read l);
            same_block = refl;
            holds =
                written (stored-Holds nb-Holds src b.pos.read n) (0 + n) (omega arith)
                  (omega arith);
            kept = λ le.
                let all : n ≡ l = omega (arith, allocated.enough) in
                contents-stored nb-Holds src b.pos.read n
                ∙ rw (bytes-zero (m₁.memory nb.block) 0, all, allocated.memories);
            headers = refl;
            others = λ q ne'. ground (arith, allocated.memories);
            sound = IsSound-memory m₁ _ allocated.sound;
          },
        )

    abbrev nb' : ByteBuffer
    nb' = refilled.0

    abbrev m₂ : Manager
    m₂ = refilled.1

    abbrev r : Refilled nb' m₂
    r = refilled.2

    apart : b.block ≢ nb.block
    apart same = ground (arith, allocated.was_dead, w.alive)

    old_alive : m₂.header b.block ≡ some h
    old_alive = ground (arith, r.headers, allocated.others b.block apart, w.alive)

    -- The old block loses the buffer's reference.
    abbrev m₃ : Manager
    m₃ = (free-Freed m₂ b.block h r.sound old_alive count).0

    freed : Freed m₂ b.block h m₃
    freed = (free-Freed m₂ b.block h r.sound old_alive count).2

    destructs : destruct b m₂ ≡ some (tt, m₃)
    unfolding destruct
    destructs = (free-Freed m₂ b.block h r.sound old_alive count).1

    reserve_new :
        ((h.refcount == 1) && ltb sz h.capacity) ≡ false
        → reserve fresh b (pos sz) m ≡ some (nb', m₃)
    unfolding reserve create swap
    reserve_new replace = rw (keeps_lem, ◌>>=◌, replace, to_size-pos sz fits, r.filled, destructs)

    new-Reserved : Reserved m b h sz nb' m₃
    new-Reserved = record {
      header = h₁;
      sound = freed.sound;
      holds = record {
        ne_null = r.holds.ne_null;
        alive = freed.others nb'.block (λ e. apart (ground (arith, r.same_block))) ∙ r.holds.alive;
        ordered = r.holds.ordered;
        within = r.holds.within;
        small = r.holds.small;
      };
      own = refl;
      enough = allocated.enough;
      kept = λ le. rw freed.memories (r.kept le);
      shared = λ ne'.
          (ground (arith, freed.header), ground (arith, freed.memories, r.others b.block apart));
      others = λ q g ne' e.
          let other : q ≢ nb.block = (λ same. ground (arith, allocated.was_dead)) in
          (
            ground (arith, freed.others q ne', r.headers, allocated.others q other),
            ground (arith, freed.memories, r.others q other),
          );
    }

    -- `reserve( sz )` with `sz` not negative returns, out of whatever address `malloc` gives that is
    -- not in use. The buffer then holds a block that nobody else does, of at least `sz` bytes; its
    -- readable bytes are the same if `sz` is not less than their number. Another holder of the old
    -- block keeps it, with its bytes and one reference less; no other block changes.
    pub reserve-Reserved :
        (b' : ByteBuffer) × (m' : Manager) × (reserve fresh b (pos sz) m ≡ some (b', m'))
        × Reserved m b h sz b' m'
    reserve-Reserved = elim (Bool-cases ((h.refcount == 1) && ltb sz h.capacity)) [
      | inl keep ↦ (b, m, unfold reserve in rw (keeps_lem, ◌>>=◌, keep), keep-Reserved keep)
      | inr replace ↦ (nb', m₃, reserve_new replace, new-Reserved)
    ]
