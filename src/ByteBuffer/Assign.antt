-- ===== src/ByteBuffer/Assign.antt =====
-- `operator=( const byte_buffer& )` counts references, also between buffers that share a block.
use deprecated_tcode.Common.{
  ℕ, ◌+◌, ◌-◌, ◌<◌, ◌≡◌, ◌≢◌, sym, ◌∙◌, Option, some, none, arith, ◌==◌, if◌then◌else◌, ℕ_discrete,
}
use deprecated_tcode.Common.Words.{int_mod}
use deprecated_tcode.Block.{Manager, Header, ◌>>=◌}
use deprecated_tcode.Block.Sound.{IsSound}
use deprecated_tcode.Block.Free.{free-Freed, duplicate_lem}
use deprecated_tcode.ByteBuffer.{ByteBuffer, assign}
use deprecated_tcode.ByteBuffer.Holds.{Holds}

-- The count of a block's header, less one reference: the last one destroys the block.
abbrev pub dropped : Header → Option Header
dropped h = if h.refcount == 1 then none else some (record h { refcount = h.refcount - 1 })

module _ {m : Manager} {b rhs : ByteBuffer} {h g : Header} (s : IsSound m) (w : Holds m b h)
    (v : Holds m rhs g) where
  -- Assigning a buffer that holds another block returns a copy of `rhs` that shares its block: that
  -- block has one reference more, the old block of `b` one less, and at its last one is destroyed.
  -- No byte and no other block changes. The counts are below their wrap.
  pub assign_other :
      b.block ≢ rhs.block
      → h.refcount < int_mod
      → g.refcount + 1 < int_mod
      → (m' : Manager) × (assign b rhs m ≡ some (rhs, m'))
        × IsSound m'
        × (m'.header rhs.block ≡ some (record g { refcount = g.refcount + 1 }))
        × (m'.header b.block ≡ dropped h)
        × ((q : ℕ) → q ≢ b.block → q ≢ rhs.block → m'.header q ≡ m.header q)
        × (m'.memory ≡ m.memory)
  unfolding assign
  assign_other ne hb hg =
      let (m₁, dup, s₁, more, others, memories) = duplicate_lem m rhs.block g s v.alive hg in
      let alive : m₁.header b.block ≡ some h = others b.block ne ∙ w.alive in
      let (m₂, freed, f) = free-Freed m₁ b.block h s₁ alive hb in
      (
        m₂,
        rw (dup, ◌>>=◌, freed),
        f.sound,
        f.others rhs.block (λ e. ne (sym e)) ∙ more,
        f.header,
        λ q nb nr. f.others q nb ∙ others q nr,
        f.memories ∙ memories,
      )

  -- Between two buffers that share a block, and from a buffer to itself, the assignment only takes
  -- over the positions: every block keeps its count, so the shared one is not destroyed.
  pub assign_same :
      b.block ≡ rhs.block
      → g.refcount + 1 < int_mod
      → (m' : Manager) × (assign b rhs m ≡ some (rhs, m'))
        × IsSound m'
        × ((q : ℕ) → m'.header q ≡ m.header q)
        × (m'.memory ≡ m.memory)
  unfolding assign
  assign_same same hg =
      let (m₁, dup, s₁, more, others, memories) = duplicate_lem m rhs.block g s v.alive hg in
      let h' : Header = record g { refcount = g.refcount + 1 } in
      let alive : m₁.header b.block ≡ some h' = rw same more in
      let (m₂, freed, f) = free-Freed m₁ b.block h' s₁ alive hg in
      let back : m₂.header b.block ≡ some g =
        ground (arith, f.header, s.live rhs.block g v.alive) in
      let here : m.header b.block ≡ some g = rw same v.alive in
      (
        m₂,
        rw (dup, ◌>>=◌, freed),
        f.sound,
        λ q. elim (ℕ_discrete q b.block) [
          | yes e ↦ rw e (back ∙ sym here)
          | no ne ↦ f.others q ne ∙ others q (λ e. ne (e ∙ sym same))
        ],
        f.memories ∙ memories,
      )
