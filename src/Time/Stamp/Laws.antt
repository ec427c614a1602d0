-- ===== src/Time/Stamp/Laws.antt =====
-- The arithmetic of points of time and spans.
use deprecated_tcode.Common.{◌≡◌, ◌↔◌, arith, ap, true}
use deprecated_tcode.Common.Int.{pos, ltb_ℤ, int_laws, +ℤ_parts}
use deprecated_tcode.Time.Span.{Timespan, timespan}
use deprecated_tcode.Time.Stamp.{Timestamp, timestamp, plus, minus, since, less}

-- Going on by a span and measuring from the start gives the span, going back by it the start; and
-- the time between two points leads from the one to the other.
pub plus-since :
    (t u : Timestamp) (d : Timespan)
    → (since (plus t d) t ≡ d) × (minus (plus t d) d ≡ t) × (plus t (since u t) ≡ u)
unfolding plus minus since
plus-since t u d =
    (ap timespan (omega int_laws), ap timestamp (omega int_laws), ap timestamp (omega int_laws))

-- A span moves two points alike, and a positive one, and no other, moves a point on.
pub less-plus :
    (t u : Timestamp) (d : Timespan)
    → ((less (plus t d) (plus u d) ≡ true) ↔ (less t u ≡ true))
      × ((less t (plus t d) ≡ true) ↔ (ltb_ℤ (pos 0) d.delta ≡ true))
unfolding plus less
less-plus t u d = ground (arith, +ℤ_parts t.tick d.delta, +ℤ_parts u.tick d.delta)
