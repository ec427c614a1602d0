-- ===== src/Time.antt =====
-- Spans and points of time, and the calendar: src/time.
pub mod Span
pub mod Stamp
pub mod Calendar
mod Tests
