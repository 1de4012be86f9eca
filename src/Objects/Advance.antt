-- ===== src/Objects/Advance.antt =====
-- How far one step of the iteration goes.
use jio.Base.{ℕ, ◌+◌, ◌-◌, ◌%◌, ◌^◌, ◌≤◌, ◌<◌, ◌≡◌, ◌≢◌, arith}
use jio.Format.{Header}
use jio.Objects.{advance}

-- From an object whose aligned end does not wrap, a step goes to or behind its end, by less than
-- eight bytes, and at least eight bytes on, with the same remainder of the offset by eight.
pub advance-progress :
    (h : Header) (o s : ℕ)
    → o ≢ 0
    → s ≢ 0
    → o + s + 7 < 2 ^ 64
    → (o + s ≤ advance h o s)
      × (advance h o s < o + s + 8)
      × (o + 8 ≤ advance h o s)
      × (advance h o s % 8 ≡ o % 8)
unfolding advance
advance-progress h o s a b c = ground arith

-- A size of zero ends the iteration: the step goes behind the last object.
pub advance-zero :
    (h : Header) (o : ℕ)
    → o ≢ 0
    → h.tail_object_offset + 1 < 2 ^ 64
    → h.tail_object_offset < advance h o 0
unfolding advance
advance-zero h o a b = ground arith

-- A size within seven of 2 ^ 64 is aligned to zero: the step stays where it is.
pub advance_stuck :
    (h : Header) (o s : ℕ) → o ≢ 0 → o < 2 ^ 64 → 2 ^ 64 - 8 < s → s < 2 ^ 64 → advance h o s ≡ o
unfolding advance
advance_stuck h o s a b c d = ground arith
