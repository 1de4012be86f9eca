-- ===== src/Cache/Overflow.antt =====
-- The test of `journal_read` on a buffer, where the end of the range wraps around.
use jio.Base.{
  ℕ, ◌+◌, ◌-◌, ◌≤◌, ◌<◌, ◌^◌, ◌≡◌, sym, ◌∙◌, true, some, List, arith, sub64, le→leb, lt→ltb,
}
use mathlib.Core.Path.{subst}
use jio.Io.{fault}
use jio.Lru.{Buf, Journal}
use jio.Lru.Order.{IsLru}
use jio.Lru.Used.{buf_used-IsLru}
use jio.Cache.{buf_size, buf_cnt, hit, find, memcpy, cached, buffered, journal_read}
use jio.Cache.Window.{IsCache, split_at}

-- The range `o`, `l` wraps, and its wrapped end lies before the end of the buffer.
pub record Wraps (o l : ℕ) (b : Buf) : Type 0 where
  pub valid : b.valid ≡ true
  pub start : o < 2 ^ 64
  pub wraps : 2 ^ 64 ≤ o + l
  pub below : o + l - 2 ^ 64 ≤ b.offset + b.length
  pub room : b.offset + buf_size < 2 ^ 64

hit-Wraps :
    (o l : ℕ) (b : Buf) → Wraps o l b → l ≤ buf_size → b.length ≤ buf_size → hit o l b ≡ true
unfolding hit
hit-Wraps o l b w fits small = ground (arith, w.valid)

memcpy_fault :
    (o l : ℕ) (b : Buf) (bs : List ℕ) (k : Journal)
    → Wraps o l b
    → l ≤ buf_size
    → memcpy (sub64 o b.offset) l bs k ≡ fault
unfolding memcpy
memcpy_fault o l b bs k w fits = ground (arith, w.room)

Wraps-same :
    (o l : ℕ) (b c : Buf)
    → b.offset ≡ c.offset
    → b.length ≡ c.length
    → b.valid ≡ c.valid
    → Wraps o l b
    → Wraps o l c
Wraps-same o l b c p q r w = record {
  valid = sym r ∙ w.valid;
  start = w.start;
  wraps = w.wraps;
  below = rw (← p, ← q) w.below;
  room = rw (← p) w.room;
}

find_first :
    (o l : ℕ) (j : Journal) → hit o l (j.bufs 0) ≡ true → find o l j.bufs buf_cnt 0 ≡ some 0
unfolding find
find_first o l j h = rw h

-- A read of at most a buffer's size whose range wraps, with a first buffer that is valid and
-- holds bytes behind the wrapped end: the test takes the buffer, and the copy starts outside it.
pub journal_read-Wraps :
    (file : List ℕ) (j : Journal) (o l : ℕ)
    → IsCache file j
    → 0 < l
    → l ≤ buf_size
    → Wraps o l (j.bufs 0)
    → journal_read o l j ≡ fault
unfolding journal_read buffered cached
journal_read-Wraps file j o l c pos fits w =
    let h = c.holds 0 (omega arith) w.valid in
    let found = find_first o l j (hit-Wraps o l (j.bufs 0) w fits h.fits) in
    let (ys, zs, e) = split_at 0 c.order (c.covers 0 (omega arith)) in
    let (k, r, lru, same) = buf_used-IsLru j 0 ys zs (subst (IsLru j) e c.lru) in
    let (po, pl, pv, pi, pb) = same.content 0 in
    let w' = Wraps-same o l (j.bufs 0) (k.bufs 0) po pl pv w in
    rw (lt→ltb 0 l pos, le→leb l buf_size fits, found, r)
      (memcpy_fault o l (k.bufs 0) (k.bufs 0).bytes k w' fits)
