-- ===== src/Cache/Lasting.antt =====
-- How long a range that was read stays in the buffers.
use jio.Base.{
  ℕ, zero, suc, ◌+◌, ◌^◌, ◌≤◌, ◌<◌, ◌≡◌, ◌≢◌, refl, sym, ap, ◌∙◌, ◌⊎◌, inl, inr, true, false,
  Option, none, some, List, [], ◌∷◌, ◌++◌, arith, has, Bool, Bool-cases, eq→==, ltb, length, lt→ltb,
  le→leb,
}
use mathlib.Core.Path.{subst}
use jio.Io.{Call, Reply, Step, done, einval, ◌>>=◌}
use jio.Io.Wp.{Wp, Wp-mono, Wp-bind, Wp-errors}
use jio.Io.Yields.{Yields, Wp-Yields, allocated-Yields}
use jio.Lru.{Buf, Bufs, Journal}
use jio.Lru.Order.{IsLru}
use jio.Lru.Seg.{first}
use jio.Lru.Recency.{IsRecent-last}
use jio.Cache.{
  buf_size, buf_cnt, Read, hit, find, cached, invalidate, buf_got_read, uncached, buffered,
  journal_read,
}
use jio.Cache.Filled.{filled, filled-Holds, nonempty}
use jio.Cache.Others.{memcpy-Yields, After, journal_read-After}
use jio.Cache.World.{World}
use jio.Cache.Window.{IsCache, find-lt, update_hit}
use jio.Cache.Reads.{Got, Failed, cached-done, asking, invalid, uncached_lem, journal_read-Got}
use jio.Cache.Keeps.{Keeps, Keeps-mono, used_lem, used-Keeps_self, update-IsLru}

find-here :
    (o l : ℕ) (bufs : Bufs) (left i : ℕ)
    → hit o l (bufs i) ≡ true
    → find o l bufs (suc left) i ≡ some i
unfolding find
find-here o l bufs left i h = rw h refl

find-other :
    (o l : ℕ) (bufs : Bufs) (left i : ℕ)
    → hit o l (bufs i) ≡ false
    → find o l bufs (suc left) i ≡ find o l bufs left (i + 1)
unfolding find
find-other o l bufs left i h = rw h refl

clash : (x : Bool) → x ≡ true → x ≡ false → ⊥
clash x p q = cc

-- A buffer that covers the range is found, or one before it is.
find-some :
    (o l : ℕ) (bufs : Bufs) (left i b : ℕ)
    → i ≤ b
    → b < i + left
    → hit o l (bufs b) ≡ true
    → (k : ℕ) × (find o l bufs left i ≡ some k)
find-some o l bufs zero i b le lt h = absurd (omega arith)
find-some o l bufs (suc left) i b le lt h = elim (Bool-cases (hit o l (bufs i))) [
  | inl here ↦ (i, find-here o l bufs left i here)
  | inr other ↦
      let ne : i ≢ b =
        λ e. clash (hit o l (bufs b)) h (ap (λ (x : ℕ). hit o l (bufs x)) (sym e) ∙ other) in
      let (k, e) = find-some o l bufs left (i + 1) b (further i b le ne) (omega arith) h in
      (k, find-other o l bufs left i other ∙ e)
]
  where
    further : (i b : ℕ) → i ≤ b → i ≢ b → i + 1 ≤ b
    further i b le ne = ground arith

module _ (file : List ℕ) (w : World file) (small : length file < 2 ^ 64) (o l : ℕ) (pos : 0 < l)
    (range : o + l < 2 ^ 64) (fits : l ≤ buf_size) where
  -- Some buffer covers the range, and none was used behind it.
  abbrev pub IsFresh : Read → Type 0
  IsFresh r = (b : ℕ) × Keeps 0 b o l r.1

  cached-IsFresh :
      (j : Journal) (i : ℕ)
      → IsCache file j
      → i < buf_cnt
      → hit o l (j.bufs i) ≡ true
      → Yields w.Ok IsFresh (cached o l j i)
  unfolding cached
  cached-IsFresh j i c lt h =
      let (k, r, kept) = used-Keeps_self j i o l c.order c.lru c.covers c.only lt h in
      rw r (memcpy-Yields w.Ok (λ k. (b : ℕ) × Keeps 0 b o l k) _ l (k.bufs i).bytes k (i, kept))

  filled-hit :
      (b : Buf) (n : ℕ) (bs : List ℕ) → l ≤ n → o + n < 2 ^ 64 → hit o l (filled b o n bs) ≡ true
  unfolding hit
  filled-hit b n bs le below = ground arith

  fill-IsFresh :
      (x i y : ℕ) (k : Journal) (order : List ℕ)
      → IsLru k (order ++ x ∷ [])
      → ((a : ℕ) → a < buf_cnt → has a (order ++ x ∷ []) ≡ true)
      → ((a : ℕ) → has a (order ++ x ∷ []) ≡ true → a < buf_cnt)
      → x < buf_cnt
      → (r : Reply) → w.Ok (Call.pread_fixed i o buf_size y) r
      → Yields w.Ok IsFresh (buf_got_read o l x (invalidate k x) r)
  unfolding buf_got_read
  fill-IsFresh x i y k order lru covers only lt (Reply.error e) ok = tt
  fill-IsFresh x i y k order lru covers only lt (Reply.ok n bs) ok = elim (Bool-cases (ltb n l)) [
    | inl few ↦ rw few tt
    | inr enough ↦
        let le : l ≤ n = ground arith in
        let k' = invalidate k x in
        let v = filled (k'.bufs x) o n bs in
        let got = w.reads_fixed i o buf_size y n bs ok in
        let held = filled-Holds file o n bs (k'.bufs x) small (omega arith) got in
        rw enough (
          x,
          record {
            order = order ++ x ∷ [];
            lru =
                update-IsLru k' x v (order ++ x ∷ []) refl refl
                  (update-IsLru k x (invalid (k.bufs x)) (order ++ x ∷ []) refl refl lru);
            covers = covers;
            only = only;
            below = lt;
            recent = IsRecent-last x order;
            covered =
                rw (update_hit k'.bufs x v x (eq→== x x refl))
                  (filled-hit (k'.bufs x) n bs le held.bounded);
          },
        )
  ]

  uncached-IsFresh : (j : Journal) → IsCache file j → Yields w.Ok IsFresh (uncached o l j)
  uncached-IsFresh j c =
      let (x, rest, e) = nonempty c.order (c.covers 0 (omega arith)) in
      let head : j.lru_head ≡ some x = c.lru.head ∙ ap (λ xs. first xs none) e in
      let below : x < buf_cnt =
        c.only x (subst (λ (xs : List ℕ). has x xs ≡ true) (sym e) (has-first x rest)) in
      let (ys, zs, k, split, r, lru', same, covers', only') =
        used_lem j x c.order c.lru c.covers c.only below in
      rw (uncached_lem o l j k x head r) (λ r1 ok1.
        allocated-Yields w.Ok IsFresh r1 (asking o l k x) (λ r2 ok2.
          fill-IsFresh x k.idx (k.bufs x).idx k (ys ++ zs) lru' covers' only' below r2 ok2))
    where
      has-first : (x : ℕ) (xs : List ℕ) → has x (x ∷ xs) ≡ true
      has-first x xs = ground arith

  buffered-IsFresh :
      (j : Journal) (f : Option ℕ)
      → find o l j.bufs buf_cnt 0 ≡ f
      → IsCache file j
      → Yields w.Ok IsFresh (buffered o l j f)
  unfolding buffered
  buffered-IsFresh j none e c = uncached-IsFresh j c
  buffered-IsFresh j (some i) e c =
      let (lt, t) = find-lt o l j.bufs buf_cnt 0 i e in cached-IsFresh j i c lt t

  journal_read-IsFresh : (j : Journal) → IsCache file j → Yields w.Ok IsFresh (journal_read o l j)
  unfolding journal_read
  journal_read-IsFresh j c =
      rw (lt→ltb 0 l pos, le→leb l buf_size fits)
        (buffered-IsFresh j (find o l j.bufs buf_cnt 0) refl c)

  -- A range that a buffer keeps is read without a call.
  pub journal_read-again :
      (m b : ℕ) (j : Journal)
      → IsCache file j
      → Keeps m b o l j
      → (r : Read) × (journal_read o l j ≡ done r) × Got file o l r
  unfolding journal_read buffered
  journal_read-again m b j c h =
      let (i, found) =
        find-some o l j.bufs buf_cnt 0 b (omega arith) (omega (arith, h.below)) h.covered in
      let (lt, t) = find-lt o l j.bufs buf_cnt 0 i found in
      let (r, e, got) = cached-done file w small o l pos range j i c lt t in
      (r, rw (lt→ltb 0 l pos, le→leb l buf_size fits, found) e, got)

-- Reads of some ranges, one after another.
abbrev pub read_all : List (ℕ × ℕ) → Journal → Step Journal
read_all [] j = done j
read_all ((o, l) ∷ rs) j = journal_read o l j >>= λ r. read_all rs r.1

abbrev pub AreRanges : List (ℕ × ℕ) → Type 0
AreRanges [] = Unit
AreRanges ((o, l) ∷ rs) = (0 < l) × (o + l < 2 ^ 64) × AreRanges rs

abbrev pub number_of_reads : List (ℕ × ℕ) → ℕ
number_of_reads [] = 0
number_of_reads (r ∷ rs) = suc (number_of_reads rs)

module _ (file : List ℕ) (w : World file) (small : length file < 2 ^ 64) where
  -- An error of the world, or EINVAL.
  abbrev pub Broken : ℕ → Type 0
  Broken e = w.E e ⊎ (e ≡ einval)

  broken : (o l e : ℕ) → Failed file w o l e → Broken e
  broken o l e (inl h) = inl h
  broken o l e (inr (q, _)) = inr q

  one_read :
      (Q : Read → Type 0) (o l : ℕ) (j : Journal)
      → 0 < l
      → o + l < 2 ^ 64
      → IsCache file j
      → Yields w.Ok Q (journal_read o l j)
      → Wp w.Ok Broken (λ r. Got file o l r × Q r) (journal_read o l j)
  one_read Q o l j pos range c y =
      Wp-Yields w.Ok Broken (Got file o l) Q (journal_read o l j)
        (Wp-errors w.Ok (Failed file w o l) Broken (Got file o l) (journal_read o l j)
          (journal_read-Got file w small o l pos range j c) (broken o l))
        y

  read_all-Keeps :
      (rs : List (ℕ × ℕ)) (m b o l : ℕ) (j : Journal)
      → m + number_of_reads rs ≤ 7
      → AreRanges rs
      → IsCache file j
      → Keeps m b o l j
      → Wp w.Ok Broken (λ k. IsCache file k × Keeps 7 b o l k) (read_all rs j)
  read_all-Keeps [] m b o l j few ranges c h = (c, Keeps-mono m 7 b o l j (omega arith) h)
  read_all-Keeps ((p, n) ∷ rs) m b o l j few (pos, range, ranges) c h =
      Wp-bind w.Ok Broken (λ r. Got file p n r × Keeps (suc m) b o l r.1)
        (λ k. IsCache file k × Keeps 7 b o l k) (journal_read p n j) (λ r. read_all rs r.1)
        (one_read (After w.Ok m b o l) p n j pos range c
          (journal_read-After w.Ok m b o l p n j h (omega arith)))
        λ r ((at, c'), h'). read_all-Keeps rs (suc m) b o l r.1 (omega arith) ranges c' h'

  -- A read of a range of at most a buffer's size, then at most seven reads of any ranges, none of
  -- which wraps: they end, or fail with an error of the world or EINVAL. Behind them a read of the
  -- first range makes no call, and gives the file's bytes with the buffers still right: a range
  -- stays in the eight buffers until eight others were used.
  pub journal_read-lasting :
      (o l : ℕ) (rs : List (ℕ × ℕ)) (j : Journal)
      → 0 < l
      → o + l < 2 ^ 64
      → l ≤ buf_size
      → number_of_reads rs ≤ 7
      → AreRanges rs
      → IsCache file j
      → Wp w.Ok Broken
          (λ k. (r : Read) × (journal_read o l k ≡ done r) × Got file o l r)
          (read_all ((o, l) ∷ rs) j)
  journal_read-lasting o l rs j pos range fits few ranges c =
      Wp-bind w.Ok Broken (λ r. Got file o l r × IsFresh file w small o l pos range fits r)
        (λ k. (r : Read) × (journal_read o l k ≡ done r) × Got file o l r) (journal_read o l j)
        (λ r. read_all rs r.1)
        (one_read (IsFresh file w small o l pos range fits) o l j pos range c
          (journal_read-IsFresh file w small o l pos range fits j c))
        λ r ((at, c'), (b, h)).
          Wp-mono w.Ok Broken (λ k. IsCache file k × Keeps 7 b o l k)
            (λ k. (r : Read) × (journal_read o l k ≡ done r) × Got file o l r) (read_all rs r.1)
            (read_all-Keeps rs 0 b o l r.1 (omega arith) ranges c' h)
            λ k (c2, h2). journal_read-again file w small o l pos range fits 7 b k c2 h2
