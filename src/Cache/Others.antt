-- ===== src/Cache/Others.antt =====
-- What a read of another range leaves of one that a buffer keeps.
use jio.Base.{
  ℕ, suc, ◌+◌, ◌<◌, ◌≡◌, ◌≢◌, refl, sym, inl, inr, false, Option, none, some, List, arith, ◌==◌,
  Bool-cases, ne→==, leb, ltb,
}
use jio.Io.{Call, Reply, call}
use jio.Io.Yields.{Yields, allocated-Yields}
use jio.Lru.{Journal}
use jio.Cache.{
  buf_size, buf_cnt, Read, find, memcpy, cached, invalidate, buf_got_read, got_read, uncached,
  unbuffered, buffered, journal_read,
}
use jio.Cache.Filled.{filled}
use jio.Cache.Window.{find-lt, update_miss}
use jio.Cache.Reads.{asking, invalid, uncached_lem}
use jio.Cache.Keeps.{Keeps, Keeps-mono, used-Keeps, update-Keeps, head-other}

pub memcpy-Yields :
    (Ok : Call → Reply → Type 0) (P : Journal → Type 0) (start l : ℕ) (bs : List ℕ) (k : Journal)
    → P k
    → Yields Ok (λ (r : Read). P r.1) (memcpy start l bs k)
unfolding memcpy
memcpy-Yields Ok P start l bs k h = elim (Bool-cases (leb (start + l) buf_size)) [
  | inl inside ↦ rw inside h
  | inr outside ↦ rw outside tt
]

module _ (Ok : Call → Reply → Type 0) (m b o l : ℕ) where
  -- What is left of the range behind another read.
  abbrev pub After : Read → Type 0
  After r = Keeps (suc m) b o l r.1

  cached-After :
      (p n i : ℕ) (j : Journal) → Keeps m b o l j → i < buf_cnt → Yields Ok After (cached p n j i)
  unfolding cached
  cached-After p n i j h lt =
      let (k, r, kept) = used-Keeps m b o l i j h lt in
      rw r (memcpy-Yields Ok (Keeps (suc m) b o l) _ n (k.bufs i).bytes k kept)

  -- The buffer that is read into is another one.
  fill-After :
      (p n x : ℕ) (k : Journal) (r : Reply)
      → Keeps (suc m) b o l k
      → x ≢ b
      → Yields Ok After (buf_got_read p n x (invalidate k x) r)
  unfolding buf_got_read
  fill-After p n x k (Reply.error e) h ne = tt
  fill-After p n x k (Reply.ok got bs) h ne = elim (Bool-cases (ltb got n)) [
    | inl few ↦ rw few tt
    | inr enough ↦
        let miss : (b == x) ≡ false = ne→== b x (λ e. ne (sym e)) in
        let k' = invalidate k x in
        let h' : Keeps (suc m) b o l k' =
          update-Keeps (suc m) b o l x (invalid (k.bufs x)) k h refl refl
            (rw (update_miss k.bufs x (invalid (k.bufs x)) b miss) h.covered) in
        rw enough (
          update-Keeps (suc m) b o l x (filled (k'.bufs x) p got bs) k' h' refl refl
            (rw (update_miss k'.bufs x (filled (k'.bufs x) p got bs) b miss) h'.covered))
  ]

  uncached-After :
      (p n : ℕ) (j : Journal) → Keeps m b o l j → m < 7 → Yields Ok After (uncached p n j)
  uncached-After p n j h lt =
      let (x, head, below, ne) = head-other m b o l j h lt in
      let (k, r, kept) = used-Keeps m b o l x j h below in
      rw (uncached_lem p n j k x head r) (λ r1 ok1.
        allocated-Yields Ok After r1 (asking p n k x) (λ r2 ok2. fill-After p n x k r2 kept ne))

  got_read-After :
      (n : ℕ) (j : Journal) (r : Reply) → Keeps m b o l j → Yields Ok After (got_read n j r)
  unfolding got_read
  got_read-After n j (Reply.error e) h = tt
  got_read-After n j (Reply.ok got bs) h = elim (Bool-cases (ltb got n)) [
    | inl few ↦ rw few tt
    | inr enough ↦ rw enough (Keeps-mono m (suc m) b o l j (omega arith) h)
  ]

  unbuffered-After : (p n : ℕ) (j : Journal) → Keeps m b o l j → Yields Ok After (unbuffered p n j)
  unfolding unbuffered
  unbuffered-After p n j h = λ r ok.
      allocated-Yields Ok After r (call (Call.pread j.idx p n) (got_read n j))
        (λ r' ok'. got_read-After n j r' h)

  buffered-After :
      (p n : ℕ) (j : Journal) (f : Option ℕ)
      → find p n j.bufs buf_cnt 0 ≡ f
      → Keeps m b o l j
      → m < 7
      → Yields Ok After (buffered p n j f)
  unfolding buffered
  buffered-After p n j none e h lt = uncached-After p n j h lt
  buffered-After p n j (some i) e h lt = cached-After p n i j h (find-lt p n j.bufs buf_cnt 0 i e).0

  -- Behind any read, one more buffer may have been used.
  pub journal_read-After :
      (p n : ℕ) (j : Journal) → Keeps m b o l j → m < 7 → Yields Ok After (journal_read p n j)
  unfolding journal_read
  journal_read-After p n j h lt = elim (Bool-cases (ltb 0 n)) [
    | inr empty ↦ rw empty tt
    | inl some_bytes ↦ rw some_bytes (elim (Bool-cases (leb n buf_size)) [
      | inl fits ↦ rw fits (buffered-After p n j (find p n j.bufs buf_cnt 0) refl h lt)
      | inr big ↦ rw big (unbuffered-After p n j h)
    ])
  ]
