-- ===== src/Cache/Reads.antt =====
-- `journal_read` against the file.
use mathlib.Core.Path.{subst}
use jio.Base.{
  ℕ, ◌+◌, ◌-◌, ◌^◌, ◌≤◌, ◌<◌, ◌≡◌, refl, ap, ◌∙◌, ◌⊎◌, inl, inr, true, false, Option, none, some,
  List, [], arith, leb, ltb, length, take, drop, Bool-cases, leb→le, ltb→lt, lt→ltb,
}
use jio.Io.{Call, Reply, Step, done, call, allocated, einval}
use jio.Io.Wp.{Wp, allocated-Wp}
use jio.Lru.{Buf, Journal, buf_used}
use jio.Lru.Seg.{first}
use jio.Lru.Order.{IsLru}
use jio.Lru.Used.{buf_used-IsLru}
use jio.Cache.{
  buf_size, buf_cnt, Read, hit, find, deref, cached, invalidate, buf_got_read, got_read, uncached,
  unbuffered, buffered, journal_read,
}
use jio.Cache.Filled.{
  sub64_lem, memcpy_lem, cached_fits, filled, prefix-IsRange, filled-Holds, nonempty,
}
use jio.Cache.World.{World}
use jio.Cache.Window.{
  IsCache, IsRange, hit_covers, hit-valid, find-lt, split_at, window-IsRange, Holds-same,
  IsCache-used, IsCache-update,
}

-- The bytes asked for, and buffers that still hold the file's bytes.
abbrev pub Got : List ℕ → ℕ → ℕ → Read → Type 0
Got file o l (bs, j) = IsRange file o l bs × IsCache file j

-- An error of the world, or the range reaches behind the end of the file.
abbrev pub Failed : (file : List ℕ) → World file → ℕ → ℕ → ℕ → Type 0
Failed file w o l e = w.E e ⊎ ((e ≡ einval) × (length file < o + l))

-- What `uncached` asks for once it has its buffer.
abbrev pub asking : ℕ → ℕ → Journal → ℕ → Step Read
asking o l k b =
    call (Call.pread_fixed k.idx o buf_size (k.bufs b).idx) (buf_got_read o l b (invalidate k b))

abbrev pub invalid : Buf → Buf
invalid b = record b { valid = false }

abbrev pub asked : ℕ → ℕ → Journal → ℕ → Step Read
asked o l k b = call Call.op_new λ r. allocated r (asking o l k b)

pub uncached_lem :
    (o l : ℕ) (j k : Journal) (b : ℕ)
    → j.lru_head ≡ some b
    → buf_used j b ≡ some k
    → uncached o l j ≡ asked o l k b
unfolding uncached
uncached_lem o l j k b h r =
    (λ i. deref (h i) (λ c. deref (buf_used j c) (λ k'. asked o l k' c)))
    ∙ (λ i. deref (r i) (λ k'. asked o l k' b))

module _ (file : List ℕ) (w : World file) (small : length file < 2 ^ 64) (o l : ℕ) (pos : 0 < l)
    (range : o + l < 2 ^ 64) where
  -- A read of a range that a buffer covers makes no call.
  pub cached-done :
      (j : Journal) (i : ℕ)
      → IsCache file j
      → i < buf_cnt
      → hit o l (j.bufs i) ≡ true
      → (r : Read) × (cached o l j i ≡ done r) × Got file o l r
  unfolding cached
  cached-done j i c lt t =
      let (ys, zs, e) = split_at i c.order (c.covers i lt) in
      let (k, r, lru, same) = buf_used-IsLru j i ys zs (subst (IsLru j) e c.lru) in
      let c' = IsCache-used file j k i ys zs c e lru same in
      let h = c.holds i lt (hit-valid o l (j.bufs i) t) in
      let cov = hit_covers o l (j.bufs i) range h.bounded t in
      let bounds = same.content i in
      let h' = Holds-same file (j.bufs i) (k.bufs i) bounds h in
      let below : (k.bufs i).offset ≤ o = omega arith in
      let above : o + l ≤ (k.bufs i).offset + (k.bufs i).length = omega arith in
      let fits : o - (k.bufs i).offset + l ≤ buf_size =
        cached_fits file (k.bufs i) o l h' below above in
      (
        (take l (drop (o - (k.bufs i).offset) (k.bufs i).bytes), k),
        rw
            (
              r,
              sub64_lem o (k.bufs i).offset below (omega arith),
              memcpy_lem (o - (k.bufs i).offset) l (k.bufs i).bytes k fits,
            )
            refl,
        (window-IsRange file (k.bufs i) o l h' below above, c'),
      )

  cached-Got :
      (j : Journal) (i : ℕ)
      → IsCache file j
      → i < buf_cnt
      → hit o l (j.bufs i) ≡ true
      → Wp w.Ok (Failed file w o l) (Got file o l) (cached o l j i)
  cached-Got j i c lt t = let (r, e, got) = cached-done j i c lt t in rw e got

  few_Failed :
      (i m x n : ℕ) (bs : List ℕ)
      → w.Ok (Call.pread_fixed i o m x) (Reply.ok n bs)
      → n < l
      → l ≤ m
      → Failed file w o l einval
  few_Failed i m x n bs ok few fits = elim (w.short_fixed i o m x n bs ok (omega arith)) [
    | inl end ↦ inr (refl, omega arith)
    | inr e ↦ inl e
  ]

  fill-Got :
      (j : Journal) (b i x : ℕ)
      → IsCache file j
      → l ≤ buf_size
      → (r : Reply) → w.Ok (Call.pread_fixed i o buf_size x) r
      → Wp w.Ok (Failed file w o l) (Got file o l) (buf_got_read o l b j r)
  unfolding buf_got_read
  fill-Got j b i x c fits (Reply.error e) ok = inl (w.read_fixed_error i o buf_size x e ok)
  fill-Got j b i x c fits (Reply.ok n bs) ok =
      let got = w.reads_fixed i o buf_size x n bs ok in
      elim (Bool-cases (ltb n l)) [
        | inl few ↦ rw few (few_Failed i buf_size x n bs ok (ltb→lt n l few) fits)
        | inr enough ↦
            let le : l ≤ n = ground arith in
            rw enough (
              prefix-IsRange file o l buf_size n bs (drop n (j.bufs b).bytes) le got,
              IsCache-update file j b (filled (j.bufs b) o n bs) c refl refl
                  (λ _. filled-Holds file o n bs (j.bufs b) small (omega arith) got),
            )
      ]

  uncached-Got :
      (j : Journal)
      → IsCache file j
      → l ≤ buf_size
      → Wp w.Ok (Failed file w o l) (Got file o l) (uncached o l j)
  uncached-Got j c fits =
      let (b, zs, e) = nonempty c.order (c.covers 0 (omega arith)) in
      let head : j.lru_head ≡ some b = c.lru.head ∙ ap (λ xs. first xs none) e in
      let (k, r, lru, same) = buf_used-IsLru j b [] zs (subst (IsLru j) e c.lru) in
      let c' = IsCache-used file j k b [] zs c e lru same in
      let c2 = IsCache-update file k b (invalid (k.bufs b)) c' refl refl (λ v. cc) in
      rw (uncached_lem o l j k b head r) (λ r' ok.
        allocated-Wp w.Ok (Failed file w o l) (Got file o l) r' (asking o l k b)
          (λ e' q. inl (w.no_op e' (rw (← q) ok)))
          (λ r2 ok2. fill-Got (invalidate k b) b k.idx (k.bufs b).idx c2 fits r2 ok2))

  got_read-Got :
      (j : Journal) (i : ℕ)
      → IsCache file j
      → (r : Reply) → w.Ok (Call.pread i o l) r
      → Wp w.Ok (Failed file w o l) (Got file o l) (got_read l j r)
  unfolding got_read
  got_read-Got j i c (Reply.error e) ok = inl (w.read_error i o l e ok)
  got_read-Got j i c (Reply.ok n bs) ok =
      let got = w.reads i o l n bs ok in
      let most = got.most in
      elim (Bool-cases (ltb n l)) [
        | inl few ↦ rw few (elim (w.short i o l n bs ok (ltb→lt n l few)) [
          | inl end ↦ inr (refl, ground (arith, ltb→lt n l few))
          | inr e ↦ inl e
        ])
        | inr enough ↦
            let e : n ≡ l = ground arith in
            rw enough (
              record {
                bytes = got.bytes ∙ ap (λ (m : ℕ). take m (drop o file)) e;
                size = got.size ∙ e;
              },
              c,
            )
      ]

  unbuffered-Got :
      (j : Journal) → IsCache file j → Wp w.Ok (Failed file w o l) (Got file o l) (unbuffered o l j)
  unfolding unbuffered
  unbuffered-Got j c = λ r ok.
      allocated-Wp w.Ok (Failed file w o l) (Got file o l) r
        (call (Call.pread j.idx o l) (got_read l j)) (λ e q. inl (w.no_op e (rw (← q) ok)))
        (λ r' ok'. got_read-Got j j.idx c r' ok')

  buffered-Got :
      (j : Journal) (f : Option ℕ)
      → find o l j.bufs buf_cnt 0 ≡ f
      → IsCache file j
      → l ≤ buf_size
      → Wp w.Ok (Failed file w o l) (Got file o l) (buffered o l j f)
  unfolding buffered
  buffered-Got j none e c fits = uncached-Got j c fits
  buffered-Got j (some i) e c fits =
      let (lt, t) = find-lt o l j.bufs buf_cnt 0 i e in cached-Got j i c lt t

  -- `journal_read` of a range that does not wrap: it never fails an assertion, follows a null
  -- pointer or copies from outside a buffer. It returns the file's bytes with the buffers still
  -- right, or an error of the world, or EINVAL where the range reaches behind the end of the file.
  pub journal_read-Got :
      (j : Journal)
      → IsCache file j
      → Wp w.Ok (Failed file w o l) (Got file o l) (journal_read o l j)
  unfolding journal_read
  journal_read-Got j c = rw (lt→ltb 0 l pos) (elim (Bool-cases (leb l buf_size)) [
    | inl fits ↦
        rw fits (buffered-Got j (find o l j.bufs buf_cnt 0) refl c (leb→le l buf_size fits))
    | inr big ↦ rw big (unbuffered-Got j c)
  ])
