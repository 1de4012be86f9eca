-- ===== src/Cache/Own.antt =====
-- The files and the buffers that the reads of one journal touch.
use mathlib.Core.Path.{subst}
use jio.Base.{
  ℕ, ◌+◌, ◌*◌, ◌≤◌, ◌<◌, ◌≡◌, refl, sym, ap, ◌∙◌, inl, inr, true, Option, none, some, List, [], ◌∷◌,
  ◌++◌, arith, has, ◌==◌, Bool-cases, ==→eq, leb, ltb,
}
use jio.Io.{Call, Reply, call}
use jio.Io.Obeys.{Obeys, allocated-Obeys}
use jio.Lru.{Buf, Journal, update, buf_used}
use jio.Lru.Seg.{first}
use jio.Lru.Order.{IsLru}
use jio.Lru.Used.{buf_used-IsLru}
use jio.Cache.{
  buf_size, buf_cnt, Read, find, memcpy, cached, invalidate, buf_got_read, got_read, uncached,
  unbuffered, buffered, journal_read,
}
use jio.Cache.Filled.{filled, nonempty}
use jio.Cache.Window.{split_at, has-used, has-used_rev, find-lt, update_hit, update_miss}
use jio.Cache.Reads.{asking, invalid, uncached_lem}
use jio.Cache.Keeps.{update-IsLru}

-- The journal of number `n`, behind the registration: its eight buffers are in the list, and have
-- the numbers from `8 * n`.
pub record IsOwn (n : ℕ) (j : Journal) : Type 0 where
  pub order : List ℕ
  pub lru : IsLru j order
  pub covers : (i : ℕ) → i < buf_cnt → has i order ≡ true
  pub only : (i : ℕ) → has i order ≡ true → i < buf_cnt
  pub idx : j.idx ≡ n
  pub numbers : (i : ℕ) → i < buf_cnt → (j.bufs i).idx ≡ 8 * n + i

-- A read of the file of number `n`, one into a registered buffer of the size and of the number of
-- one of the journal's; an operation, a zstd context or memory is asked for.
abbrev pub OwnCall : ℕ → Call → Type 0
OwnCall n Call.op_new = Unit
OwnCall n (Call.malloc size) = Unit
OwnCall n Call.create_context = Unit
OwnCall n (Call.pread i o l) = i ≡ n
OwnCall n (Call.pread_fixed i o l b) =
    (i ≡ n) × (l ≡ buf_size) × (8 * n ≤ b) × (b < 8 * n + buf_cnt)
OwnCall n _ = ⊥

used-IsOwn :
    (n i : ℕ) (j : Journal)
    → IsOwn n j
    → i < buf_cnt
    → (k : Journal) × (buf_used j i ≡ some k) × IsOwn n k
used-IsOwn n i j h lt =
    let (ys, zs, e) = split_at i h.order (h.covers i lt) in
    let (k, r, lru, same) = buf_used-IsLru j i ys zs (subst (IsLru j) e h.lru) in
    (
      k,
      r,
      record {
        order = (ys ++ zs) ++ i ∷ [];
        lru = lru;
        covers = λ a q. has-used a i ys zs (rw (← e) (h.covers a q));
        only = λ a q. h.only a (rw e (has-used_rev a i ys zs q));
        idx = sym same.idx ∙ h.idx;
        numbers = λ a q. sym (same.content a).3 ∙ h.numbers a q;
      },
    )

update-IsOwn :
    (n x : ℕ) (v : Buf) (j : Journal)
    → v.lru_prev ≡ (j.bufs x).lru_prev
    → v.lru_next ≡ (j.bufs x).lru_next
    → v.idx ≡ (j.bufs x).idx
    → IsOwn n j
    → IsOwn n (record j { bufs = update j.bufs x v })
update-IsOwn n x v j p q i h = record {
  order = h.order;
  lru = update-IsLru j x v h.order p q h.lru;
  covers = h.covers;
  only = h.only;
  idx = h.idx;
  numbers = λ a below. elim (Bool-cases (a == x)) [
    | inl e ↦
        rw (update_hit j.bufs x v a e)
          (i ∙ subst (λ (y : ℕ). (j.bufs y).idx ≡ 8 * n + a) (==→eq a x e) (h.numbers a below))
    | inr e ↦ rw (update_miss j.bufs x v a e) (h.numbers a below)
  ];
}

module _ (n : ℕ) where
  -- What was read, and a journal that is still of that number.
  abbrev pub Owned : Read → Type 0
  Owned r = IsOwn n r.1

  memcpy-Owned :
      (start l : ℕ) (bs : List ℕ) (k : Journal)
      → IsOwn n k
      → Obeys (OwnCall n) Owned (memcpy start l bs k)
  unfolding memcpy
  memcpy-Owned start l bs k h = elim (Bool-cases (leb (start + l) buf_size)) [
    | inl inside ↦ rw inside h
    | inr outside ↦ rw outside tt
  ]

  cached-Owned :
      (o l i : ℕ) (j : Journal) → IsOwn n j → i < buf_cnt → Obeys (OwnCall n) Owned (cached o l j i)
  unfolding cached
  cached-Owned o l i j h lt =
      let (k, r, own) = used-IsOwn n i j h lt in rw r (memcpy-Owned _ l (k.bufs i).bytes k own)

  fill-Owned :
      (o l x : ℕ) (k : Journal) (r : Reply)
      → IsOwn n k
      → Obeys (OwnCall n) Owned (buf_got_read o l x (invalidate k x) r)
  unfolding buf_got_read
  fill-Owned o l x k (Reply.error e) h = tt
  fill-Owned o l x k (Reply.ok got bs) h = elim (Bool-cases (ltb got l)) [
    | inl few ↦ rw few tt
    | inr enough ↦
        let k' = invalidate k x in
        let h' = update-IsOwn n x (invalid (k.bufs x)) k refl refl refl h in
        rw enough (update-IsOwn n x (filled (k'.bufs x) o got bs) k' refl refl refl h')
  ]

  asking-Owned :
      (o l x : ℕ) (k : Journal) → IsOwn n k → x < buf_cnt → Obeys (OwnCall n) Owned (asking o l k x)
  asking-Owned o l x k h lt =
      let number = h.numbers x lt in
      ((h.idx, refl, omega arith, omega arith), λ r. fill-Owned o l x k r h)

  uncached-Owned : (o l : ℕ) (j : Journal) → IsOwn n j → Obeys (OwnCall n) Owned (uncached o l j)
  uncached-Owned o l j h =
      let (x, rest, e) = nonempty h.order (h.covers 0 (omega arith)) in
      let head : j.lru_head ≡ some x = h.lru.head ∙ ap (λ xs. first xs none) e in
      let below : x < buf_cnt =
        h.only x (subst (λ (xs : List ℕ). has x xs ≡ true) (sym e) (has-first x rest)) in
      let (k, r, own) = used-IsOwn n x j h below in
      rw (uncached_lem o l j k x head r) (
        tt,
        λ r1.
            allocated-Obeys (OwnCall n) Owned r1 (asking o l k x) (asking-Owned o l x k own below),
      )
    where
      has-first : (x : ℕ) (xs : List ℕ) → has x (x ∷ xs) ≡ true
      has-first x xs = ground arith

  got_read-Owned :
      (l : ℕ) (j : Journal) (r : Reply) → IsOwn n j → Obeys (OwnCall n) Owned (got_read l j r)
  unfolding got_read
  got_read-Owned l j (Reply.error e) h = tt
  got_read-Owned l j (Reply.ok got bs) h = elim (Bool-cases (ltb got l)) [
    | inl few ↦ rw few tt
    | inr enough ↦ rw enough h
  ]

  unbuffered-Owned :
      (o l : ℕ) (j : Journal) → IsOwn n j → Obeys (OwnCall n) Owned (unbuffered o l j)
  unfolding unbuffered
  unbuffered-Owned o l j h = (
    tt,
    λ r.
        allocated-Obeys (OwnCall n) Owned r (call (Call.pread j.idx o l) (got_read l j))
          (h.idx, λ r'. got_read-Owned l j r' h),
  )

  buffered-Owned :
      (o l : ℕ) (j : Journal) (f : Option ℕ)
      → find o l j.bufs buf_cnt 0 ≡ f
      → IsOwn n j
      → Obeys (OwnCall n) Owned (buffered o l j f)
  unfolding buffered
  buffered-Owned o l j none e h = uncached-Owned o l j h
  buffered-Owned o l j (some i) e h = cached-Owned o l i j h (find-lt o l j.bufs buf_cnt 0 i e).0

  -- A read of any range of a journal touches no other journal's file or buffers.
  pub journal_read-Owned :
      (o l : ℕ) (j : Journal) → IsOwn n j → Obeys (OwnCall n) Owned (journal_read o l j)
  unfolding journal_read
  journal_read-Owned o l j h = elim (Bool-cases (ltb 0 l)) [
    | inr empty ↦ rw empty tt
    | inl some_bytes ↦ rw some_bytes (elim (Bool-cases (leb l buf_size)) [
      | inl fits ↦ rw fits (buffered-Owned o l j (find o l j.bufs buf_cnt 0) refl h)
      | inr big ↦ rw big (unbuffered-Owned o l j h)
    ])
  ]
