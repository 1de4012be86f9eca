-- ===== src/Cache/Keeps.antt =====
-- That a buffer keeps a range, and what reads of other ranges change of it.
use mathlib.Core.Path.{subst}
use jio.Base.{
  ℕ, suc, ◌≤◌, ◌<◌, ◌≡◌, ◌≢◌, sym, ap, ◌∙◌, inl, inr, true, none, some, List, [], ◌∷◌, ◌++◌, arith,
  has, ◌==◌, Bool-cases, ==→eq, ==→ne, IsDistinct,
}
use jio.Lru.{Buf, Journal, update, buf_used}
use jio.Lru.Seg.{first, Seg-frame}
use jio.Lru.Order.{IsLru, SameContent}
use jio.Lru.Used.{buf_used-IsLru}
use jio.Lru.Recency.{IsRecent, IsRecent-last, IsRecent-other, IsRecent-mono, first-other}
use jio.Cache.{buf_cnt, hit}
use jio.Cache.Filled.{nonempty}
use jio.Cache.Window.{has-used, has-used_rev, split_at, links-update}

-- Buffer `b` covers the range, and at most `m` buffers were used behind it.
pub record Keeps (m b o l : ℕ) (j : Journal) : Type 0 where
  pub order : List ℕ
  pub lru : IsLru j order
  pub covers : (i : ℕ) → i < buf_cnt → has i order ≡ true
  pub only : (i : ℕ) → has i order ≡ true → i < buf_cnt
  pub below : b < buf_cnt
  pub recent : IsRecent m b order
  pub covered : hit o l (j.bufs b) ≡ true

pub hit-same : (o l : ℕ) (b c : Buf) → SameContent b c → hit o l b ≡ true → hit o l c ≡ true
unfolding hit
hit-same o l b c (p, q, r, i, d) h = rw (← p, ← q, ← r) h

-- The use of a buffer puts it behind all others.
pub used_lem :
    (j : Journal) (i : ℕ) (order : List ℕ)
    → IsLru j order
    → ((a : ℕ) → a < buf_cnt → has a order ≡ true)
    → ((a : ℕ) → has a order ≡ true → a < buf_cnt)
    → i < buf_cnt
    → (ys : List ℕ) × (zs : List ℕ) × (k : Journal) × (order ≡ ys ++ i ∷ zs)
      × (buf_used j i ≡ some k)
      × IsLru k ((ys ++ zs) ++ i ∷ [])
      × ((a : ℕ) → SameContent (j.bufs a) (k.bufs a))
      × ((a : ℕ) → a < buf_cnt → has a ((ys ++ zs) ++ i ∷ []) ≡ true)
      × ((a : ℕ) → has a ((ys ++ zs) ++ i ∷ []) ≡ true → a < buf_cnt)
used_lem j i order lru covers only lt =
    let (ys, zs, e) = split_at i order (covers i lt) in
    let (k, r, lru', same) = buf_used-IsLru j i ys zs (subst (IsLru j) e lru) in
    (
      ys,
      zs,
      k,
      e,
      r,
      lru',
      same.content,
      (λ a h. has-used a i ys zs (rw (← e) (covers a h))),
      λ a h. only a (rw e (has-used_rev a i ys zs h)),
    )

-- The use of a buffer that covers the range.
pub used-Keeps_self :
    (j : Journal) (i o l : ℕ) (order : List ℕ)
    → IsLru j order
    → ((a : ℕ) → a < buf_cnt → has a order ≡ true)
    → ((a : ℕ) → has a order ≡ true → a < buf_cnt)
    → i < buf_cnt
    → hit o l (j.bufs i) ≡ true
    → (k : Journal) × (buf_used j i ≡ some k) × Keeps 0 i o l k
used-Keeps_self j i o l order lru covers only lt h =
    let (ys, zs, k, e, r, lru', same, covers', only') = used_lem j i order lru covers only lt in
    (
      k,
      r,
      record {
        order = (ys ++ zs) ++ i ∷ [];
        lru = lru';
        covers = covers';
        only = only';
        below = lt;
        recent = IsRecent-last i (ys ++ zs);
        covered = hit-same o l (j.bufs i) (k.bufs i) (same i) h;
      },
    )

pub Keeps-mono : (m n b o l : ℕ) (j : Journal) → m ≤ n → Keeps m b o l j → Keeps n b o l j
Keeps-mono m n b o l j le k = record {
  order = k.order;
  lru = k.lru;
  covers = k.covers;
  only = k.only;
  below = k.below;
  recent = IsRecent-mono m n b k.order le k.recent;
  covered = k.covered;
}

-- The use of any buffer.
pub used-Keeps :
    (m b o l i : ℕ) (j : Journal)
    → Keeps m b o l j
    → i < buf_cnt
    → (k : Journal) × (buf_used j i ≡ some k) × Keeps (suc m) b o l k
used-Keeps m b o l i j h lt = elim (Bool-cases (i == b)) [
  | inl e ↦
      let same : i ≡ b = ==→eq i b e in
      let (k, r, kept) = used-Keeps_self j b o l h.order h.lru h.covers h.only h.below h.covered in
      (k, rw same r, Keeps-mono 0 (suc m) b o l k (omega arith) kept)
  | inr e ↦
      let (ys, zs, k, split, r, lru', same, covers', only') =
        used_lem j i h.order h.lru h.covers h.only lt in
      (
        k,
        r,
        record {
          order = (ys ++ zs) ++ i ∷ [];
          lru = lru';
          covers = covers';
          only = only';
          below = h.below;
          recent = IsRecent-other m b i ys zs (==→ne i b e) (subst (IsRecent m b) split h.recent);
          covered = hit-same o l (j.bufs b) (k.bufs b) (same b) h.covered;
        },
      )
]

-- A write to a buffer that leaves its links.
pub update-IsLru :
    (j : Journal) (x : ℕ) (v : Buf) (xs : List ℕ)
    → v.lru_prev ≡ (j.bufs x).lru_prev
    → v.lru_next ≡ (j.bufs x).lru_next
    → IsLru j xs
    → IsLru (record j { bufs = update j.bufs x v }) xs
update-IsLru j x v xs p n h = record {
  head = h.head;
  tail = h.tail;
  chain =
      Seg-frame j.bufs (update j.bufs x v) none xs none (λ a _. links-update j.bufs x v p n a)
        h.chain;
  distinct = h.distinct;
}

-- A buffer is written that covers the range behind it, or is another one.
pub update-Keeps :
    (m b o l x : ℕ) (v : Buf) (j : Journal)
    → Keeps m b o l j
    → v.lru_prev ≡ (j.bufs x).lru_prev
    → v.lru_next ≡ (j.bufs x).lru_next
    → hit o l (update j.bufs x v b) ≡ true
    → Keeps m b o l (record j { bufs = update j.bufs x v })
update-Keeps m b o l x v j h p n covered = record {
  order = h.order;
  lru = update-IsLru j x v h.order p n h.lru;
  covers = h.covers;
  only = h.only;
  below = h.below;
  recent = h.recent;
  covered = covered;
}

-- The head of the list is not a buffer that fewer than seven others were used behind.
pub head-other :
    (m b o l : ℕ) (j : Journal)
    → Keeps m b o l j
    → m < 7
    → (x : ℕ) × (j.lru_head ≡ some x) × (x < buf_cnt) × (x ≢ b)
head-other m b o l j h lt =
    let (x, zs, e) = nonempty h.order (h.covers 0 (omega arith)) in
    (
      x,
      h.lru.head ∙ ap (λ xs. first xs none) e,
      h.only x (subst (λ (xs : List ℕ). has x xs ≡ true) (sym e) (has-first x zs)),
      first-other m b x zs lt (subst (IsRecent m b) e h.recent) (subst IsDistinct e h.lru.distinct)
          (λ i lt'. subst (λ (xs : List ℕ). has i xs ≡ true) e (h.covers i lt')),
    )
  where
    has-first : (x : ℕ) (xs : List ℕ) → has x (x ∷ xs) ≡ true
    has-first x xs = ground arith
