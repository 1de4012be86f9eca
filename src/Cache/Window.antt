-- ===== src/Cache/Window.antt =====
-- Every valid buffer is a window of the file, and `journal_read` keeps it so.
use jio.Base.{
  ℕ, zero, suc, ◌+◌, ◌-◌, ◌^◌, ◌≤◌, ◌<◌, ◌≡◌, refl, sym, ap, ◌∙◌, inl, inr, true, false, none, some,
  List, [], ◌∷◌, ◌++◌, arith, ◌==◌, has, length, ==→eq, take, drop, Bool-cases, take-drop-take,
  drop-drop, length-take, length-drop,
}
use jio.Lru.{Buf, Bufs, Journal, update}
use jio.Lru.Order.{IsLru, SameContent, SameBuffers}
use jio.Lru.Seg.{Seg-frame, has-append}
use jio.Cache.{buf_size, buf_cnt, hit, find}

-- The first `length` bytes of a valid buffer are the file's from its offset.
pub record Holds (file : List ℕ) (b : Buf) : Type 0 where
  pub window : take b.length b.bytes ≡ take b.length (drop b.offset file)
  pub inside : b.length ≤ length file - b.offset
  pub fits : b.length ≤ buf_size
  pub bounded : b.offset + b.length < 2 ^ 64

pub record IsCache (file : List ℕ) (j : Journal) : Type 0 where
  pub order : List ℕ
  pub lru : IsLru j order
  -- The list holds exactly the eight buffers.
  pub covers : (i : ℕ) → i < buf_cnt → has i order ≡ true
  pub only : (i : ℕ) → has i order ≡ true → i < buf_cnt
  pub holds : (i : ℕ) → i < buf_cnt → (j.bufs i).valid ≡ true → Holds file (j.bufs i)

-- The bytes that the caller asked for.
pub record IsRange (file : List ℕ) (o l : ℕ) (bs : List ℕ) : Type 0 where
  pub bytes : bs ≡ take l (drop o file)
  pub size : length bs ≡ l

pub has-used :
    (i b : ℕ) (ys zs : List ℕ) → has i (ys ++ b ∷ zs) ≡ true → has i ((ys ++ zs) ++ b ∷ []) ≡ true
has-used i b ys zs h =
    ground (arith, has-append i ys (b ∷ zs), has-append i (ys ++ zs) (b ∷ []), has-append i ys zs)

pub has-used_rev :
    (i b : ℕ) (ys zs : List ℕ) → has i ((ys ++ zs) ++ b ∷ []) ≡ true → has i (ys ++ b ∷ zs) ≡ true
has-used_rev i b ys zs h =
    ground (arith, has-append i ys (b ∷ zs), has-append i (ys ++ zs) (b ∷ []), has-append i ys zs)

-- A test that passes means that the buffer covers the range, if the range does not wrap.
pub hit_covers :
    (o l : ℕ) (b : Buf)
    → o + l < 2 ^ 64
    → b.offset + b.length < 2 ^ 64
    → hit o l b ≡ true
    → (b.valid ≡ true) × (b.offset ≤ o) × (o + l ≤ b.offset + b.length)
unfolding hit
hit_covers o l b h k t = ground arith

pub hit-valid : (o l : ℕ) (b : Buf) → hit o l b ≡ true → b.valid ≡ true
unfolding hit
hit-valid o l b t = ground arith

pub find-lt :
    (o l : ℕ) (bufs : Bufs) (left i k : ℕ)
    → find o l bufs left i ≡ some k
    → (k < i + left) × (hit o l (bufs k) ≡ true)
unfolding find
find-lt o l bufs zero i k h = cc
find-lt o l bufs (suc left) i k h = ground (arith, find-lt o l bufs left (i + 1) k)

pub split_at :
    (a : ℕ) (xs : List ℕ) → has a xs ≡ true → (ys : List ℕ) × (zs : List ℕ) × (xs ≡ ys ++ a ∷ zs)
split_at a [] h = cc
split_at a (x ∷ xs) h = elim (Bool-cases (a == x)) [
  | inl e ↦ ([], xs, ap (λ (y : ℕ). y ∷ xs) (sym (==→eq a x e)))
  | inr e ↦
      let (ys, zs, p) = split_at a xs (ground arith) in (x ∷ ys, zs, ap (λ (r : List ℕ). x ∷ r) p)
]

pub take-append : (n : ℕ) (xs ys : List ℕ) → length xs ≡ n → take n (xs ++ ys) ≡ xs
take-append zero [] ys e = refl
take-append zero (x ∷ xs) ys e = absurd (omega arith)
take-append (suc n) [] ys e = absurd (omega arith)
take-append (suc n) (x ∷ xs) ys e = ap (λ (r : List ℕ). x ∷ r) (take-append n xs ys (omega arith))

pub range_size : (file : List ℕ) (o l : ℕ) → l ≤ length file - o → length (take l (drop o file)) ≡ l
range_size file o l h = omega (arith, length-take l (drop o file), length-drop o file)

pub window-IsRange :
    (file : List ℕ) (b : Buf) (o l : ℕ)
    → Holds file b
    → b.offset ≤ o
    → o + l ≤ b.offset + b.length
    → IsRange file o l (take l (drop (o - b.offset) b.bytes))
window-IsRange file b o l h p q =
    let k = o - b.offset in
    let at : b.offset + (o - b.offset) ≡ o = omega arith in
    let e : take l (drop k b.bytes) ≡ take l (drop o file) =
      sym (take-drop-take l k b.length b.bytes (omega arith))
      ∙ ap (λ (r : List ℕ). take l (drop k r)) h.window
      ∙ take-drop-take l k b.length (drop b.offset file) (omega arith)
      ∙ ap (take l) (drop-drop k b.offset file ∙ ap (λ (i : ℕ). drop i file) at) in
    let inside = h.inside in
    record { bytes = e; size = ap length e ∙ range_size file o l (omega arith) }

pub Holds-same : (file : List ℕ) (b c : Buf) → SameContent b c → Holds file b → Holds file c
Holds-same file b c (o, l, v, i, d) h = record {
  window = rw (← l, ← d, ← o) h.window;
  inside = omega arith;
  fits = omega arith;
  bounded = omega arith;
}

pub update_hit : (f : Bufs) (b : ℕ) (v : Buf) (i : ℕ) → (i == b) ≡ true → update f b v i ≡ v
update_hit f b v i e = rw e

pub update_miss : (f : Bufs) (b : ℕ) (v : Buf) (i : ℕ) → (i == b) ≡ false → update f b v i ≡ f i
update_miss f b v i e = rw e

pub links-update :
    (f : Bufs) (b : ℕ) (v : Buf)
    → v.lru_prev ≡ (f b).lru_prev
    → v.lru_next ≡ (f b).lru_next
    → (a : ℕ)
    → ((f a).lru_prev ≡ (update f b v a).lru_prev) × ((f a).lru_next ≡ (update f b v a).lru_next)
links-update f b v p n a = elim (Bool-cases (a == b)) [
  | inl e ↦ rw (update_hit f b v a e, ==→eq a b e) (sym p, sym n)
  | inr e ↦ rw (update_miss f b v a e) (refl, refl)
]

module _ (file : List ℕ) where
  pub IsCache-used :
      (j k : Journal) (b : ℕ) (ys zs : List ℕ) (c : IsCache file j)
      → c.order ≡ ys ++ b ∷ zs
      → IsLru k ((ys ++ zs) ++ b ∷ [])
      → SameBuffers j k
      → IsCache file k
  IsCache-used j k b ys zs c e l s = record {
    order = (ys ++ zs) ++ b ∷ [];
    lru = l;
    covers = λ i h. has-used i b ys zs (rw (← e) (c.covers i h));
    only = λ i h. c.only i (rw e (has-used_rev i b ys zs h));
    holds = λ i h v.
        Holds-same file (j.bufs i) (k.bufs i) (s.content i) (c.holds i h ((s.content i).2 ∙ v));
  }

  -- A buffer is written: the links are as they were, and what is there is the file's, if valid.
  pub IsCache-update :
      (j : Journal) (b : ℕ) (v : Buf) (c : IsCache file j)
      → v.lru_prev ≡ (j.bufs b).lru_prev
      → v.lru_next ≡ (j.bufs b).lru_next
      → (v.valid ≡ true → Holds file v)
      → IsCache file (record j { bufs = update j.bufs b v })
  IsCache-update j b v c p n h = record {
    order = c.order;
    lru = record {
      head = c.lru.head;
      tail = c.lru.tail;
      chain =
          Seg-frame j.bufs (update j.bufs b v) none c.order none
            (λ a _. links-update j.bufs b v p n a) c.lru.chain;
      distinct = c.lru.distinct;
    };
    covers = c.covers;
    only = c.only;
    holds = λ i lt t. elim (Bool-cases (i == b)) [
      | inl e ↦ rw (update_hit j.bufs b v i e) (h (rw (← update_hit j.bufs b v i e) t))
      | inr e ↦ rw (update_miss j.bufs b v i e) (c.holds i lt (rw (← update_miss j.bufs b v i e) t))
    ];
  }
