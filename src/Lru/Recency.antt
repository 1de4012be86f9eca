-- ===== src/Lru/Recency.antt =====
-- How many buffers were used behind a buffer, and what the use of another one changes of it.
use jio.Base.{
  ℕ, zero, suc, ◌≤◌, ◌<◌, ◌≡◌, ◌≢◌, refl, sym, ap, ◌∙◌, true, false, List, [], ◌∷◌, ◌++◌, arith,
  has, IsDistinct, length, length-append,
}
use jio.Lru.Seg.{has-append}
use jio.Cache.Window.{split_at}

-- `b` stands in the list with at most `m` buffers behind it.
pub record IsRecent (m b : ℕ) (xs : List ℕ) : Type 0 where
  pub before : List ℕ
  pub behind : List ℕ
  pub split : xs ≡ before ++ b ∷ behind
  pub few : length behind ≤ m

tail_eq : (x y : ℕ) (xs ys : List ℕ) → x ∷ xs ≡ y ∷ ys → (x ≡ y) × (xs ≡ ys)
tail_eq x y xs ys e = (cc, cc)

IsRecent-cons : (m b x : ℕ) (xs : List ℕ) → IsRecent m b xs → IsRecent m b (x ∷ xs)
IsRecent-cons m b x xs r = record {
  before = x ∷ r.before;
  behind = r.behind;
  split = ap (λ (ys : List ℕ). x ∷ ys) r.split;
  few = r.few;
}

snoc_split : (b x : ℕ) (us vs : List ℕ) → (us ++ b ∷ vs) ++ x ∷ [] ≡ us ++ b ∷ (vs ++ x ∷ [])
snoc_split b x [] vs = refl
snoc_split b x (u ∷ us) vs = ap (λ (ys : List ℕ). u ∷ ys) (snoc_split b x us vs)

IsRecent-snoc : (m b x : ℕ) (xs : List ℕ) → IsRecent m b xs → IsRecent (suc m) b (xs ++ x ∷ [])
IsRecent-snoc m b x xs r = record {
  before = r.before;
  behind = r.behind ++ x ∷ [];
  split = ap (λ (ys : List ℕ). ys ++ x ∷ []) r.split ∙ snoc_split b x r.before r.behind;
  few = omega (arith, length-append r.behind (x ∷ []), r.few);
}

-- Without another buffer there are no more behind it.
IsRecent-without :
    (m b i : ℕ) (ys zs before behind : List ℕ)
    → i ≢ b
    → ys ++ i ∷ zs ≡ before ++ b ∷ behind
    → length behind ≤ m
    → IsRecent m b (ys ++ zs)
IsRecent-without m b i [] zs [] behind ne e few = absurd (ne (tail_eq i b zs behind e).0)
IsRecent-without m b i [] zs (x ∷ before) behind ne e few = record {
  before = before;
  behind = behind;
  split = (tail_eq i x zs (before ++ b ∷ behind) e).1;
  few = few;
}
IsRecent-without m b i (y ∷ ys) zs [] behind ne e few =
    let (same, rest) = tail_eq y b (ys ++ i ∷ zs) behind e in
    record {
      before = [];
      behind = ys ++ zs;
      split = ap (λ (x : ℕ). x ∷ ys ++ zs) same;
      few = omega (
        arith,
        few,
        length-append ys zs,
        length-append ys (i ∷ zs),
        ap (length {0} {A = ℕ}) rest,
      );
    }
IsRecent-without m b i (y ∷ ys) zs (x ∷ before) behind ne e few = IsRecent-cons m b y (ys ++ zs) (
    IsRecent-without m b i ys zs before behind ne
      (tail_eq y x (ys ++ i ∷ zs) (before ++ b ∷ behind) e).1 few)

-- A buffer that was just used is the last one; the use of another puts one more behind it.
pub IsRecent-last : (b : ℕ) (ys : List ℕ) → IsRecent 0 b (ys ++ b ∷ [])
IsRecent-last b ys = record { before = ys; behind = []; split = refl; few = omega arith }

pub IsRecent-other :
    (m b i : ℕ) (ys zs : List ℕ)
    → i ≢ b
    → IsRecent m b (ys ++ i ∷ zs)
    → IsRecent (suc m) b ((ys ++ zs) ++ i ∷ [])
IsRecent-other m b i ys zs ne r =
    IsRecent-snoc m b i (ys ++ zs) (IsRecent-without m b i ys zs r.before r.behind ne r.split r.few)

pub IsRecent-mono : (m n b : ℕ) (xs : List ℕ) → m ≤ n → IsRecent m b xs → IsRecent n b xs
IsRecent-mono m n b xs le r = record {
  before = r.before;
  behind = r.behind;
  split = r.split;
  few = omega (arith, r.few);
}

-- A list of the numbers below `n` is at least that long.
pub covers-length : (n : ℕ) (xs : List ℕ) → ((i : ℕ) → i < n → has i xs ≡ true) → n ≤ length xs
covers-length zero xs all = omega arith
covers-length (suc n) xs all =
    let (ys, zs, e) = split_at n xs (all n (omega arith)) in
    let rest =
      covers-length n (ys ++ zs) (λ i lt. others n xs ys zs i e lt (all i (omega arith))) in
    omega (arith, rest, ap (length {0} {A = ℕ}) e, length-append ys zs, length-append ys (n ∷ zs))
  where
    others :
        (n : ℕ) (xs ys zs : List ℕ) (i : ℕ)
        → xs ≡ ys ++ n ∷ zs
        → i < n
        → has i xs ≡ true
        → has i (ys ++ zs) ≡ true
    others n xs ys zs i e lt h =
        let h' : has i (ys ++ n ∷ zs) ≡ true = rw (← e) h in
        ground (arith, has-append i ys zs, has-append i ys (n ∷ zs))

clash : false ≡ true → ⊥
clash e = cc

-- The first of eight buffers is none that fewer than seven were used behind.
pub first-other :
    (m b x : ℕ) (xs : List ℕ)
    → m < 7
    → IsRecent m b (x ∷ xs)
    → IsDistinct (x ∷ xs)
    → ((i : ℕ) → i < 8 → has i (x ∷ xs) ≡ true)
    → x ≢ b
first-other m b x xs lt r (out, d) all same = contra r.before r.behind r.split r.few
  where
    enough : 8 ≤ length (x ∷ xs)
    enough = covers-length 8 (x ∷ xs) all

    contra : (before behind : List ℕ) → x ∷ xs ≡ before ++ b ∷ behind → length behind ≤ m → ⊥
    contra [] behind e few =
        absurd (omega (arith, enough, ap (length {0} {A = ℕ}) (tail_eq x b xs behind e).1))
    contra (y ∷ before) behind e few =
        let (first, rest) = tail_eq x y xs (before ++ b ∷ behind) e in
        let inside : has b xs ≡ true = rw rest (ground (arith, has-append b before (b ∷ behind))) in
        absurd (clash (sym out ∙ ap (λ (i : ℕ). has i xs) same ∙ inside))
