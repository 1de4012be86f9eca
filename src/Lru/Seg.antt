-- ===== src/Lru/Seg.antt =====
-- A stretch of the doubly linked list, and what a write to a pointer does to it.
use jio.Base.{
  ℕ, ◌≡◌, refl, ◌∙◌, ◌≢◌, true, false, ◌||◌, Option, some, List, [], ◌∷◌, ◌++◌, arith, has,
  IsDistinct,
}
use jio.Lru.{Bufs, set_next, set_prev}

abbrev pub first : List ℕ → Option ℕ → Option ℕ
first [] n = n
first (x ∷ xs) n = some x

abbrev pub last : Option ℕ → List ℕ → Option ℕ
last p [] = p
last p (x ∷ xs) = last (some x) xs

-- The buffers `xs`, linked both ways, with `p` before them and `n` behind.
abbrev pub Seg : Bufs → Option ℕ → List ℕ → Option ℕ → Type 0
Seg bufs p [] n = Unit {0}
Seg bufs p (x ∷ xs) n =
    ((bufs x).lru_prev ≡ p) × ((bufs x).lru_next ≡ first xs n) × Seg bufs (some x) xs n

-- The two stores agree on the links of `xs`.
abbrev pub SameLinks : Bufs → Bufs → List ℕ → Type 0
SameLinks f g xs =
    (a : ℕ)
    → has a xs ≡ true
    → ((f a).lru_prev ≡ (g a).lru_prev) × ((f a).lru_next ≡ (g a).lru_next)

pub first-append : (xs ys : List ℕ) (n : Option ℕ) → first (xs ++ ys) n ≡ first xs (first ys n)
first-append [] ys n = refl
first-append (x ∷ xs) ys n = refl

pub last-append : (p : Option ℕ) (xs ys : List ℕ) → last p (xs ++ ys) ≡ last (last p xs) ys
last-append p [] ys = refl
last-append p (x ∷ xs) ys = last-append (some x) xs ys

pub has-append : (a : ℕ) (xs ys : List ℕ) → has a (xs ++ ys) ≡ (has a xs || has a ys)
has-append a [] ys = refl
has-append a (x ∷ xs) ys = ground (arith, has-append a xs ys)

pub Seg-frame :
    (f g : Bufs) (p : Option ℕ) (xs : List ℕ) (n : Option ℕ)
    → SameLinks f g xs
    → Seg f p xs n
    → Seg g p xs n
Seg-frame f g p [] n same s = tt
Seg-frame f g p (x ∷ xs) n same (a, b, s) = (
  ground (arith, same x),
  ground (arith, same x),
  Seg-frame f g (some x) xs n (λ y i. same y (ground arith)) s,
)

pub Seg-split :
    (f : Bufs) (p : Option ℕ) (xs ys : List ℕ) (n : Option ℕ)
    → Seg f p (xs ++ ys) n
    → Seg f p xs (first ys n) × Seg f (last p xs) ys n
Seg-split f p [] ys n s = (tt, s)
Seg-split f p (x ∷ xs) ys n (a, b, s) =
    let (l, r) = Seg-split f (some x) xs ys n s in ((a, rw (← first-append xs ys n) b, l), r)

pub Seg-join :
    (f : Bufs) (p : Option ℕ) (xs ys : List ℕ) (n : Option ℕ)
    → Seg f p xs (first ys n)
    → Seg f (last p xs) ys n
    → Seg f p (xs ++ ys) n
Seg-join f p [] ys n s t = t
Seg-join f p (x ∷ xs) ys n (a, b, s) t =
    (a, rw (first-append xs ys n) b, Seg-join f (some x) xs ys n s t)

pub last-some : (x : ℕ) (xs : List ℕ) → (l : ℕ) × (last (some x) xs ≡ some l)
last-some x [] = (x, refl)
last-some x (y ∷ ys) = last-some y ys

pub has-last : (x : ℕ) (xs : List ℕ) (l : ℕ) → last (some x) xs ≡ some l → has l (x ∷ xs) ≡ true
has-last x [] l e = ground arith
has-last x (y ∷ ys) l e = ground (arith, has-last y ys l e)

pub set_next-lru_prev :
    (f : Bufs) (l : ℕ) (m : Option ℕ) (x : ℕ) → (set_next f l m x).lru_prev ≡ (f x).lru_prev
unfolding set_next
set_next-lru_prev f l m x = ground arith

pub set_prev-lru_next :
    (f : Bufs) (l : ℕ) (m : Option ℕ) (x : ℕ) → (set_prev f l m x).lru_next ≡ (f x).lru_next
unfolding set_prev
set_prev-lru_next f l m x = ground arith

pub set_next_self : (f : Bufs) (b : ℕ) (m : Option ℕ) → (set_next f b m b).lru_next ≡ m
unfolding set_next
set_next_self f b m = ground arith

pub set_prev_self : (f : Bufs) (b : ℕ) (m : Option ℕ) → (set_prev f b m b).lru_prev ≡ m
unfolding set_prev
set_prev_self f b m = ground arith

pub set_next-ne :
    (f : Bufs) (l : ℕ) (m : Option ℕ) (x : ℕ) → x ≢ l → (set_next f l m x).lru_next ≡ (f x).lru_next
unfolding set_next
set_next-ne f l m x ne = ground arith

pub ne_of_has : (x l : ℕ) (xs : List ℕ) → has x xs ≡ false → has l xs ≡ true → x ≢ l
ne_of_has x l xs out i e = cc

-- The last buffer of a stretch gets a new successor.
pub Seg-set_next :
    (f : Bufs) (p : Option ℕ) (x : ℕ) (xs : List ℕ) (l : ℕ) (n m : Option ℕ)
    → IsDistinct (x ∷ xs)
    → last (some x) xs ≡ some l
    → Seg f p (x ∷ xs) n
    → Seg (set_next f l m) p (x ∷ xs) m
unfolding set_next
Seg-set_next f p x [] l n m d e s = (ground arith, ground arith, tt)
Seg-set_next f p x (y ∷ ys) l n m d e s = (
  set_next-lru_prev f l m x ∙ s.0,
  set_next-ne f l m x (ne_of_has x l (y ∷ ys) d.0 (has-last y ys l e)) ∙ s.1,
  Seg-set_next f (some x) y ys l n m d.1 e s.2,
)

-- The first buffer of a stretch gets a new predecessor.
pub Seg-set_prev :
    (f : Bufs) (p q : Option ℕ) (x : ℕ) (xs : List ℕ) (n : Option ℕ)
    → IsDistinct (x ∷ xs)
    → Seg f p (x ∷ xs) n
    → Seg (set_prev f x q) q (x ∷ xs) n
unfolding set_prev
Seg-set_prev f p q x xs n d s = (
  ground arith,
  ground arith,
  Seg-frame f (set_prev f x q) (some x) xs n (λ a i. ground arith) s.2,
)

-- A write elsewhere leaves a stretch as it is.
pub Seg-set_next_other :
    (f : Bufs) (p : Option ℕ) (xs : List ℕ) (n : Option ℕ) (b : ℕ) (m : Option ℕ)
    → has b xs ≡ false
    → Seg f p xs n
    → Seg (set_next f b m) p xs n
unfolding set_next
Seg-set_next_other f p xs n b m out s =
    Seg-frame f (set_next f b m) p xs n (λ a i. ground (arith, ne_of_has b a xs)) s

pub Seg-set_prev_other :
    (f : Bufs) (p : Option ℕ) (xs : List ℕ) (n : Option ℕ) (b : ℕ) (m : Option ℕ)
    → has b xs ≡ false
    → Seg f p xs n
    → Seg (set_prev f b m) p xs n
unfolding set_prev
Seg-set_prev_other f p xs n b m out s =
    Seg-frame f (set_prev f b m) p xs n (λ a i. ground (arith, ne_of_has b a xs)) s
