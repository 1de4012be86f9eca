-- ===== src/Lru/Order.antt =====
-- What it means that the pointers of a journal describe a list of buffers.
use jio.Base.{ℕ, ◌≡◌, true, false, Option, none, List, [], ◌∷◌, ◌++◌, arith, has, IsDistinct}
use jio.Lru.{Buf, Bufs, Journal, set_next, set_prev}
use jio.Lru.Seg.{first, last, Seg, has-append}

-- The journal's pointers describe exactly the buffers `xs`, the least recently used one first.
pub record IsLru (j : Journal) (xs : List ℕ) : Type 0 where
  pub head : j.lru_head ≡ first xs none
  pub tail : j.lru_tail ≡ last none xs
  pub chain : Seg j.bufs none xs none
  pub distinct : IsDistinct xs

-- Everything in a buffer but its links.
abbrev pub SameContent : Buf → Buf → Type 0
SameContent b c =
    (b.offset ≡ c.offset)
    × (b.length ≡ c.length)
    × (b.valid ≡ c.valid)
    × (b.idx ≡ c.idx)
    × (b.bytes ≡ c.bytes)

-- The journals differ at most in their links.
pub record SameBuffers (j k : Journal) : Type 0 where
  pub fd : j.fd ≡ k.fd
  pub idx : j.idx ≡ k.idx
  pub content : (a : ℕ) → SameContent (j.bufs a) (k.bufs a)

pub IsDistinct-split :
    (xs ys : List ℕ)
    → IsDistinct (xs ++ ys)
    → IsDistinct xs × IsDistinct ys × ((a : ℕ) → has a xs ≡ true → has a ys ≡ false)
IsDistinct-split [] ys d = (tt, d, λ a i. cc)
IsDistinct-split (x ∷ xs) ys (out, d) =
    let (l, r, apart) = IsDistinct-split xs ys d in
    ((ground (arith, has-append x xs ys), l), r, λ a i. ground (arith, has-append x xs ys, apart a))

pub IsDistinct-join :
    (xs ys : List ℕ)
    → IsDistinct xs
    → IsDistinct ys
    → ((a : ℕ) → has a xs ≡ true → has a ys ≡ false)
    → IsDistinct (xs ++ ys)
IsDistinct-join [] ys d e apart = e
IsDistinct-join (x ∷ xs) ys (out, d) e apart = (
  ground (arith, has-append x xs ys, apart x),
  IsDistinct-join xs ys d e (λ a i. apart a (ground arith)),
)

pub content-set_next :
    (f : Bufs) (b : ℕ) (n : Option ℕ) (a : ℕ) → SameContent (f a) (set_next f b n a)
unfolding set_next
content-set_next f b n a = ground arith

pub content-set_prev :
    (f : Bufs) (b : ℕ) (n : Option ℕ) (a : ℕ) → SameContent (f a) (set_prev f b n a)
unfolding set_prev
content-set_prev f b n a = ground arith

pub SameContent-trans : (b c d : Buf) → SameContent b c → SameContent c d → SameContent b d
SameContent-trans b c d p q = ground arith
