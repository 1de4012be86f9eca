-- ===== src/Lru/Splice.antt =====
-- The writes of `buf_used` that take a buffer out of the list and put it at the end.
use jio.Base.{ℕ, ◌≡◌, ◌∙◌, ◌≢◌, false, Option, none, some, List, ◌∷◌, arith, has, IsDistinct}
use jio.Lru.{Bufs, set_next, set_prev}
use jio.Lru.Seg.{
  last, Seg, set_next-ne, set_prev-lru_next, set_next_self, set_prev_self, Seg-set_next,
  Seg-set_prev, Seg-set_next_other, Seg-set_prev_other,
}
use jio.Lru.Order.{SameContent, content-set_next, content-set_prev}

-- The stores behind the second, third, fourth and last write to the links.
abbrev pub second : Bufs → ℕ → Option ℕ → Bufs
second f z p = set_prev f z p

abbrev pub third : Bufs → ℕ → ℕ → Option ℕ → Bufs
third f b z p = set_next (set_prev f z p) b none

abbrev pub fourth : Bufs → ℕ → ℕ → ℕ → Option ℕ → Bufs
fourth f b z t p = set_next (third f b z p) t (some b)

abbrev pub spliced : Bufs → ℕ → ℕ → ℕ → Option ℕ → Bufs
spliced f b z t p = set_prev (fourth f b z t p) b (some t)

module _ (f : Bufs) (b z t : ℕ) (p : Option ℕ) where
  pub content-spliced : (a : ℕ) → SameContent (f a) (spliced f b z t p a)
  content-spliced a = ground (
    arith,
    content-set_prev f z p a,
    content-set_next (second f z p) b none a,
    content-set_next (third f b z p) t (some b) a,
    content-set_prev (fourth f b z t p) b (some t) a,
  )

  -- Buffers that none of the writes touches stay linked as they were.
  pub spliced-front :
      (ys : List ℕ) (n : Option ℕ)
      → has b ys ≡ false
      → has z ys ≡ false
      → has t ys ≡ false
      → Seg f none ys n
      → Seg (spliced f b z t p) none ys n
  spliced-front ys n ob oz ot s =
      let s1 = Seg-set_prev_other f none ys n z p oz s in
      let s2 = Seg-set_next_other (second f z p) none ys n b none ob s1 in
      let s3 = Seg-set_next_other (third f b z p) none ys n t (some b) ot s2 in
      Seg-set_prev_other (fourth f b z t p) none ys n b (some t) ob s3

  -- The buffers behind `b` follow `p` now, and `b` follows them.
  pub spliced-back :
      (zs : List ℕ) (q : Option ℕ)
      → IsDistinct (z ∷ zs)
      → has b (z ∷ zs) ≡ false
      → last (some z) zs ≡ some t
      → Seg f q (z ∷ zs) none
      → Seg (spliced f b z t p) p (z ∷ zs) (some b)
  spliced-back zs q d ob e s =
      let s1 = Seg-set_prev f q p z zs none d s in
      let s2 = Seg-set_next_other (second f z p) p (z ∷ zs) none b none ob s1 in
      let s3 = Seg-set_next (third f b z p) p z zs t none (some b) d e s2 in
      Seg-set_prev_other (fourth f b z t p) p (z ∷ zs) (some b) b (some t) ob s3

  pub spliced_self :
      b ≢ t → ((spliced f b z t p b).lru_prev ≡ some t) × ((spliced f b z t p b).lru_next ≡ none)
  spliced_self ne = (
    set_prev_self (fourth f b z t p) b (some t),
    set_prev-lru_next (fourth f b z t p) b (some t) b
        ∙ set_next-ne (third f b z p) t (some b) b ne
        ∙ set_next_self (second f z p) b none,
  )
