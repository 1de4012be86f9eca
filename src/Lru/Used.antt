-- ===== src/Lru/Used.antt =====
-- `buf_used` against the list of buffers in order of use.
use mathlib.Core.List.{append-nil}
use jio.Base.{
  ℕ, ◌≡◌, refl, sym, ◌∙◌, ◌≢◌, true, false, Option, none, some, List, [], ◌∷◌, ◌++◌, arith, has,
  IsDistinct, ◌==◌, eq→==, ne→==,
}
use jio.Lru.{Journal, is, unlink_prev, unlink_next, link_tail, and_then, relink, buf_used}
use jio.Lru.Seg.{
  first, last, Seg, last-append, has-append, Seg-set_next_other, Seg-split, Seg-join, has-last,
  last-some, ne_of_has, set_next-lru_prev, set_next-ne, Seg-set_next,
}
use jio.Lru.Splice.{third, spliced, content-spliced, spliced-front, spliced-back, spliced_self}
use jio.Lru.Order.{
  IsLru, SameBuffers, IsDistinct-split, IsDistinct-join, content-set_next, SameContent-trans,
}

not_has-cons : (a x : ℕ) (xs : List ℕ) → has a (x ∷ xs) ≡ false → (has a xs ≡ false) × (x ≢ a)
not_has-cons a x xs out = ground arith

has_self : (a : ℕ) (xs : List ℕ) → has a (a ∷ xs) ≡ true
has_self a xs = ground arith

has-cons : (a x : ℕ) (xs : List ℕ) → has a xs ≡ true → has a (x ∷ xs) ≡ true
has-cons a x xs i = ground arith

apart_sym :
    (a : ℕ) (xs ys : List ℕ)
    → (has a xs ≡ true → has a ys ≡ false)
    → has a ys ≡ true
    → has a xs ≡ false
apart_sym a xs ys h i = ground arith

first-snoc :
    (ys : List ℕ) (z : ℕ) (zs : List ℕ) (b : ℕ)
    → first (ys ++ z ∷ zs) none ≡ first ((ys ++ z ∷ zs) ++ b ∷ []) none
first-snoc [] z zs b = refl
first-snoc (y ∷ ys) z zs b = refl

-- The order of use behind a use of `b`.
IsDistinct-used :
    (ys zs : List ℕ) (b : ℕ) → IsDistinct (ys ++ b ∷ zs) → IsDistinct ((ys ++ zs) ++ b ∷ [])
IsDistinct-used ys zs b d =
    let (l, r, apart) = IsDistinct-split ys (b ∷ zs) d in
    IsDistinct-join (ys ++ zs) (b ∷ [])
      (IsDistinct-join ys zs l r.1 (λ a i. ground (arith, apart a))) (refl, tt)
      (λ a i. ground (arith, has-append a ys zs, apart a))

-- The store behind the first write: what stood before `b` is followed by what stands behind it.
record IsUnlinked (j k : Journal) (b z : ℕ) (ys zs : List ℕ) : Type 0 where
  head : k.lru_head ≡ first (ys ++ z ∷ zs) none
  tail : k.lru_tail ≡ j.lru_tail
  front : Seg k.bufs none ys (some z)
  back : Seg k.bufs (some b) (z ∷ zs) none
  prev : (k.bufs b).lru_prev ≡ last none ys
  next : (k.bufs b).lru_next ≡ some z
  same : SameBuffers j k

unlink_prev-IsUnlinked :
    (j : Journal) (b z : ℕ) (ys zs : List ℕ)
    → IsLru j (ys ++ b ∷ z ∷ zs)
    → IsUnlinked j (unlink_prev (j.bufs b).lru_prev (j.bufs b).lru_next j) b z ys zs
unfolding unlink_prev
unlink_prev-IsUnlinked j b z [] zs h =
    rw (h.chain.0, h.chain.1)
      (record {
        head = refl;
        tail = refl;
        front = tt;
        back = h.chain.2;
        prev = h.chain.0;
        next = h.chain.1;
        same = record { fd = refl; idx = refl; content = λ a. (refl, refl, refl, refl, refl) };
      })
unlink_prev-IsUnlinked j b z (y ∷ ys) zs h =
    let (front, (p, n, back)) = Seg-split j.bufs none (y ∷ ys) (b ∷ z ∷ zs) none h.chain in
    let (dys, dzs, apart) = IsDistinct-split (y ∷ ys) (b ∷ z ∷ zs) h.distinct in
    let (l, e) = last-some y ys in
    let out : has l (b ∷ z ∷ zs) ≡ false = apart l (has-last y ys l e) in
    let (tail_out, b_ne) = not_has-cons l b (z ∷ zs) out in
    rw (p, n, e)
      (record {
        head = h.head;
        tail = refl;
        front = Seg-set_next j.bufs none y ys l (some b) (some z) dys e front;
        back = Seg-set_next_other j.bufs (some b) (z ∷ zs) none l (some z) tail_out back;
        prev = set_next-lru_prev j.bufs l (some z) b ∙ p;
        next = set_next-ne j.bufs l (some z) b b_ne ∙ n;
        same = record { fd = refl; idx = refl; content = content-set_next j.bufs l (some z) };
      })

abbrev relinked : Journal → ℕ → ℕ → ℕ → Option ℕ → Journal
relinked k b z t p = record k { bufs = spliced k.bufs b z t p; lru_tail = some b }

splice_lem :
    (k : Journal) (b z t : ℕ) (p : Option ℕ)
    → (k.bufs b).lru_next ≡ some z
    → (k.bufs b).lru_prev ≡ p
    → k.lru_tail ≡ some t
    → and_then
        (unlink_next b (k.bufs b).lru_next (k.bufs b).lru_prev k)
        (λ k'. link_tail b k'.lru_tail k')
      ≡ some (relinked k b z t p)
unfolding unlink_next link_tail
splice_lem k b z t p n q e =
    (λ i. and_then (unlink_next b (n i) (q i) k) (λ k'. link_tail b k'.lru_tail k'))
    ∙ (λ i. link_tail b (e i) (record k { bufs = third k.bufs b z p }))

relinked-IsLru :
    (j k : Journal) (b z t : ℕ) (ys zs : List ℕ)
    → IsDistinct (ys ++ b ∷ z ∷ zs)
    → last (some z) zs ≡ some t
    → IsUnlinked j k b z ys zs
    → IsLru (relinked k b z t (last none ys)) ((ys ++ z ∷ zs) ++ b ∷ [])
relinked-IsLru j k b z t ys zs d e u =
    let (dys, (ob, dzs), apart) = IsDistinct-split ys (b ∷ z ∷ zs) d in
    let p = last none ys in
    let it : has t (z ∷ zs) ≡ true = has-last z zs t e in
    let front =
      spliced-front k.bufs b z t p ys (some z)
        (apart_sym b ys (b ∷ z ∷ zs) (apart b) (has_self b (z ∷ zs)))
        (apart_sym z ys (b ∷ z ∷ zs) (apart z) (has-cons z b (z ∷ zs) (has_self z zs)))
        (apart_sym t ys (b ∷ z ∷ zs) (apart t) (has-cons t b (z ∷ zs) it)) u.front in
    let back = spliced-back k.bufs b z t p zs (some b) dzs ob e u.back in
    let self = spliced_self k.bufs b z t p (ne_of_has b t (z ∷ zs) ob it) in
    record {
      head = u.head ∙ first-snoc ys z zs b;
      tail = sym (last-append none (ys ++ z ∷ zs) (b ∷ []));
      chain =
          Seg-join (spliced k.bufs b z t p) none (ys ++ z ∷ zs) (b ∷ []) none
            (Seg-join (spliced k.bufs b z t p) none ys (z ∷ zs) (some b) front back)
            (self.0 ∙ sym (last-append none ys (z ∷ zs) ∙ e), self.1, tt);
      distinct = IsDistinct-used ys (z ∷ zs) b d;
    }

-- A buffer in use that is not the last of the list.
relink-IsLru :
    (j : Journal) (b z : ℕ) (ys zs : List ℕ)
    → IsLru j (ys ++ b ∷ z ∷ zs)
    → (k : Journal) × (relink j b ≡ some k) × IsLru k ((ys ++ z ∷ zs) ++ b ∷ []) × SameBuffers j k
unfolding relink
relink-IsLru j b z ys zs h =
    let u = unlink_prev-IsUnlinked j b z ys zs h in
    let k = unlink_prev (j.bufs b).lru_prev (j.bufs b).lru_next j in
    let (t, e) = last-some z zs in
    let p = last none ys in
    let tail : k.lru_tail ≡ some t = u.tail ∙ h.tail ∙ last-append none ys (b ∷ z ∷ zs) ∙ e in
    (
      relinked k b z t p,
      splice_lem k b z t p u.next u.prev tail,
      relinked-IsLru j k b z t ys zs h.distinct e u,
      record {
        fd = u.same.fd;
        idx = u.same.idx;
        content = λ a.
            SameContent-trans (j.bufs a) (k.bufs a) (spliced k.bufs b z t p a) (u.same.content a)
              (content-spliced k.bufs b z t p a);
      },
    )

is_tail : (o : Option ℕ) (b t : ℕ) → o ≡ some t → is o b ≡ (t == b)
is_tail o b t e = rw e

buf_used_tail : (j : Journal) (b : ℕ) → is j.lru_tail b ≡ true → buf_used j b ≡ some j
unfolding buf_used
buf_used_tail j b h = rw h

buf_used_other : (j : Journal) (b : ℕ) → is j.lru_tail b ≡ false → buf_used j b ≡ relink j b
unfolding buf_used
buf_used_other j b h = rw h

-- `buf_used b` never follows a null pointer: it moves `b` to the end of the order of use, and
-- changes no buffer but for its links.
pub buf_used-IsLru :
    (j : Journal) (b : ℕ) (ys zs : List ℕ)
    → IsLru j (ys ++ b ∷ zs)
    → (k : Journal) × (buf_used j b ≡ some k) × IsLru k ((ys ++ zs) ++ b ∷ []) × SameBuffers j k
buf_used-IsLru j b ys [] h =
    let tail : j.lru_tail ≡ some b = h.tail ∙ last-append none ys (b ∷ []) in
    (
      j,
      buf_used_tail j b (is_tail j.lru_tail b b tail ∙ eq→== b b refl),
      rw append-nil h,
      record { fd = refl; idx = refl; content = λ a. (refl, refl, refl, refl, refl) },
    )
buf_used-IsLru j b ys (z ∷ zs) h =
    let (t, e) = last-some z zs in
    let tail : j.lru_tail ≡ some t = h.tail ∙ last-append none ys (b ∷ z ∷ zs) ∙ e in
    let (dys, (ob, dzs), apart) = IsDistinct-split ys (b ∷ z ∷ zs) h.distinct in
    let ne = ne_of_has b t (z ∷ zs) ob (has-last z zs t e) in
    let (k, r, lru, same) = relink-IsLru j b z ys zs h in
    (
      k,
      buf_used_other j b (is_tail j.lru_tail b t tail ∙ ne→== t b (λ p. ne (sym p))) ∙ r,
      lru,
      same,
    )
