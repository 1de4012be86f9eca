-- ===== src/Objects/Walk.antt =====
-- The iteration over the objects of a file, against the list of its objects.
use jio.Base.{
  ℕ, zero, suc, ◌+◌, ◌^◌, ◌≤◌, ◌<◌, ◌≡◌, ◌≢◌, refl, sym, ap, ◌∙◌, List, [], ◌∷◌, arith, length,
  add64, align64, drop, lt→ltb, ltb-false, ne→==,
}
use jio.Io.{Step, done}
use jio.Io.Wp.{Wp, Wp-bind, Wp-mono}
use jio.Cache.{journal_read}
use jio.Cache.World.{World}
use jio.Cache.Window.{IsCache}
use jio.Cache.Reads.{Got}
use jio.Format.{ObjectHeader, Header}
use jio.Format.Endian.{ByteOrder, AreBytes}
use jio.Format.Decode.{object_header_le, AreBytes-drop, AreBytes-take, got_object_header-le}
use jio.Objects.{
  Iter, advance, iter_at, journal_iter_next_object, iter_objects, journal_iter_objects,
}
use jio.Objects.Loads.{object_at, read_inside}

-- The objects of a file from offset `o`: each begins where the one before it ends, aligned, and
-- the last one begins at or before `tail`.
abbrev pub Objects : List ℕ → ℕ → ℕ → List ObjectHeader → Type 0
Objects file tail o [] = tail < o
Objects file tail o (h ∷ hs) =
    (o ≢ 0)
    × (o ≤ tail)
    × (object_at file o ≡ h)
    × (h.size ≢ 0)
    × (o + 16 ≤ length file)
    × Objects file tail (add64 o (align64 h.size)) hs

-- The calls of a closure for the objects `hs` from `o`, and the last one, at offset 0 with the
-- header of the object before it.
abbrev pub visit {ℓ} :
    {T : Type ℓ} → (ℕ → ObjectHeader → T → T) → ℕ → List ObjectHeader → ObjectHeader → T → T
visit g o [] before t = g 0 before t
visit g o (h ∷ hs) before t = visit g (add64 o (align64 h.size)) hs h (g o h t)

abbrev pub All : {A : Type 0} → (A → Type 0) → List A → Type 0
All Q [] = Unit {0}
All Q (x ∷ xs) = Q x × All Q xs

pub advance-object : (h : Header) (o s : ℕ) → o ≢ 0 → s ≢ 0 → advance h o s ≡ add64 o (align64 s)
unfolding advance
advance-object h o s a b = rw (ne→== o 0 a, ne→== s 0 b)

module _ (file : List ℕ) (w : World file) (small : length file < 2 ^ 64) (bytes : AreBytes file)
    (e : ByteOrder) (header : Header) where
  -- What a step gives that has advanced to `o`.
  abbrev pub Stepped : ℕ → ObjectHeader → Iter → Type 0
  Stepped o h it = (it.offset ≡ o) × (it.object ≡ h) × IsCache file it.journal

  pub step_object :
      (o : ℕ) (it : Iter)
      → o ≤ header.tail_object_offset
      → o + 16 ≤ length file
      → IsCache file it.journal
      → Wp w.Ok w.E (Stepped o (object_at file o)) (iter_at e header o it)
  unfolding iter_at
  step_object o it le inside c = rw (ltb-false header.tail_object_offset o le) (
      Wp-bind w.Ok w.E (Got file o 16) (Stepped o (object_at file o)) (journal_read o 16 it.journal)
        _ (read_inside file w small bytes e o 16 it.journal (omega arith) inside c)
        λ (bs, j') (r, c'). (
          refl,
          got_object_header-le e bs r.size
                (rw r.bytes (AreBytes-take 16 (drop o file) (AreBytes-drop o file bytes)))
              ∙ ap object_header_le r.bytes,
          c',
        ))

  pub step_end :
      (o : ℕ) (it : Iter)
      → header.tail_object_offset < o
      → iter_at e header o it ≡ done (record it { offset = 0 })
  unfolding iter_at
  step_end o it lt = rw (lt→ltb header.tail_object_offset o lt)

  -- A closure that makes no call of its own and does not fail at headers that satisfy `Q`.
  module _ {T : Type 0} (closure : Iter → T → Step T) (g : ℕ → ObjectHeader → T → T)
      (Q : ObjectHeader → Type 0)
      (total : (it : Iter) (t : T)
        → Q it.object
        → closure it t ≡ done (g it.offset it.object t)) where
    iter_objects-visit :
        (fuel o : ℕ) (hs : List ObjectHeader) (it : Iter) (t : T)
        → length hs < fuel
        → advance header it.offset it.object.size ≡ o
        → Objects file header.tail_object_offset o hs
        → All Q hs
        → Q it.object
        → IsCache file it.journal
        → Wp w.Ok w.E
            (λ t'. t' ≡ visit g o hs it.object t)
            (iter_objects e closure fuel header it t)
    unfolding iter_objects journal_iter_next_object
    iter_objects-visit zero o hs it t lt a objs all q c = absurd (omega arith)
    iter_objects-visit (suc fuel) o [] it t lt a objs all q c =
        rw (a, step_end o it objs, total (record it { offset = 0 }) t q) refl
    iter_objects-visit (suc fuel) o (h ∷ hs) it t lt a (nz, le, at, pos, inside, rest) all q c =
        rw a (
          Wp-bind w.Ok w.E (Stepped o (object_at file o)) _ (iter_at e header o it) _
            (step_object o it le inside c)
            λ it' (eo, eh, c').
              let same : it'.object ≡ h = eh ∙ at in
              let o' = add64 o (align64 h.size) in
              let moved : advance header it'.offset it'.object.size ≡ o' =
                (λ i. advance header (eo i) (same i).size)
                ∙ advance-object header o h.size nz pos in
              let q' : Q it'.object = rw same all.0 in
              rw (total it' t q', ne→== it'.offset 0 (λ p. nz (sym eo ∙ p)))
                (Wp-mono w.Ok w.E _ _ (iter_objects e closure fuel header it' _)
                  (iter_objects-visit fuel o' hs it' (g it'.offset it'.object t) (omega arith) moved
                    rest all.1 q' c')
                  λ t' p. p ∙ (λ i. visit g o' hs (same i) (g (eo i) (same i) t))))

    -- `journal_iter_objects` over a file of objects that begins behind the header of the journal
    -- and ends at its tail, with a closure that makes no call of its own and does not fail at the
    -- headers of these objects: given a step more than there are objects it ends, or the world
    -- fails, and the closure has been called for each object in order, and once more with offset 0
    -- and the last header.
    pub journal_iter_objects-visit :
        (fuel : ℕ) (hs : List ObjectHeader) (it : Iter) (t : T)
        → length hs < fuel
        → Objects file header.tail_object_offset header.header_size hs
        → All Q hs
        → Q it.object
        → IsCache file it.journal
        → Wp w.Ok w.E
            (λ t'. t' ≡ visit g header.header_size hs it.object t)
            (journal_iter_objects e closure fuel header it t)
    unfolding journal_iter_objects advance
    journal_iter_objects-visit fuel hs it t lt objs all q c =
        iter_objects-visit fuel header.header_size hs (record it { offset = 0 }) t lt refl objs all
          q c
