-- ===== src/Usage/Tally.antt =====
-- What `jio report usage` adds up.
use jio.Base.{
  ℕ, ◌+◌, ◌%◌, ◌^◌, ◌<◌, ◌≡◌, refl, List, [], ◌∷◌, arith, length, ◌==◌, if◌then◌else◌, add64,
  align64, lt→ltb,
}
use jio.Io.{done}
use jio.Io.Wp.{Wp, Wp-mono}
use jio.Cache.World.{World}
use jio.Cache.Window.{IsCache}
use jio.Format.{ObjectHeader, Header}
use jio.Format.ObjectType
use jio.Format.Endian.{ByteOrder, AreBytes}
use jio.Objects.{Iter, journal_iter_objects}
use jio.Objects.Walk.{Objects, All, visit, journal_iter_objects-visit}
use jio.Usage.{Usage, count, per_data_object}

abbrev pub HasType : ObjectHeader → Type 0
HasType o = o.type < ObjectType.max

-- The headers that the closure is called with: each object's, and the last one's again.
abbrev pub seen : ObjectHeader → List ObjectHeader → List ObjectHeader
seen before [] = before ∷ []
seen before (h ∷ hs) = h ∷ seen h hs

-- The number of headers of a type, and the sums of their sizes.
abbrev pub of_type : ℕ → List ObjectHeader → ℕ
of_type t [] = 0
of_type t (h ∷ hs) = (if t == h.type then 1 else 0) + of_type t hs

abbrev pub size_of_type : ℕ → List ObjectHeader → ℕ
size_of_type t [] = 0
size_of_type t (h ∷ hs) = (if t == h.type then h.size else 0) + size_of_type t hs

abbrev pub sizes : List ObjectHeader → ℕ
sizes [] = 0
sizes (h ∷ hs) = h.size + sizes hs

-- `v` is `u` with the headers of `hs` added, in the arithmetic of `uint64_t`.
pub record Adds (hs : List ObjectHeader) (u v : Usage) : Type 0 where
  pub counts : (t : ℕ) → v.count_per_type t % 2 ^ 64 ≡ (u.count_per_type t + of_type t hs) % 2 ^ 64
  pub uses : (t : ℕ) → v.use_per_type t % 2 ^ 64 ≡ (u.use_per_type t + size_of_type t hs) % 2 ^ 64
  pub total : v.use_total % 2 ^ 64 ≡ (u.use_total + sizes hs) % 2 ^ 64
  pub file_size : v.file_size ≡ u.file_size

pub Adds-nil : (u : Usage) → Adds [] u u
Adds-nil u = record {
  counts = λ t. omega arith;
  uses = λ t. omega arith;
  total = omega arith;
  file_size = refl;
}

pub Adds-count :
    (h : ObjectHeader) (hs : List ObjectHeader) (u v : Usage)
    → Adds hs (count h u) v
    → Adds (h ∷ hs) u v
unfolding count
Adds-count h hs u v a = record {
  counts = λ t. ground (arith, a.counts t);
  uses = λ t. ground (arith, a.uses t);
  total = ground (arith, a.total);
  file_size = a.file_size;
}

abbrev both : ℕ → ObjectHeader → Usage × Usage → Usage × Usage
both o h (u, t) = (count h u, count h t)

per_data_object_total :
    (it : Iter) (t : Usage × Usage)
    → HasType it.object
    → per_data_object it t ≡ done (both it.offset it.object t)
unfolding per_data_object
per_data_object_total it (u, t) h = rw (lt→ltb it.object.type 8 h)

visit-Adds :
    (o : ℕ) (hs : List ObjectHeader) (before : ObjectHeader) (u t : Usage)
    → Adds (seen before hs) u (visit both o hs before (u, t)).0
      × Adds (seen before hs) t (visit both o hs before (u, t)).1
visit-Adds o [] before u t = (
  Adds-count before [] u (count before u) (Adds-nil _),
  Adds-count before [] t (count before t) (Adds-nil _),
)
visit-Adds o (h ∷ hs) before u t =
    let (a, b) = visit-Adds (add64 o (align64 h.size)) hs h (count h u) (count h t) in
    (Adds-count h (seen h hs) u _ a, Adds-count h (seen h hs) t _ b)

-- Over a file of objects of known types, given a step more than there are objects, the usage of
-- the journal and that of all journals grow alike, in `uint64_t`: by the number and the sizes of
-- the objects, and by the last one once more, since the closure is also called at the end of the
-- journal.
pub journal_iter_objects-Adds :
    (file : List ℕ) (w : World file) (e : ByteOrder) (header : Header) (fuel : ℕ)
    (hs : List ObjectHeader) (it : Iter) (u t : Usage)
    → length file < 2 ^ 64
    → AreBytes file
    → length hs < fuel
    → Objects file header.tail_object_offset header.header_size hs
    → All HasType hs
    → HasType it.object
    → IsCache file it.journal
    → Wp w.Ok w.E
        (λ (u', t'). Adds (seen it.object hs) u u' × Adds (seen it.object hs) t t')
        (journal_iter_objects e per_data_object fuel header it (u, t))
journal_iter_objects-Adds file w e header fuel hs it u t small bytes lt objs types first c =
    Wp-mono w.Ok w.E _ _ (journal_iter_objects e per_data_object fuel header it (u, t))
      (journal_iter_objects-visit file w small bytes e header per_data_object both HasType
        per_data_object_total fuel hs it (u, t) lt objs types first c)
      λ r p. rw p (visit-Adds header.header_size hs it.object u t)
