-- ===== src/Objects/Own.antt =====
-- The loads of one journal, and its iteration, touch no other journal.
use jio.Base.{ℕ, Option, none, some, inl, inr, ltb, Bool-cases}
use jio.Io.{or_fault}
use jio.Io.Obeys.{Obeys, Obeys-bind}
use jio.Lru.{Journal}
use jio.Cache.{journal_read}
use jio.Cache.Own.{IsOwn, OwnCall, Owned, journal_read-Owned}
use jio.Format.{ObjectHeader, Header, object_header_size, header_struct_size}
use jio.Format.Object.{Body, got_object}
use jio.Format.Endian.{ByteOrder}
use jio.Objects.{
  Iter, advance, journal_get_header, journal_get_object, iter_at, journal_iter_next_object,
}

module _ (n : ℕ) (e : ByteOrder) where
  -- A journal that is still of that number comes with what was loaded.
  abbrev pub With : {A : Type 0} → A × Journal → Type 0
  With (a, j) = IsOwn n j

  pub journal_get_header-Owned :
      (j : Journal) → IsOwn n j → Obeys (OwnCall n) With (journal_get_header e j)
  unfolding journal_get_header
  journal_get_header-Owned j h =
      Obeys-bind (OwnCall n) (Owned n) With (journal_read 0 header_struct_size j) _
        (journal_read-Owned n 0 header_struct_size j h) λ r own. own

  pub journal_get_object-Owned :
      (o size : ℕ) (j : Journal)
      → IsOwn n j
      → Obeys (OwnCall n) With (journal_get_object e o size j)
  unfolding journal_get_object
  journal_get_object-Owned o size j h =
      Obeys-bind (OwnCall n) (Owned n) With (journal_read o size j) _
        (journal_read-Owned n o size j h)
        λ (bs, k) own.
          Obeys-bind (OwnCall n) (λ x. Unit {0}) With (or_fault (got_object e bs)) _
            (decoded (got_object e bs)) λ x u. own
    where
      decoded : (x : Option (ObjectHeader × Body)) → Obeys (OwnCall n) (λ x. Unit {0}) (or_fault x)
      decoded none = tt
      decoded (some x) = tt

  -- The journal of the iteration is of that number.
  abbrev pub Steps : Iter → Type 0
  Steps it = IsOwn n it.journal

  iter_at-Owned :
      (header : Header) (o : ℕ) (it : Iter)
      → IsOwn n it.journal
      → Obeys (OwnCall n) Steps (iter_at e header o it)
  unfolding iter_at
  iter_at-Owned header o it h = elim (Bool-cases (ltb header.tail_object_offset o)) [
    | inl end ↦ rw end h
    | inr inside ↦ rw inside (
        Obeys-bind (OwnCall n) (Owned n) Steps (journal_read o object_header_size it.journal) _
          (journal_read-Owned n o object_header_size it.journal h) λ r own. own)
  ]

  pub journal_iter_next_object-Owned :
      (header : Header) (it : Iter)
      → IsOwn n it.journal
      → Obeys (OwnCall n) Steps (journal_iter_next_object e header it)
  unfolding journal_iter_next_object
  journal_iter_next_object-Owned header it h =
      iter_at-Owned header (advance header it.offset it.object.size) it h
