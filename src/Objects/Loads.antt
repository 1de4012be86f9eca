-- ===== src/Objects/Loads.antt =====
-- What the loads of a header give, and that they end.
use jio.Base.{ℕ, ◌+◌, ◌^◌, ◌≤◌, ◌<◌, ◌≡◌, ap, ◌∙◌, inl, inr, List, arith, length, take, drop}
use jio.Io.Wp.{Wp, Wp-bind, Wp-errors}
use jio.Lru.{Journal}
use jio.Cache.{journal_read}
use jio.Cache.World.{World}
use jio.Cache.Window.{IsCache}
use jio.Cache.Reads.{Got, Failed, journal_read-Got}
use jio.Format.{ObjectHeader, Header}
use jio.Format.Endian.{ByteOrder, AreBytes}
use jio.Format.Decode.{
  object_header_le, header_le, AreBytes-drop, AreBytes-take, got_object_header-le, got_header-le,
}
use jio.Objects.{journal_get_header, journal_get_object_header}

-- The header of the object at an offset, and that of the journal, as the file has them.
abbrev pub object_at : List ℕ → ℕ → ObjectHeader
object_at file o = object_header_le (take 16 (drop o file))

abbrev pub header_at : List ℕ → Header
header_at file = header_le (take 256 file)

module _ (file : List ℕ) (w : World file) (small : length file < 2 ^ 64) (bytes : AreBytes file)
    (e : ByteOrder) where
  -- A read inside the file fails only as the world does.
  pub read_inside :
      (o l : ℕ) (j : Journal)
      → 0 < l
      → o + l ≤ length file
      → IsCache file j
      → Wp w.Ok w.E (Got file o l) (journal_read o l j)
  read_inside o l j pos inside c =
      Wp-errors w.Ok (Failed file w o l) w.E (Got file o l) (journal_read o l j)
        (journal_read-Got file w small o l pos (omega arith) j c) (only_world o l inside)
    where
      only_world : (o l : ℕ) → o + l ≤ length file → (e : ℕ) → Failed file w o l e → w.E e
      only_world o l inside e (inl h) = h
      only_world o l inside e (inr h) = absurd (omega arith)

  -- On a file of at least 256 bytes and a journal whose buffers are right for it,
  -- `journal_get_header` gives the header of the file, on a host of either byte order, with the
  -- buffers right, or an error of the world.
  pub journal_get_header-le :
      (j : Journal)
      → 256 ≤ length file
      → IsCache file j
      → Wp w.Ok w.E (λ (h, j'). (h ≡ header_at file) × IsCache file j') (journal_get_header e j)
  unfolding journal_get_header
  journal_get_header-le j big c =
      Wp-bind w.Ok w.E (Got file 0 256) (λ (h, j'). (h ≡ header_at file) × IsCache file j')
        (journal_read 0 256 j) _ (read_inside 0 256 j (omega arith) (omega arith) c)
        λ (bs, j') (r, c'). (
          got_header-le e bs r.size (rw r.bytes (AreBytes-take 256 file bytes))
              ∙ ap header_le r.bytes,
          c',
        )

  -- For an offset with at least 16 bytes behind it in the file, `journal_get_object_header` gives
  -- the header of the object there, on a host of either byte order, with the buffers right, or an
  -- error of the world.
  pub journal_get_object_header-le :
      (o : ℕ) (j : Journal)
      → o + 16 ≤ length file
      → IsCache file j
      → Wp w.Ok w.E
          (λ (h, j'). (h ≡ object_at file o) × IsCache file j')
          (journal_get_object_header e o j)
  unfolding journal_get_object_header
  journal_get_object_header-le o j big c =
      Wp-bind w.Ok w.E (Got file o 16) (λ (h, j'). (h ≡ object_at file o) × IsCache file j')
        (journal_read o 16 j) _ (read_inside o 16 j (omega arith) big c)
        λ (bs, j') (r, c'). (
          got_object_header-le e bs r.size
                (rw r.bytes (AreBytes-take 16 (drop o file) (AreBytes-drop o file bytes)))
              ∙ ap object_header_le r.bytes,
          c',
        )
