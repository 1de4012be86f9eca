-- ===== src/Objects/Full.antt =====
-- Loading a whole object.
use jio.Base.{
  ℕ, ◌+◌, ◌^◌, ◌≤◌, ◌<◌, ◌≡◌, refl, ap, ◌∙◌, Option, some, List, arith, length, take, drop,
}
use jio.Io.Wp.{Wp, Wp-bind}
use jio.Lru.{Journal}
use jio.Cache.{journal_read}
use jio.Cache.World.{World}
use jio.Cache.Window.{IsCache}
use jio.Cache.Reads.{Got}
use jio.Format.{ObjectHeader}
use jio.Format.Object.{Body}
use jio.Format.DecodeObject.{object_le, got_object-le}
use jio.Format.Decode.{AreBytes-drop, AreBytes-take}
use jio.Format.Endian.{ByteOrder, AreBytes}
use jio.Objects.{journal_get_object}
use jio.Objects.Loads.{read_inside}

-- The object of that many bytes at an offset of the file, if there is one.
abbrev pub whole_at : List ℕ → ℕ → ℕ → Option (ObjectHeader × Body)
whole_at file o size = object_le (take size (drop o file))

-- `journal_get_object` on a range of the file that holds an object returns that object, on a host
-- of either byte order, with the buffers right, or an error of the world.
pub journal_get_object-le :
    (file : List ℕ) (w : World file) (e : ByteOrder) (o size : ℕ) (j : Journal)
    (object : ObjectHeader × Body)
    → length file < 2 ^ 64
    → AreBytes file
    → 16 ≤ size
    → o + size ≤ length file
    → whole_at file o size ≡ some object
    → IsCache file j
    → Wp w.Ok w.E (λ (x, j'). (x ≡ object) × IsCache file j') (journal_get_object e o size j)
unfolding journal_get_object
journal_get_object-le file w e o size j object small bytes big inside is c =
    Wp-bind w.Ok w.E (Got file o size) _ (journal_read o size j) _
      (read_inside file w small bytes e o size j (omega arith) inside c)
      λ (bs, j') (r, c').
        let good : AreBytes bs =
          rw r.bytes (AreBytes-take size (drop o file) (AreBytes-drop o file bytes)) in
        let length_bs = r.size in
        rw (got_object-le e bs (omega arith) good ∙ ap object_le r.bytes ∙ is) (refl, c')
