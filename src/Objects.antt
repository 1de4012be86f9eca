-- ===== src/Objects.antt =====
-- Loading headers, and the iteration over a journal's objects, of src/journals.c. An iteration's
-- `*iter_offset` and `*iter_object_header` are a value that each step returns anew, with the
-- journal whose buffers it read through.
pub mod Advance
pub mod Loads
pub mod Walk
pub mod Own
pub mod Full
use jio.Base.{ℕ, zero, suc, ◌+◌, ltb, ◌==◌, if◌then◌else◌, add64, align64}
use jio.Io.{Call, call, allocated, or_fault, Step, done, out_of_fuel, ◌>>=◌}
use jio.Lru.{Journal}
use jio.Cache.{journal_read}
use jio.Format.{
  ObjectHeader, Header, object_header_size, header_struct_size, object_header_of, got_object_header,
  header_of, got_header,
}
use jio.Format.Object.{Body, got_object}
use jio.Format.Endian.{ByteOrder}

-- The state of an iteration.
pub record Iter : Type 0 where
  pub offset : ℕ
  pub object : ObjectHeader
  pub journal : Journal

-- Where an iteration goes from an object at `offset`; the zero-sized object is reported on stderr.
unfoldable pub advance : Header → ℕ → ℕ → ℕ
advance h offset size =
    if offset == 0
    then h.header_size
    else (if size == 0 then add64 h.tail_object_offset 1 else add64 offset (align64 size))

module _ (e : ByteOrder) where
  -- `journal_get_header` with `got_header`.
  unfoldable pub journal_get_header : Journal → Step (Header × Journal)
  journal_get_header j = do
    (bs, j') ← journal_read 0 header_struct_size j
    done (got_header e (header_of e bs), j')

  -- `journal_get_object_header` with `got_object_header`.
  unfoldable pub journal_get_object_header : ℕ → Journal → Step (ObjectHeader × Journal)
  journal_get_object_header offset j = do
    (bs, j') ← journal_read offset object_header_size j
    done (got_object_header e (object_header_of e bs), j')

  -- `journal_get_object`.
  unfoldable pub journal_get_object : ℕ → ℕ → Journal → Step ((ObjectHeader × Body) × Journal)
  journal_get_object offset size j = do
    (bs, j') ← journal_read offset size j
    object ← or_fault (got_object e bs)
    done (object, j')

  -- `journal_get_object_full` with `get_object_full_got_header`.
  unfoldable pub journal_get_object_full : ℕ → Journal → Step ((ObjectHeader × Body) × Journal)
  journal_get_object_full offset j = do
    (header, j') ← journal_get_object_header offset j
    call (Call.malloc header.size) λ r. allocated r (journal_get_object offset header.size j')

  -- `journal_iter_next_object` from the offset that it has advanced to, with
  -- `got_iter_object_header`.
  unfoldable pub iter_at : Header → ℕ → Iter → Step Iter
  iter_at h offset it =
      if ltb h.tail_object_offset offset then done (record it { offset = 0 }) else (do
        (bs, j) ← journal_read offset object_header_size it.journal
        done (record {
          offset = offset;
          object = got_object_header e (object_header_of e bs);
          journal = j;
        }))

  unfoldable pub journal_iter_next_object : Header → Iter → Step Iter
  journal_iter_next_object h it = iter_at h (advance h it.offset it.object.size) it

  module _ {T : Type 0} (closure : Iter → T → Step T) where
    -- `journal_iter_objects_dispatch` behind each step, for at most that many steps.
    unfoldable pub iter_objects : ℕ → Header → Iter → T → Step T
    iter_objects zero h it t = out_of_fuel
    iter_objects (suc fuel) h it t = do
      it' ← journal_iter_next_object h it
      t' ← closure it' t
      let rest = iter_objects fuel h it' t'
      if it'.offset == 0 then done t' else rest

    -- `journal_iter_objects`.
    unfoldable pub journal_iter_objects : ℕ → Header → Iter → T → Step T
    journal_iter_objects fuel h it t = iter_objects fuel h (record it { offset = 0 }) t
