-- ===== src/Verify.antt =====
-- `jio verify hashed-objects`, of src/verify-hashed-objects.c. `siphash24` and `jenkins_hash64`
-- (of src/upstream, copied from systemd), the functions of zstd and `iou_async` are parameters.
pub mod Sound
pub mod Workers
pub mod Walk
pub mod Report
pub mod Own
pub mod Outcome
use jio.Base.{
  ℕ, zero, suc, ◌+◌, ◌*◌, ◌/◌, ◌%◌, List, Option, none, some, ltb, leb, ◌==◌, ◌||◌, if◌then◌else◌,
  length, take, Bool, add64, sub64,
}
use jio.Io.{
  Step, Call, Reply, done, fail, fault, out_of_fuel, call, allocated, assert, enomem, ◌>>=◌,
}
use jio.Lru.{Journal}
use jio.Format.{ObjectHeader, Header}
use jio.Format.ObjectType
use jio.Format.Flags.{
  object_compressed_zstd, object_compression_mask, incompatible_keyed_hash, has_flag,
}
use jio.Format.Object.{Body, DataObject, FieldObject}
use jio.Format.Endian.{ByteOrder}
use jio.Objects.{Iter, journal_get_header, journal_get_object, journal_iter_next_object}

abbrev pub enobufs : ℕ
enobufs = 105

abbrev pub ebadmsg : ℕ
ebadmsg = 74

-- The errors of zstd that the code tells apart.
pub data ZstdError : Type 0 where
  dst_size_too_small memory_allocation other : ZstdError

pub data ZstdResult : Type 0 where
  -- the bytes of the output buffer up to its `pos`
  output : List ℕ → ZstdResult
  failed : ZstdError → ZstdResult

-- `frame_content_size` is none for an error and for an unknown size; `decompress_stream` is
-- given the input and the size of the output buffer.
pub record Zstd : Type 0 where
  pub frame_content_size : List ℕ → Option ℕ
  pub decompress_stream : List ℕ → ℕ → ZstdResult

-- `verify_stats_t`, and the usable sizes of `*iter_object` and `*decompressed`.
pub record Verified : Type 0 where
  pub n_field_objects : ℕ
  pub n_data_objects : ℕ
  pub n_field_bytes : ℕ
  pub n_data_bytes : ℕ
  pub object_usable : ℕ
  pub decompressed_usable : ℕ

-- `zstd_ret_to_errno`.
unfoldable pub zstd_ret_to_errno : ZstdError → ℕ
zstd_ret_to_errno ZstdError.dst_size_too_small = enobufs
zstd_ret_to_errno ZstdError.memory_allocation = enomem
zstd_ret_to_errno ZstdError.other = ebadmsg

-- `if (malloc_usable_size(p) < size) { free(p); p = malloc(size); ... }`
unfoldable pub grow : ℕ → ℕ → Step ℕ
grow usable size =
    if ltb usable size
    then call (Call.malloc size)
        (λ r. elim r [ Reply.ok n _ ↦ done n | Reply.error e ↦ fail enomem ])
    else done usable

-- What the code does behind `ZSTD_decompressStream`.
unfoldable pub decompressed : ℕ → ZstdResult → Step (List ℕ)
decompressed size (ZstdResult.failed e) = fail (zstd_ret_to_errno e)
decompressed size (ZstdResult.output bs) = assert (leb size (length bs)) (done (take size bs))

-- Is `OBJECT_COMPRESSED_ZSTD` set; is any of the bits of `OBJECT_COMPRESSION_MASK`, the lowest three?
abbrev pub is_zstd : ℕ → Bool
is_zstd flags = has_flag flags object_compressed_zstd

abbrev pub is_compressed : ℕ → Bool
is_compressed flags = if flags % (object_compression_mask + 1) == 0 then Bool.false else Bool.true

abbrev pub of_size : Option ℕ → (ℕ → Step (List ℕ × ℕ)) → Step (List ℕ × ℕ)
of_size none k = fail ebadmsg
of_size (some size) k = k size

-- `decompress`: the bytes, and the usable size of the buffer behind it. A `uint64_t` is not above
-- SIZE_MAX where that is 2 ^ 64 - 1.
unfoldable pub decompress : Zstd → ℕ → List ℕ → ℕ → Step (List ℕ × ℕ)
decompress z flags src usable = assert (ltb 0 (length src)) (
    assert (is_zstd flags) (
      of_size (z.frame_content_size src) λ size. (do
        usable' ← grow usable size
        bs ←
            call Call.create_context
              λ r. allocated r (decompressed size (z.decompress_stream src size))
        done (bs, usable'))))

-- `iou_async`: it is given the work for a worker thread, and the closure that is dispatched when the
-- work has completed.
abbrev pub Async : Type 0
Async = Step Verified → (Verified → Step (Journal × Verified)) → Step (Journal × Verified)

module _ (siphash24 : List ℕ → List ℕ → ℕ) (jenkins_hash64 : List ℕ → ℕ) where
  -- `hash`.
  unfoldable pub hash : Header → List ℕ → ℕ
  hash h payload =
      if has_flag h.incompatible_flags incompatible_keyed_hash
      then siphash24 payload h.file_id
      else jenkins_hash64 payload

  module _ (z : Zstd) where
    -- The hash that is computed for a payload, and the state behind it.
    unfoldable pub payload_hash : Header → ℕ → List ℕ → Verified → Step (ℕ × Verified)
    payload_hash h flags payload s =
        if is_compressed flags
        then (do
          (bs, usable) ← decompress z flags payload s.decompressed_usable
          done (hash h bs, record s { decompressed_usable = usable }))
        else done (hash h payload, s)

    -- Behind the `switch` of `verify_hashed_object`; the payload is inside the object.
    unfoldable pub verify_payload : Header → ℕ → ℕ → List ℕ → ℕ → Verified → Step Verified
    verify_payload h flags payload_size payload stored s =
        assert (leb payload_size (length payload)) (do
          (computed, s') ← payload_hash h flags (take payload_size payload) s
          if computed == stored then done s' else fail ebadmsg)

    unfoldable pub verify_hashed_object : Header → ObjectHeader × Body → Verified → Step Verified
    verify_hashed_object h (o, Body.field_body d) s =
        let payload_size = sub64 o.size 40 in
        verify_payload h o.flags payload_size d.payload d.hash (record s {
          n_field_objects = add64 s.n_field_objects 1;
          n_field_bytes = add64 s.n_field_bytes payload_size;
        })
    verify_hashed_object h (o, Body.data_body d) s =
        let payload_size = sub64 o.size 64 in
        verify_payload h o.flags payload_size d.payload d.hash (record s {
          n_data_objects = add64 s.n_data_objects 1;
          n_data_bytes = add64 s.n_data_bytes payload_size;
        })
    verify_hashed_object h (o, _) s = fault

    module _ (iou_async : Async) where
      -- `per_hashed_object`: a large object is verified by a worker thread, with the closure for
      -- what goes on behind it.
      unfoldable pub per_hashed_object :
          Header
          → ObjectHeader × Body
          → Verified
          → (Verified → Step (Journal × Verified))
          → Step (Journal × Verified)
      per_hashed_object h x s closure =
          if leb (x.0).size 16384
          then verify_hashed_object h x s >>= closure
          else iou_async (verify_hashed_object h x s) closure

      module _ (e : ByteOrder) where
        -- `per_object` at an object, up to the next step of the iteration.
        unfoldable pub per_object : Header → Iter → Verified → Step (Journal × Verified)
        per_object h it s =
            if (it.object.type == ObjectType.field) || (it.object.type == ObjectType.object_data)
            then (do
              usable ← grow s.object_usable it.object.size
              (x, j) ← journal_get_object e it.offset it.object.size it.journal
              per_hashed_object h x (record s { object_usable = usable }) λ s'. done (j, s'))
            else done (it.journal, s)

        -- The iteration that `per_object` drives, for at most that many steps.
        unfoldable pub verify_objects : ℕ → Header → Iter → Verified → Step Verified
        verify_objects zero h it s = out_of_fuel
        verify_objects (suc fuel) h it s = do
          it' ← journal_iter_next_object e h it
          if it'.offset == 0
              then done (record s { object_usable = 0; decompressed_usable = 0 })
              else (do
                (j, s') ← per_object h it' s
                verify_objects fuel h (record it' { journal = j }) s')

        -- `per_journal`, from the memory that it is given for the iteration.
        unfoldable pub per_journal : ℕ → Iter → Verified → Step Verified
        per_journal fuel it s = do
          (h, j) ← journal_get_header e it.journal
          verify_objects fuel h (record it { journal = j })
              (record s {
                n_field_objects = 0;
                n_data_objects = 0;
                object_usable = 0;
                decompressed_usable = 0;
              })
