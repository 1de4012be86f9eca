-- ===== src/Samples/Packed.antt =====
-- A test of the verification on a compressed object, with keyed hashes and workers whose result is
-- not heeded.
use jio.Base.{ℕ, ◌+◌, ◌≡◌, refl, List, [], ◌∷◌, ◌++◌, some, arith, take}
use jio.Io.{Call, Reply}
use jio.Io.Wp.{Wp}
use jio.Cache.World.{World}
use jio.Cache.Window.{IsCache}
use jio.Open.{replicate}
use jio.Open.Setup.{opened, opened-IsCache}
use jio.Format.{ObjectHeader, Header, header_fields}
use jio.Format.Object.{Body, body_with}
use jio.Format.Endian.{ByteOrder, AreBytes, le}
use jio.Objects.{Iter, advance}
use jio.Objects.Loads.{header_at}
use jio.Objects.Full.{whole_at}
use jio.Objects.Walk.{Objects}
use jio.Verify.{Zstd, ZstdResult, verify_objects}
use jio.Verify.Sound.{format_hash}
use jio.Verify.Walk.{AreHashed, AllAgree, Failed, verify_objects-AllAgree}
use jio.Samples.{no_error, honest, are_bytes-AreBytes}
use jio.Samples.Walking.{sum}
use jio.Samples.Workers.{unverified, heedless, heedless-Dispatches}

-- The sample file with keyed hashes and the object compressed by zstd; the id of the file has the
-- byte 1, and the stored hash is 9.
abbrev packed_file : List ℕ
packed_file =
    replicate 12 0
    ++ (12 ∷ replicate 11 0)
    ++ (1 ∷ replicate 15 0)
    ++ replicate 48 0
    ++ (0 ∷ 1 ∷ replicate 6 0)
    ++ replicate 40 0
    ++ (0 ∷ 1 ∷ replicate 6 0)
    ++ replicate 112 0
    ++ (1 ∷ 4 ∷ replicate 6 0)
    ++ (72 ∷ replicate 7 0)
    ++ (9 ∷ replicate 7 0)
    ++ replicate 40 0
    ++ (2 ∷ 3 ∷ replicate 6 0)

packed_file-AreBytes : AreBytes packed_file
packed_file-AreBytes = are_bytes-AreBytes packed_file refl

abbrev world : World packed_file
world = honest packed_file

abbrev header : Header
header = header_at packed_file

abbrev object : ObjectHeader
object = record { type = 1; flags = 4; size = 72 }

-- A frame of 3 bytes: the first two of the payload, and 3.
abbrev zstd : Zstd
zstd = record {
  frame_content_size = λ bs. some 3;
  decompress_stream = λ bs n. ZstdResult.output (take 2 bs ++ (3 ∷ []));
}

abbrev keyed : List ℕ → List ℕ → ℕ
keyed bs key = sum bs + sum key

abbrev start : Iter
start = record { offset = 0; object = object; journal = opened 3 }

cache : IsCache packed_file (opened 3)
cache = opened-IsCache packed_file 3

objects-Objects : Objects packed_file 256 256 (object ∷ [])
unfolding le
objects-Objects = (λ p. cc p, omega arith, refl, λ p. cc p, omega arith, omega arith)

abbrev whole : ObjectHeader × Body
whole = (
  object,
  Body.data_body (record {
    hash = 9;
    next_hash_offset = 0;
    next_field_offset = 0;
    entry_offset = 0;
    entry_array_offset = 0;
    n_entries = 0;
    payload = 2 ∷ 3 ∷ 0 ∷ 0 ∷ 0 ∷ 0 ∷ 0 ∷ 0 ∷ [];
  }),
)

whole_lem : whole_at packed_file 256 72 ≡ some whole
unfolding le body_with
whole_lem = refl

no_context : (err : ℕ) → world.Ok Call.create_context (Reply.error err) → world.E 12
no_context err ok = no_error err 0 [] ok

object-AreHashed : AreHashed zstd packed_file 256 (object ∷ [])
object-AreHashed = (
  λ e. (
    whole,
    whole_lem,
    record {
      header = refl;
      inflates = λ e. record {
        some_bytes = omega arith;
        zstd = refl;
        size = 3;
        bs = 2 ∷ 3 ∷ 3 ∷ [];
        known = refl;
        result = refl;
        whole = omega arith;
      };
      size = refl;
    },
    omega arith,
    omega arith,
  ),
  tt,
)

start_lem : advance header 0 72 ≡ 256
unfolding advance header_fields le
start_lem = refl

verify_objects-AllAgree_example :
    Wp world.Ok
      (Failed keyed sum zstd heedless ByteOrder.big header packed_file world
        (omega arith)
        packed_file-AreBytes
        no_context
        (heedless-Dispatches world.E)
        256
        (object ∷ []))
      (λ s. AllAgree zstd (format_hash keyed sum header) packed_file 256 (object ∷ []))
      (verify_objects keyed sum zstd heedless ByteOrder.big 2 header start unverified)
unfolding header_fields le
verify_objects-AllAgree_example =
    verify_objects-AllAgree keyed sum zstd heedless ByteOrder.big header packed_file world
      (omega arith) packed_file-AreBytes no_context (heedless-Dispatches world.E) 2 256
      (object ∷ []) start unverified (omega arith) start_lem objects-Objects object-AreHashed cache
