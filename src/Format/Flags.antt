-- ===== src/Format/Flags.antt =====
-- The flags of src/upstream/journal-def.h that the program tests: OBJECT_COMPRESSED_XZ and the other
-- flags of an object, and HEADER_INCOMPATIBLE_KEYED_HASH.
use jio.Base.{ℕ, ◌+◌, ◌/◌, ◌%◌, ◌==◌, Bool}

abbrev pub object_compressed_xz : ℕ
object_compressed_xz = 1

abbrev pub object_compressed_lz4 : ℕ
object_compressed_lz4 = 2

abbrev pub object_compressed_zstd : ℕ
object_compressed_zstd = 4

-- The bits are distinct, so that `|` is the sum.
abbrev pub object_compression_mask : ℕ
object_compression_mask = object_compressed_xz + object_compressed_lz4 + object_compressed_zstd

abbrev pub incompatible_keyed_hash : ℕ
incompatible_keyed_hash = 4

-- `flags & flag`, of a flag that is one bit.
abbrev pub has_flag : ℕ → ℕ → Bool
has_flag flags flag = flags / flag % 2 == 1
