-- ===== src/Samples/Profiling.antt =====
-- Tests of the theorems on the profile of entry arrays.
use jio.Base.{ℕ, ◌+◌, refl, List, [], ◌∷◌, ◌++◌, arith}
use jio.Io.Wp.{Wp}
use jio.Cache.World.{World}
use jio.Open.{replicate}
use jio.Open.Setup.{opened, opened-IsCache}
use jio.Format.{ObjectHeader, Header, header_fields}
use jio.Format.Endian.{ByteOrder, AreBytes, le}
use jio.Objects.{Iter, advance}
use jio.Objects.Loads.{header_at}
use jio.Objects.Walk.{Objects}
use jio.EntryArrays.{profile_objects}
use jio.EntryArrays.Counted.{no_arrays, no_arrays-IsCounted}
use jio.EntryArrays.Walk.{AddsUp, arrays_in, profile_objects-AddsUp}
use jio.Samples.{honest, are_bytes-AreBytes}

-- A header with `header_size` and `tail_object_offset` 256, and an entry array of one item, 7.
abbrev pub array_file : List ℕ
array_file =
    replicate 88 0
    ++ (0 ∷ 1 ∷ replicate 6 0)
    ++ replicate 40 0
    ++ (0 ∷ 1 ∷ replicate 6 0)
    ++ replicate 112 0
    ++ (6 ∷ replicate 7 0)
    ++ (32 ∷ replicate 7 0)
    ++ replicate 8 0
    ++ (7 ∷ replicate 7 0)

pub array_file-AreBytes : AreBytes array_file
array_file-AreBytes = are_bytes-AreBytes array_file refl

abbrev world : World array_file
world = honest array_file

abbrev header : Header
header = header_at array_file

abbrev pub array : ObjectHeader
array = record { type = 6; flags = 0; size = 32 }

abbrev start : Iter
start = record { offset = 0; object = array; journal = opened 3 }

pub arrays-Objects : Objects array_file 256 256 (array ∷ [])
unfolding le
arrays-Objects = (λ p. cc p, omega arith, refl, λ p. cc p, omega arith, omega arith)

profile_objects-AddsUp_example :
    Wp world.Ok world.E
      (AddsUp (0 + arrays_in (array ∷ [])))
      (profile_objects (λ bs. bs) ByteOrder.big 2 header start no_arrays)
unfolding header_fields le advance
profile_objects-AddsUp_example =
    profile_objects-AddsUp (λ bs. bs) ByteOrder.big header array_file world (omega arith)
      array_file-AreBytes 2 256 (array ∷ []) start no_arrays (omega arith) refl arrays-Objects
      ((λ is. (omega arith, omega arith)), tt) (opened-IsCache array_file 3) no_arrays-IsCounted
