-- ===== src/Samples/Reading.antt =====
-- Tests of the theorems on reading a journal.
use jio.Base.{◌-◌, ◌^◌, ◌≡◌, refl, [], ◌∷◌, ◌++◌, some, arith, true, take}
use jio.Io.{done, fault}
use jio.Io.Wp.{Wp}
use jio.Lru.{Buf, Journal, update, buf_used}
use jio.Lru.Order.{IsLru, SameBuffers}
use jio.Lru.Used.{buf_used-IsLru}
use jio.Cache.{Read, journal_read}
use jio.Cache.Lasting.{Broken, read_all, journal_read-lasting}
use jio.Cache.World.{World}
use jio.Cache.Window.{IsCache, Holds, IsCache-update}
use jio.Cache.Reads.{Got, Failed, journal_read-Got}
use jio.Cache.Overflow.{journal_read-Wraps}
use jio.Open.Setup.{opened, opened-IsCache, opened-IsLru}
use jio.Format.{header_of, got_header}
use jio.Format.Object.{got_object}
use jio.Format.DecodeObject.{object_le, got_object-le}
use jio.Format.Decode.{header_le, got_header-le, AreBytes-take}
use jio.Format.Endian.{ByteOrder, le, load, toh, toh-load}
use jio.Samples.{honest, sample_file, sample_object, sample_file-AreBytes, sample_object-AreBytes}

abbrev world : World sample_file
world = honest sample_file

buf_used-IsLru_example :
    (k : Journal) × (buf_used (opened 3) 2 ≡ some k)
    × IsLru k (((0 ∷ 1 ∷ []) ++ 3 ∷ 4 ∷ 5 ∷ 6 ∷ 7 ∷ []) ++ 2 ∷ [])
    × SameBuffers (opened 3) k
buf_used-IsLru_example =
    buf_used-IsLru (opened 3) 2 (0 ∷ 1 ∷ []) (3 ∷ 4 ∷ 5 ∷ 6 ∷ 7 ∷ []) (opened-IsLru 3)

journal_read-Got_example :
    Wp world.Ok
      (Failed sample_file world 256 16)
      (Got sample_file 256 16)
      (journal_read 256 16 (opened 3))
journal_read-Got_example =
    journal_read-Got sample_file world (omega arith) 256 16 (omega arith) (omega arith) (opened 3)
      (opened-IsCache sample_file 3)

journal_read-lasting_example :
    Wp world.Ok
      (Broken sample_file world (omega arith))
      (λ k. (r : Read) × (journal_read 256 16 k ≡ done r) × Got sample_file 256 16 r)
      (read_all ((256, 16) ∷ (0, 256) ∷ (272, 56) ∷ []) (opened 3))
journal_read-lasting_example =
    journal_read-lasting sample_file world (omega arith) 256 16 ((0, 256) ∷ (272, 56) ∷ [])
      (opened 3) (omega arith) (omega arith) (omega arith) (omega arith)
      (omega arith, omega arith, (omega arith, omega arith, tt)) (opened-IsCache sample_file 3)

-- A buffer that holds the whole sample file, and the journal with it as the first buffer.
abbrev whole_buf : Buf
whole_buf = record {
  lru_prev = ((opened 3).bufs 0).lru_prev;
  lru_next = ((opened 3).bufs 0).lru_next;
  offset = 0;
  length = 328;
  valid = true;
  idx = 0;
  bytes = sample_file;
}

abbrev warm : Journal
warm = record (opened 3) { bufs = update (opened 3).bufs 0 whole_buf }

whole_buf-Holds : Holds sample_file whole_buf
whole_buf-Holds = record {
  window = refl;
  inside = omega arith;
  fits = omega arith;
  bounded = omega arith;
}

warm-IsCache : IsCache sample_file warm
warm-IsCache =
    IsCache-update sample_file (opened 3) 0 whole_buf (opened-IsCache sample_file 3) refl refl
      (λ v. whole_buf-Holds)

journal_read-Wraps_example : journal_read (2 ^ 64 - 8) 16 warm ≡ fault
journal_read-Wraps_example =
    journal_read-Wraps sample_file warm (2 ^ 64 - 8) 16 warm-IsCache (omega arith) (omega arith)
      (record {
        valid = refl;
        start = omega arith;
        wraps = omega arith;
        below = omega arith;
        room = omega arith;
      })

got_header-le_example :
    got_header ByteOrder.big (header_of ByteOrder.big (take 256 sample_file))
    ≡ header_le (take 256 sample_file)
got_header-le_example =
    got_header-le ByteOrder.big (take 256 sample_file) refl
      (AreBytes-take 256 sample_file sample_file-AreBytes)

got_object-le_example : got_object ByteOrder.big sample_object ≡ object_le sample_object
got_object-le_example =
    got_object-le ByteOrder.big sample_object (omega arith) sample_object-AreBytes

toh-load_example : toh 2 ByteOrder.big (load ByteOrder.big (1 ∷ 2 ∷ [])) ≡ le (1 ∷ 2 ∷ [])
toh-load_example = toh-load 2 ByteOrder.big (1 ∷ 2 ∷ []) refl (omega arith, (omega arith, tt))
