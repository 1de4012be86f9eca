-- ===== src/Format/Decode.antt =====
-- What the program reads is the file's little-endian value on every host.
use jio.Base.{
  ℕ, zero, suc, ◌+◌, ◌≤◌, ◌≡◌, refl, List, [], ◌∷◌, arith, length, take, drop, length-take,
  length-drop,
}
use jio.Format.{
  ObjectHeader, Header, field_at, object_header_of, got_object_header, header_fields, header_of,
  got_header,
}
use jio.Format.Endian.{ByteOrder, AreBytes, le, load, toh, toh-load}

-- The field of `w` bytes at `o`, by the format's definition.
abbrev pub field_le : List ℕ → ℕ → ℕ → ℕ
field_le bs w o = le (take w (drop o bs))

abbrev pub object_header_le : List ℕ → ObjectHeader
object_header_le bs = record {
  type = field_le bs 1 0;
  flags = field_le bs 1 1;
  size = field_le bs 8 8;
}

abbrev pub header_le : List ℕ → Header
header_le bs = header_fields (field_le bs) (take 16 (drop 24 bs))

pub AreBytes-drop : (n : ℕ) (bs : List ℕ) → AreBytes bs → AreBytes (drop n bs)
AreBytes-drop zero bs h = h
AreBytes-drop (suc n) [] h = tt
AreBytes-drop (suc n) (x ∷ xs) h = AreBytes-drop n xs h.1

pub AreBytes-take : (n : ℕ) (bs : List ℕ) → AreBytes bs → AreBytes (take n bs)
AreBytes-take zero bs h = tt
AreBytes-take (suc n) [] h = tt
AreBytes-take (suc n) (x ∷ xs) h = (h.0, AreBytes-take n xs h.1)

pub length-field : (bs : List ℕ) (w o : ℕ) → o + w ≤ length bs → length (take w (drop o bs)) ≡ w
length-field bs w o h = omega (arith, length-take w (drop o bs), length-drop o bs)

pub field_lem :
    (e : ByteOrder) (bs : List ℕ) (w o : ℕ)
    → o + w ≤ length bs
    → AreBytes bs
    → toh w e (field_at e o w bs) ≡ field_le bs w o
field_lem e bs w o h b =
    toh-load w e (take w (drop o bs)) (length-field bs w o h)
      (AreBytes-take w (drop o bs) (AreBytes-drop o bs b))

load_byte : (e : ByteOrder) (bs : List ℕ) → length bs ≡ 1 → load e bs ≡ le bs
unfolding load le
load_byte ByteOrder.little bs h = refl
load_byte ByteOrder.big [] h = absurd (omega arith)
load_byte ByteOrder.big (x ∷ []) h = refl
load_byte ByteOrder.big (x ∷ y ∷ xs) h = absurd (omega arith)

byte_at :
    (e : ByteOrder) (bs : List ℕ) (o : ℕ) → o + 1 ≤ length bs → field_at e o 1 bs ≡ field_le bs 1 o
byte_at e bs o h = load_byte e (take 1 (drop o bs)) (length-field bs 1 o h)

pub object_header_lem :
    (e : ByteOrder) (bs : List ℕ)
    → 16 ≤ length bs
    → AreBytes bs
    → got_object_header e (object_header_of e bs) ≡ object_header_le bs
unfolding got_object_header object_header_of
object_header_lem e bs l b = λ i. record {
  type = byte_at e bs 0 (omega arith) i;
  flags = byte_at e bs 1 (omega arith) i;
  size = field_lem e bs 8 8 (omega arith) b i;
}

-- On a host of either byte order, `got_object_header` leaves the header of the object as the
-- file has it.
pub got_object_header-le :
    (e : ByteOrder) (bs : List ℕ)
    → length bs ≡ 16
    → AreBytes bs
    → got_object_header e (object_header_of e bs) ≡ object_header_le bs
got_object_header-le e bs l b = object_header_lem e bs (omega arith) b

-- On a host of either byte order, `got_header` leaves every field of the journal's header as
-- the file has it: no field is forgotten, and none is swapped twice.
pub got_header-le :
    (e : ByteOrder) (bs : List ℕ)
    → length bs ≡ 256
    → AreBytes bs
    → got_header e (header_of e bs) ≡ header_le bs
unfolding got_header header_of header_fields
got_header-le e bs l b = λ i. record {
  compatible_flags = field_lem e bs 4 8 (omega arith) b i;
  incompatible_flags = field_lem e bs 4 12 (omega arith) b i;
  state = byte_at e bs 16 (omega arith) i;
  file_id = take 16 (drop 24 bs);
  header_size = field_lem e bs 8 88 (omega arith) b i;
  arena_size = field_lem e bs 8 96 (omega arith) b i;
  data_hash_table_offset = field_lem e bs 8 104 (omega arith) b i;
  data_hash_table_size = field_lem e bs 8 112 (omega arith) b i;
  field_hash_table_offset = field_lem e bs 8 120 (omega arith) b i;
  field_hash_table_size = field_lem e bs 8 128 (omega arith) b i;
  tail_object_offset = field_lem e bs 8 136 (omega arith) b i;
  n_objects = field_lem e bs 8 144 (omega arith) b i;
  n_entries = field_lem e bs 8 152 (omega arith) b i;
  tail_entry_seqnum = field_lem e bs 8 160 (omega arith) b i;
  head_entry_seqnum = field_lem e bs 8 168 (omega arith) b i;
  entry_array_offset = field_lem e bs 8 176 (omega arith) b i;
  head_entry_realtime = field_lem e bs 8 184 (omega arith) b i;
  tail_entry_realtime = field_lem e bs 8 192 (omega arith) b i;
  tail_entry_monotonic = field_lem e bs 8 200 (omega arith) b i;
  n_data = field_lem e bs 8 208 (omega arith) b i;
  n_fields = field_lem e bs 8 216 (omega arith) b i;
  n_tags = field_lem e bs 8 224 (omega arith) b i;
  n_entry_arrays = field_lem e bs 8 232 (omega arith) b i;
  data_hash_chain_depth = field_lem e bs 8 240 (omega arith) b i;
  field_hash_chain_depth = field_lem e bs 8 248 (omega arith) b i;
}
