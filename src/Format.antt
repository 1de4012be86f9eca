-- ===== src/Format.antt =====
-- The journal file format as the program reads it: the structures of
-- src/upstream/journal-def.h, and `got_header` and `got_object_header` of src/journals.c, which
-- swap the bytes of what was loaded on a big-endian host.
pub mod ObjectType
pub mod JournalState
pub mod Flags
pub mod Endian
pub mod Decode
pub mod Object
pub mod DecodeObject
use jio.Base.{ℕ, List, take, drop}
use jio.Format.Endian.{ByteOrder, load, le32toh, le64toh}

-- Offsets and sizes of `ObjectHeader`, `HashedObjectHeader`, `HashItem` and `Header`, in bytes.
abbrev pub object_header_size : ℕ
object_header_size = 16

abbrev pub header_struct_size : ℕ
header_struct_size = 256

-- `ObjectHeader`, as it lies in memory.
pub record ObjectHeader : Type 0 where
  pub type : ℕ
  pub flags : ℕ
  pub size : ℕ

-- `Header`, as it lies in memory; `signature` and the reserved bytes are never read.
pub record Header : Type 0 where
  pub compatible_flags : ℕ
  pub incompatible_flags : ℕ
  pub state : ℕ
  pub file_id : List ℕ
  pub header_size : ℕ
  pub arena_size : ℕ
  pub data_hash_table_offset : ℕ
  pub data_hash_table_size : ℕ
  pub field_hash_table_offset : ℕ
  pub field_hash_table_size : ℕ
  pub tail_object_offset : ℕ
  pub n_objects : ℕ
  pub n_entries : ℕ
  pub tail_entry_seqnum : ℕ
  pub head_entry_seqnum : ℕ
  pub entry_array_offset : ℕ
  pub head_entry_realtime : ℕ
  pub tail_entry_realtime : ℕ
  pub tail_entry_monotonic : ℕ
  pub n_data : ℕ
  pub n_fields : ℕ
  pub n_tags : ℕ
  pub n_entry_arrays : ℕ
  pub data_hash_chain_depth : ℕ
  pub field_hash_chain_depth : ℕ

-- The field of `w` bytes at `o` of a structure, as the host reads it.
abbrev pub field_at : ByteOrder → ℕ → ℕ → List ℕ → ℕ
field_at e o w bs = load e (take w (drop o bs))

unfoldable pub object_header_of : ByteOrder → List ℕ → ObjectHeader
object_header_of e bs = record {
  type = field_at e 0 1 bs;
  flags = field_at e 1 1 bs;
  size = field_at e 8 8 bs;
}

unfoldable pub got_object_header : ByteOrder → ObjectHeader → ObjectHeader
got_object_header e o = record o { size = le64toh e o.size }

-- The loaded bytes as a `Header`, with the number that each field of it is by `f w o`.
unfoldable pub header_fields : (ℕ → ℕ → ℕ) → List ℕ → Header
header_fields f id = record {
  compatible_flags = f 4 8;
  incompatible_flags = f 4 12;
  state = f 1 16;
  file_id = id;
  header_size = f 8 88;
  arena_size = f 8 96;
  data_hash_table_offset = f 8 104;
  data_hash_table_size = f 8 112;
  field_hash_table_offset = f 8 120;
  field_hash_table_size = f 8 128;
  tail_object_offset = f 8 136;
  n_objects = f 8 144;
  n_entries = f 8 152;
  tail_entry_seqnum = f 8 160;
  head_entry_seqnum = f 8 168;
  entry_array_offset = f 8 176;
  head_entry_realtime = f 8 184;
  tail_entry_realtime = f 8 192;
  tail_entry_monotonic = f 8 200;
  n_data = f 8 208;
  n_fields = f 8 216;
  n_tags = f 8 224;
  n_entry_arrays = f 8 232;
  data_hash_chain_depth = f 8 240;
  field_hash_chain_depth = f 8 248;
}

unfoldable pub header_of : ByteOrder → List ℕ → Header
unfolding header_fields
header_of e bs = header_fields (λ w o. field_at e o w bs) (take 16 (drop 24 bs))

unfoldable pub got_header : ByteOrder → Header → Header
got_header e h = record h {
  compatible_flags = le32toh e h.compatible_flags;
  incompatible_flags = le32toh e h.incompatible_flags;
  header_size = le64toh e h.header_size;
  arena_size = le64toh e h.arena_size;
  data_hash_table_offset = le64toh e h.data_hash_table_offset;
  data_hash_table_size = le64toh e h.data_hash_table_size;
  field_hash_table_offset = le64toh e h.field_hash_table_offset;
  field_hash_table_size = le64toh e h.field_hash_table_size;
  tail_object_offset = le64toh e h.tail_object_offset;
  n_objects = le64toh e h.n_objects;
  n_entries = le64toh e h.n_entries;
  tail_entry_seqnum = le64toh e h.tail_entry_seqnum;
  head_entry_seqnum = le64toh e h.head_entry_seqnum;
  entry_array_offset = le64toh e h.entry_array_offset;
  head_entry_realtime = le64toh e h.head_entry_realtime;
  tail_entry_realtime = le64toh e h.tail_entry_realtime;
  tail_entry_monotonic = le64toh e h.tail_entry_monotonic;
  n_data = le64toh e h.n_data;
  n_fields = le64toh e h.n_fields;
  n_tags = le64toh e h.n_tags;
  n_entry_arrays = le64toh e h.n_entry_arrays;
  data_hash_chain_depth = le64toh e h.data_hash_chain_depth;
  field_hash_chain_depth = le64toh e h.field_hash_chain_depth;
}
