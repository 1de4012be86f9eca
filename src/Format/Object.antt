-- ===== src/Format/Object.antt =====
-- `union Object` of src/upstream/journal-def.h, and `got_object` of src/journals.c.
use jio.Base.{
  ℕ, zero, suc, ◌+◌, ◌*◌, ◌/◌, List, [], ◌∷◌, Option, none, some, leb, if◌then◌else◌, length,
  get_elem?, take, drop, sub64,
}
use jio.Format.{ObjectHeader, field_at, object_header_of, got_object_header}
use jio.Format.Endian.{ByteOrder, le64toh}

-- `ObjectType`.
pub data Kind : Type 0 where
  unused data_kind field entry data_hash_table field_hash_table entry_array tag : Kind

abbrev pub kinds : List Kind
kinds =
    Kind.unused ∷ Kind.data_kind ∷ Kind.field ∷ Kind.entry ∷ Kind.data_hash_table
    ∷ Kind.field_hash_table ∷ Kind.entry_array ∷ Kind.tag ∷ []

-- `DataObject`, `FieldObject`, `EntryObject`, `HashTableObject`, `EntryArrayObject`, `TagObject`.
pub record DataObject : Type 0 where
  pub hash : ℕ
  pub next_hash_offset : ℕ
  pub next_field_offset : ℕ
  pub entry_offset : ℕ
  pub entry_array_offset : ℕ
  pub n_entries : ℕ
  pub payload : List ℕ

pub record FieldObject : Type 0 where
  pub hash : ℕ
  pub next_hash_offset : ℕ
  pub head_data_offset : ℕ
  pub payload : List ℕ

-- An item is its `object_offset` and its `hash`.
pub record EntryObject : Type 0 where
  pub seqnum : ℕ
  pub realtime : ℕ
  pub monotonic : ℕ
  pub boot_id : List ℕ
  pub xor_hash : ℕ
  pub items : List (ℕ × ℕ)

pub data Body : Type 0 where
  data_body : DataObject → Body
  field_body : FieldObject → Body
  entry_body : EntryObject → Body
  -- items of `head_hash_offset` and `tail_hash_offset`
  hash_table_body : List (ℕ × ℕ) → Body
  -- `next_entry_array_offset` and the items
  entry_array_body : ℕ → List ℕ → Body
  -- `seqnum`, `epoch` and `tag`
  tag_body : ℕ → ℕ → List ℕ → Body

-- The words at `o`, and the pairs of them, by the number `f o` that is read at each offset.
abbrev pub words : (ℕ → ℕ) → ℕ → ℕ → List ℕ
words f zero o = []
words f (suc n) o = f o ∷ words f n (o + 8)

abbrev pub pairs : (ℕ → ℕ) → ℕ → ℕ → List (ℕ × ℕ)
pairs f zero o = []
pairs f (suc n) o = (f o, f (o + 8)) ∷ pairs f n (o + 16)

-- Items of `w` bytes behind `o` that the loop of `got_object` goes over: all of them lie in
-- the bytes, or it reads behind them.
abbrev pub inside : ℕ → ℕ → ℕ → List ℕ → Body → Option Body
inside o w n bs b = if leb (o + w * n) (length bs) then some b else none

-- `OBJECT_N_ITEMS` for items of `w` bytes at `o`.
abbrev pub n_items : ℕ → ℕ → ℕ → ℕ
n_items o w size = sub64 size o / w

-- The object in the bytes `bs` by its kind, with the number that each word of it is by `f`. The
-- bytes hold the structure in front of its items. None is a failed assertion or a read behind
-- the bytes.
unfoldable pub body_with : (ℕ → ℕ) → Kind → ℕ → List ℕ → Option Body
body_with f Kind.unused size bs = none
body_with f Kind.data_kind size bs = inside 64 0 0 bs (
    Body.data_body (record {
      hash = f 16;
      next_hash_offset = f 24;
      next_field_offset = f 32;
      entry_offset = f 40;
      entry_array_offset = f 48;
      n_entries = f 56;
      payload = drop 64 bs;
    }))
body_with f Kind.field size bs = inside 40 0 0 bs (
    Body.field_body (record {
      hash = f 16;
      next_hash_offset = f 24;
      head_data_offset = f 32;
      payload = drop 40 bs;
    }))
body_with f Kind.entry size bs =
    let n = n_items 64 16 size in
    inside 64 16 n bs (
      Body.entry_body (record {
        seqnum = f 16;
        realtime = f 24;
        monotonic = f 32;
        boot_id = take 16 (drop 40 bs);
        xor_hash = f 56;
        items = pairs f n 64;
      }))
body_with f Kind.data_hash_table size bs =
    let n = n_items 16 16 size in inside 16 16 n bs (Body.hash_table_body (pairs f n 16))
body_with f Kind.field_hash_table size bs =
    let n = n_items 16 16 size in inside 16 16 n bs (Body.hash_table_body (pairs f n 16))
body_with f Kind.entry_array size bs =
    let n = n_items 24 8 size in inside 24 8 n bs (Body.entry_array_body (f 16) (words f n 24))
body_with f Kind.tag size bs = inside 64 0 0 bs (Body.tag_body (f 16) (f 24) (take 32 (drop 32 bs)))

abbrev pub with_kind : (Kind → Option Body) → Option Kind → Option Body
with_kind k none = none
with_kind k (some t) = k t

module _ (e : ByteOrder) where
  abbrev pub swap_words : List ℕ → List ℕ
  swap_words [] = []
  swap_words (x ∷ xs) = le64toh e x ∷ swap_words xs

  abbrev pub swap_pairs : List (ℕ × ℕ) → List (ℕ × ℕ)
  swap_pairs [] = []
  swap_pairs ((a, b) ∷ xs) = (le64toh e a, le64toh e b) ∷ swap_pairs xs

  -- The `switch` of `got_object`.
  unfoldable pub swap_body : Body → Body
  swap_body (Body.data_body d) = Body.data_body (record d {
    hash = le64toh e d.hash;
    next_hash_offset = le64toh e d.next_hash_offset;
    next_field_offset = le64toh e d.next_field_offset;
    entry_offset = le64toh e d.entry_offset;
    entry_array_offset = le64toh e d.entry_array_offset;
    n_entries = le64toh e d.n_entries;
  })
  swap_body (Body.field_body d) = Body.field_body (record d {
    hash = le64toh e d.hash;
    next_hash_offset = le64toh e d.next_hash_offset;
    head_data_offset = le64toh e d.head_data_offset;
  })
  swap_body (Body.entry_body d) = Body.entry_body (record d {
    seqnum = le64toh e d.seqnum;
    realtime = le64toh e d.realtime;
    monotonic = le64toh e d.monotonic;
    xor_hash = le64toh e d.xor_hash;
    items = swap_pairs d.items;
  })
  swap_body (Body.hash_table_body xs) = Body.hash_table_body (swap_pairs xs)
  swap_body (Body.entry_array_body n xs) = Body.entry_array_body (le64toh e n) (swap_words xs)
  swap_body (Body.tag_body s p t) = Body.tag_body (le64toh e s) (le64toh e p) t

  abbrev pub swapped : Option Body → Option Body
  swapped none = none
  swapped (some b) = some (swap_body b)

  -- `got_object` on the bytes that were read for an object: its header and what is behind it.
  unfoldable pub got_object : List ℕ → Option (ObjectHeader × Body)
  got_object bs =
      let h = got_object_header e (object_header_of e bs) in
      elim (swapped (
        with_kind (λ t. body_with (λ o. field_at e o 8 bs) t h.size bs) (get_elem? kinds h.type))) [
          | none ↦ none
          | some b ↦ some (h, b)
        ]
