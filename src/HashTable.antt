-- ===== src/HashTable.antt =====
-- The hash tables of a journal, of src/journals.c: loading one, and the iteration over the
-- objects of one. `*iter_bucket`, `*iter_offset` and `*iter_object_header` are a value.
pub mod Chains
pub mod Steps
pub mod Walk
use jio.Base.{
  ℕ, zero, suc, ◌+◌, ◌*◌, ◌/◌, ◌%◌, List, [], ◌∷◌, Bool, not, ◌&&◌, ltb, leb, ◌==◌, if◌then◌else◌,
  take, drop,
}
use jio.Io.{Step, Call, done, fault, out_of_fuel, call, allocated, assert, ◌>>=◌}
use jio.Lru.{Journal}
use jio.Cache.{journal_read}
use jio.Format.{ObjectHeader, object_header_of, got_object_header, field_at}
use jio.Format.ObjectType
use jio.Format.Endian.{ByteOrder, le64toh}

-- `HashItem`, and `HashedObjectHeader` with the members of a data or field object behind it, where
-- the caller has room for them.
pub record HashItem : Type 0 where
  pub head_hash_offset : ℕ
  pub tail_hash_offset : ℕ

pub data HashedRest : Type 0 where
  only_header : HashedRest
  data_rest : (next_field_offset entry_offset entry_array_offset n_entries : ℕ) → HashedRest
  field_rest : (head_data_offset : ℕ) → HashedRest

pub record HashedObjectHeader : Type 0 where
  pub object : ObjectHeader
  pub hash : ℕ
  pub next_hash_offset : ℕ
  pub rest : HashedRest

-- The structures' sizes: `HashItem`, `HashedObjectHeader`, `DataObject` and `FieldObject`.
abbrev pub hash_item_size : ℕ
hash_item_size = 16

abbrev pub hashed_header_size : ℕ
hashed_header_size = 32

abbrev pub data_object_size : ℕ
data_object_size = 64

abbrev pub field_object_size : ℕ
field_object_size = 40

abbrev pub no_item : HashItem
no_item = record { head_hash_offset = 0; tail_hash_offset = 0 }

-- `table[b]`; the iteration never reads behind the end.
abbrev pub item_at : List HashItem → ℕ → HashItem
item_at [] b = no_item
item_at (it ∷ its) zero = it
item_at (it ∷ its) (suc b) = item_at its b

-- Where a step goes: there are no more objects, or it loads the object at an offset.
pub data Moved : Type 0 where
  ended : ℕ → Moved
  moved : ℕ → ℕ → Moved

-- The `do` loop of `journal_hash_table_iter_next_object`, for at most that many rounds: where
-- it leaves the iteration.
unfoldable pub next_bucket : ℕ → List HashItem → ℕ → ℕ → Moved
next_bucket zero table n b = ended b
next_bucket (suc left) table n b =
    let rest = next_bucket left table n (b + 1) in
    if leb n (b + 1)
    then ended (b + 1)
    else (if (item_at table (b + 1)).head_hash_offset == 0
        then rest
        else moved (b + 1) (item_at table (b + 1)).head_hash_offset)

-- Where a step goes from an object whose `next_hash_offset` is `next`.
unfoldable pub hash_advance : List HashItem → ℕ → ℕ → ℕ → ℕ → Moved
hash_advance table n bucket offset next =
    let b = if offset == 0 then 0 else bucket in
    if not (offset == 0) && not (offset == (item_at table b).tail_hash_offset)
    then moved b next
    else next_bucket n table n b

pub record HashIter : Type 0 where
  pub bucket : ℕ
  pub offset : ℕ
  pub object : HashedObjectHeader
  pub journal : Journal

-- `got_hashtable`: the items of the table that was read.
unfoldable pub got_hashtable : ByteOrder → ℕ → List ℕ → List HashItem
got_hashtable e zero bs = []
got_hashtable e (suc n) bs =
    record {
      head_hash_offset = le64toh e (field_at e 0 8 bs);
      tail_hash_offset = le64toh e (field_at e 8 8 bs);
    }
    ∷ got_hashtable e n (drop 16 bs)

module _ (e : ByteOrder) where
  -- `journal_get_hash_table` at an offset and a size.
  unfoldable pub journal_get_hash_table : ℕ → ℕ → Journal → Step (List HashItem × Journal)
  journal_get_hash_table offset size j = call (Call.malloc size) λ r. allocated r (do
    (bs, j') ← journal_read offset size j
    done (got_hashtable e (size / hash_item_size) bs, j'))

  -- The members behind `HashedObjectHeader` that `got_hash_table_iter_object_header` converts.
  unfoldable pub hashed_rest : ℕ → ℕ → List ℕ → HashedRest
  hashed_rest type size bs =
      let word : ℕ → ℕ = λ o. le64toh e (field_at e o 8 bs) in
      if ltb hashed_header_size size
      then (if type == ObjectType.object_data
          then HashedRest.data_rest (word 32) (word 40) (word 48) (word 56)
          else (if type == ObjectType.field
              then HashedRest.field_rest (word 32)
              else HashedRest.only_header))
      else HashedRest.only_header

  unfoldable pub hashed_header_of : ℕ → List ℕ → HashedObjectHeader
  hashed_header_of size bs = record {
    object = got_object_header e (object_header_of e bs);
    hash = le64toh e (field_at e 16 8 bs);
    next_hash_offset = le64toh e (field_at e 24 8 bs);
    rest = hashed_rest (object_header_of e bs).type size bs;
  }

  -- The assertions of `got_hash_table_iter_object_header` on the size that the caller gave.
  unfoldable pub size_fits : ℕ → ℕ → Bool
  size_fits type size =
      if ltb hashed_header_size size
      then (if type == ObjectType.object_data
          then leb data_object_size size
          else (if type == ObjectType.field then leb field_object_size size else Bool.false))
      else Bool.true

  -- `journal_hash_table_iter_next_object`: a table of `size` bytes, objects loaded up to `osize`.
  unfoldable pub hash_iter_at : ℕ → Moved → HashIter → Step HashIter
  hash_iter_at osize (ended b) it = done (record it { bucket = b; offset = 0 })
  hash_iter_at osize (moved b o) it = do
    (bs, j) ← journal_read o osize it.journal
    assert (size_fits (hashed_header_of osize bs).object.type osize)
        (done (record { bucket = b; offset = o; object = hashed_header_of osize bs; journal = j }))

  unfoldable pub journal_hash_table_iter_next_object :
      List HashItem → ℕ → ℕ → HashIter → Step HashIter
  journal_hash_table_iter_next_object table size osize it = assert (leb hash_item_size size) (
      assert (leb hashed_header_size osize) (
        assert (ltb it.bucket (size / hash_item_size)) (
          hash_iter_at osize
            (hash_advance table (size / hash_item_size) it.bucket it.offset
              it.object.next_hash_offset)
            it)))

  module _ {T : Type 0} (closure : HashIter → T → Step T) where
    -- `journal_hash_table_for_each_dispatch` behind each step, for at most that many steps.
    unfoldable pub hash_for_each : ℕ → List HashItem → ℕ → ℕ → HashIter → T → Step T
    hash_for_each zero table size osize it t = out_of_fuel
    hash_for_each (suc fuel) table size osize it t = do
      it' ← journal_hash_table_iter_next_object table size osize it
      t' ← closure it' t
      let rest = hash_for_each fuel table size osize it' t'
      if it'.offset == 0 then done t' else rest

    unfoldable pub journal_hash_table_for_each : ℕ → List HashItem → ℕ → ℕ → HashIter → T → Step T
    journal_hash_table_for_each fuel table size osize it t =
        hash_for_each fuel table size osize (record it { offset = 0 }) t
