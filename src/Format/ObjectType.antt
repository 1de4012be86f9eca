-- ===== src/Format/ObjectType.antt =====
-- `ObjectType` of src/upstream/journal-def.h; `max` is `_OBJECT_TYPE_MAX`.
use jio.Base.{ℕ}

abbrev pub unused : ℕ
unused = 0

abbrev pub object_data : ℕ
object_data = 1

abbrev pub field : ℕ
field = 2

abbrev pub entry : ℕ
entry = 3

abbrev pub data_hash_table : ℕ
data_hash_table = 4

abbrev pub field_hash_table : ℕ
field_hash_table = 5

abbrev pub entry_array : ℕ
entry_array = 6

abbrev pub tag : ℕ
tag = 7

abbrev pub max : ℕ
max = 8
