-- ===== src/Samples/Hashing.antt =====
-- A test of the theorem on the iteration over a hash table.
use jio.Base.{ℕ, ◌+◌, List, [], ◌∷◌}
use jio.Io.{Step, done}
use jio.Io.Wp.{Wp}
use jio.Cache.World.{World}
use jio.Open.Setup.{opened}
use jio.HashTable.{HashItem, HashedRest, HashedObjectHeader, HashIter}
use jio.Samples.{honest, sample_file}

abbrev world : World sample_file
world = honest sample_file

-- The sample file's object is the one of bucket 1; `DataObject` is of 64 bytes.
abbrev table : List HashItem
table = record { head_hash_offset = 256; tail_hash_offset = 256 } ∷ []

abbrev chains : List (List ℕ)
chains = (256 ∷ []) ∷ []

abbrev no_object : HashedObjectHeader
no_object = record {
  object = record { type = 0; flags = 0; size = 0 };
  hash = 0;
  next_hash_offset = 0;
  rest = HashedRest.only_header;
}

abbrev start : HashIter
start = record { bucket = 0; offset = 0; object = no_object; journal = opened 3 }

-- A closure that counts.
abbrev counting : HashIter → ℕ → Step ℕ
counting it t = done (t + 1)

abbrev counts : ℕ → HashedObjectHeader → ℕ → ℕ
counts o h t = t + 1
