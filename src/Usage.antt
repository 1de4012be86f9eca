-- ===== src/Usage.antt =====
-- `jio report usage`, of src/report-usage.c: what is counted for each object. The arrays
-- `count_per_type` and `use_per_type` are functions of the type; a write behind their end faults.
pub mod Tally
pub mod Concurrent
pub mod Report
pub mod Launched
pub mod Alone
pub mod Outcome
use jio.Base.{ℕ, ◌+◌, ◌==◌, ltb, if◌then◌else◌, add64}
use jio.Io.{Step, Call, Reply, done, fail, fault, call, ◌>>=◌}
use jio.Lru.{Journal}
use jio.Format.{ObjectHeader, Header}
use jio.Format.ObjectType
use jio.Format.Endian.{ByteOrder}
use jio.Objects.{Iter, journal_get_header, journal_iter_objects}

pub record Usage : Type 0 where
  pub count_per_type : ℕ → ℕ
  pub use_per_type : ℕ → ℕ
  pub use_total : ℕ
  pub file_size : ℕ
  pub file_count : ℕ

-- As `usage_t` lies in memory that is zero.
abbrev pub no_usage : Usage
no_usage = record {
  count_per_type = λ t. 0;
  use_per_type = λ t. 0;
  use_total = 0;
  file_size = 0;
  file_count = 0;
}

-- One object in one `usage_t`.
unfoldable pub count : ObjectHeader → Usage → Usage
count o u = record u {
  count_per_type = λ t. if t == o.type then add64 (u.count_per_type t) 1 else u.count_per_type t;
  use_per_type = λ t. if t == o.type then add64 (u.use_per_type t) o.size else u.use_per_type t;
  use_total = add64 u.use_total o.size;
}

-- The journal's own `usage` and the `total_usage` of all journals.
unfoldable pub per_data_object : Iter → Usage × Usage → Step (Usage × Usage)
per_data_object it (usage, total) =
    if ltb it.object.type ObjectType.max
    then done (count it.object usage, count it.object total)
    else fault

-- `per_journal`: `n_journals` is counted in Usage/Concurrent.
unfoldable pub per_journal : ByteOrder → ℕ → ℕ → Iter → Usage → Step (Usage × Usage)
per_journal e fuel fd it total = call (Call.fstat fd) λ r. elim r [
  | Reply.error err ↦ fail err
  | Reply.ok size _ ↦ (do
    (header, j) ← journal_get_header e it.journal
    journal_iter_objects e per_data_object fuel header (record it { journal = j })
        (
          record no_usage { file_size = size },
          record total { file_size = add64 total.file_size size },
        ))
]
