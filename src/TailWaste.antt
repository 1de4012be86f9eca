-- ===== src/TailWaste.antt =====
-- `jio report tail-waste`, of src/report-tail-waste.c: what is added up for each journal, and
-- the percentages of the summary. The arrays of `tail_waste_t` are functions of the state.
pub mod Broken
pub mod Sums
pub mod Percent
pub mod Concurrent
pub mod Report
pub mod Alone
pub mod Outcome
use jio.Base.{ℕ, ◌+◌, ◌/◌, ◌%◌, ◌^◌, ◌==◌, ltb, leb, if◌then◌else◌, add64, sub64, align64}
use jio.Io.{Step, Call, Reply, done, fail, fault, call, ◌>>=◌}
use jio.Lru.{Journal}
use jio.Format.{ObjectHeader, Header}
use jio.Format.JournalState
use jio.Format.Endian.{ByteOrder}
use jio.Objects.{journal_get_header, journal_get_object_header}

pub record TailWaste : Type 0 where
  pub per_state_counts : ℕ → ℕ
  pub per_state_bytes : ℕ → ℕ
  pub total : ℕ
  pub total_file_size : ℕ
  pub n_journals : ℕ

-- `tail_waste_t tail_waste = {}`.
abbrev pub no_waste : TailWaste
no_waste = record {
  per_state_counts = λ s. 0;
  per_state_bytes = λ s. 0;
  total = 0;
  total_file_size = 0;
  n_journals = 0;
}

-- Where the last object ends.
abbrev pub tail_of : Header → ObjectHeader → ℕ
tail_of h o = add64 h.tail_object_offset (align64 o.size)

-- What `print_tail_waste` adds for a journal of state `s`, size `sz` and tail `tail`.
unfoldable pub add_waste : ℕ → ℕ → ℕ → TailWaste → TailWaste
add_waste s sz tail w = record w {
  per_state_bytes =
      λ i. if i == s then add64 (w.per_state_bytes i) (sub64 sz tail) else w.per_state_bytes i;
  total = add64 w.total (sub64 sz tail);
  total_file_size = add64 w.total_file_size sz;
  per_state_counts =
      λ i. if i == s then (w.per_state_counts i + 1) % 2 ^ 32 else w.per_state_counts i;
  n_journals = (w.n_journals + 1) % 2 ^ 32;
}

unfoldable pub print_tail_waste : ℕ → Header → ObjectHeader → TailWaste → Step TailWaste
print_tail_waste fd h o w = call (Call.fstat fd) λ r. elim r [
  | Reply.error e ↦ fail e
  | Reply.ok sz _ ↦
      if ltb h.state JournalState.max then done (add_waste h.state sz (tail_of h o) w) else fault
]

-- `per_journal_tail_waste`.
unfoldable pub per_journal_tail_waste : ByteOrder → ℕ → Journal → TailWaste → Step TailWaste
per_journal_tail_waste e fd j w = do
  (h, j1) ← journal_get_header e j
  (o, j2) ← journal_get_object_header e h.tail_object_offset j1
  print_tail_waste fd h o w

-- `total >= 100 ? part / (total / 100) : 0` of the summary.
unfoldable pub percent : ℕ → ℕ → ℕ
percent part total = if leb 100 total then part / (total / 100) else 0
