-- ===== src/Reclaim.antt =====
-- `jio reclaim tail-waste`, of src/reclaim-tail-waste.c. The counters of type `unsigned` wrap at
-- 2 ^ 32.
pub mod Safety
pub mod Summary
use jio.Base.{ℕ, ◌+◌, ◌%◌, ◌^◌, ◌==◌, if◌then◌else◌, add64, sub64, align64}
use jio.Io.{Step, Call, Reply, done, fail, call, ◌>>=◌}
use jio.Lru.{Journal}
use jio.Format.{ObjectHeader, Header}
use jio.Format.JournalState
use jio.Format.Endian.{ByteOrder}
use jio.Objects.{journal_get_header, journal_get_object_header}
use jio.TailWaste.{tail_of}

-- `tail_waste_t`.
pub record Reclaimed : Type 0 where
  pub n_journals : ℕ
  pub n_reclaimed : ℕ
  pub n_ignored : ℕ
  pub n_errored : ℕ
  pub n_mules : ℕ
  pub reclaimed_bytes : ℕ
  pub ignored_bytes : ℕ
  pub errored_bytes : ℕ

-- Behind the call of `ftruncate`.
unfoldable pub truncated : ℕ → Reclaimed → Reply → Step Reclaimed
truncated waste t (Reply.error e) = done (record t {
  n_errored = (t.n_errored + 1) % 2 ^ 32;
  errored_bytes = add64 t.errored_bytes waste;
})
truncated waste t (Reply.ok _ _) = done (record t {
  n_reclaimed = (t.n_reclaimed + 1) % 2 ^ 32;
  reclaimed_bytes = add64 t.reclaimed_bytes waste;
})

-- Behind the call of `fstat`, with the journal counted.
unfoldable pub reclaim_sized : ℕ → Header → ℕ → ℕ → Reclaimed → Step Reclaimed
reclaim_sized fd h tail sz t =
    if sz == tail
    then done (record t { n_mules = (t.n_mules + 1) % 2 ^ 32 })
    else (if h.state == JournalState.archived
        then call (Call.ftruncate fd tail) (truncated (sub64 sz tail) t)
        else done (record t {
          n_ignored = (t.n_ignored + 1) % 2 ^ 32;
          ignored_bytes = add64 t.ignored_bytes (sub64 sz tail);
        }))

unfoldable pub reclaim_tail_waste : ℕ → Header → ObjectHeader → Reclaimed → Step Reclaimed
reclaim_tail_waste fd h o t = call (Call.fstat fd) λ r. elim r [
  | Reply.error e ↦ fail e
  | Reply.ok sz _ ↦
      reclaim_sized fd h (tail_of h o) sz (record t { n_journals = (t.n_journals + 1) % 2 ^ 32 })
]

-- `per_journal_tail_waste`.
unfoldable pub per_journal_tail_waste : ByteOrder → ℕ → Journal → Reclaimed → Step Reclaimed
per_journal_tail_waste e fd j t = do
  (h, j1) ← journal_get_header e j
  (o, j2) ← journal_get_object_header e h.tail_object_offset j1
  reclaim_tail_waste fd h o t
