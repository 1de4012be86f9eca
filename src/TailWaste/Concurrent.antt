-- ===== src/TailWaste/Concurrent.antt =====
-- `jio report tail-waste` over all journals: `per_journal_tail_waste` as a task, and the totals
-- that the tasks of all journals share.
use jio.Base.{ℕ, ◌+◌, ◌%◌, ◌^◌, ◌≡◌, arith, ltb, if◌then◌else◌}
use jio.Io.{Call, Reply}
use jio.Lru.{Journal}
use jio.Format.{ObjectHeader, Header}
use jio.Format.JournalState
use jio.Format.Endian.{ByteOrder}
use jio.Objects.{journal_get_header, journal_get_object_header}
use jio.TailWaste.{TailWaste, tail_of, add_waste}
use jio.Tasks.{Task, ended, failed, faulted, waiting, update, lift}

-- What one journal adds: its state, the size of its file and the end of its last object.
pub record Waste : Type 0 where
  pub state : ℕ
  pub size : ℕ
  pub tail : ℕ

abbrev pub add : Waste → TailWaste → TailWaste
add x t = add_waste x.state x.size x.tail t

-- `print_tail_waste`; a state outside the arrays faults.
unfoldable pub print_tail_waste : ℕ → Header → ObjectHeader → Task Waste
print_tail_waste fd h o = waiting (Call.fstat fd) λ r. elim r [
  | Reply.error err ↦ failed err
  | Reply.ok sz _ ↦
      if ltb h.state JournalState.max
      then update (record { state = h.state; size = sz; tail = tail_of h o }) ended
      else faulted
]

-- `per_journal_tail_waste`.
unfoldable pub per_journal_tail_waste : ByteOrder → ℕ → Journal → Task Waste
per_journal_tail_waste e fd j = lift (journal_get_header e j) λ (h, j1).
    lift (journal_get_object_header e h.tail_object_offset j1) λ (o, j2). print_tail_waste fd h o

bytes_commute :
    (x y : Waste) (t : TailWaste) (i : ℕ)
    → (add x (add y t)).per_state_bytes i ≡ (add y (add x t)).per_state_bytes i
unfolding add_waste
bytes_commute x y t i = ground arith

counts_commute :
    (x y : Waste) (t : TailWaste) (i : ℕ)
    → (add x (add y t)).per_state_counts i ≡ (add y (add x t)).per_state_counts i
unfolding add_waste
counts_commute x y t i = ground arith

total_commute : (x y : Waste) (t : TailWaste) → (add x (add y t)).total ≡ (add y (add x t)).total
unfolding add_waste
total_commute x y t = omega arith

sizes_commute :
    (x y : Waste) (t : TailWaste)
    → (add x (add y t)).total_file_size ≡ (add y (add x t)).total_file_size
unfolding add_waste
sizes_commute x y t = omega arith

-- What two journals add may be added in either order.
pub add_commute : (x y : Waste) (t : TailWaste) → add x (add y t) ≡ add y (add x t)
unfolding add_waste
add_commute x y t = λ i. record {
  per_state_counts = λ s. counts_commute x y t s i;
  per_state_bytes = λ s. bytes_commute x y t s i;
  total = total_commute x y t i;
  total_file_size = sizes_commute x y t i;
  n_journals = ((t.n_journals + 1) % 2 ^ 32 + 1) % 2 ^ 32;
}
