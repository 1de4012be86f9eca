-- ===== src/Usage/Concurrent.antt =====
-- `jio report usage` over all journals: `per_journal` as a task, and the totals that the tasks
-- of all journals share.
use jio.Base.{ℕ, ◌+◌, ◌%◌, ◌^◌, ◌≡◌, refl, arith, ltb, if◌then◌else◌, add64, Option, none, some}
use jio.Io.{Call, Reply}
use jio.Format.{ObjectHeader}
use jio.Format.ObjectType
use jio.Format.Endian.{ByteOrder}
use jio.Objects.{Iter, journal_get_header}
use jio.Usage.{Usage, count}
use jio.Tasks.{Task, failed, waiting, update, lift}
use jio.Tasks.Objects.{journal_iter_objects}

-- `aggregate_usage` and `n_journals`, an `unsigned`.
pub record Aggregate : Type 0 where
  pub usage : Usage
  pub n_journals : ℕ

-- What a task changes of them: it adds a file of some size, or counts an object.
pub data Change : Type 0 where
  file : ℕ → Change
  object : ObjectHeader → Change

unfoldable pub add_file : ℕ → Aggregate → Aggregate
add_file size a = record {
  usage = record a.usage { file_size = add64 (a.usage).file_size size };
  n_journals = (a.n_journals + 1) % 2 ^ 32;
}

unfoldable pub change : Change → Aggregate → Aggregate
change (file size) a = add_file size a
change (object o) a = record a { usage = count o a.usage }

-- `per_data_object`, for the totals; a type outside the arrays faults.
unfoldable pub per_data_object : Iter → Option Change
per_data_object it = if ltb it.object.type ObjectType.max then some (object it.object) else none

-- `per_journal`.
unfoldable pub per_journal : ByteOrder → ℕ → ℕ → Iter → Task Change
per_journal e fuel fd it = waiting (Call.fstat fd) λ r. elim r [
  | Reply.error err ↦ failed err
  | Reply.ok size _ ↦ update (file size) (
      lift (journal_get_header e it.journal) λ (header, j).
        journal_iter_objects e per_data_object fuel header (record it { journal = j }))
]

-- The changes of two tasks may be made in either order.
count_commute : (o p : ObjectHeader) (u : Usage) → count o (count p u) ≡ count p (count o u)
unfolding count
count_commute o p u = λ i. record {
  count_per_type = λ t. counts t i;
  use_per_type = λ t. uses t i;
  use_total = total i;
  file_size = u.file_size;
  file_count = u.file_count;
}
  where
    counts :
        (t : ℕ) → (count o (count p u)).count_per_type t ≡ (count p (count o u)).count_per_type t
    counts t = ground arith

    uses : (t : ℕ) → (count o (count p u)).use_per_type t ≡ (count p (count o u)).use_per_type t
    uses t = ground arith

    total : (count o (count p u)).use_total ≡ (count p (count o u)).use_total
    total = omega arith

add64_commute : (n a b : ℕ) → add64 (add64 n a) b ≡ add64 (add64 n b) a
add64_commute n a b = omega arith

pub change_commute : (x y : Change) (a : Aggregate) → change x (change y a) ≡ change y (change x a)
unfolding change add_file count
change_commute (file m) (file n) a = λ i. record {
  usage = record a.usage { file_size = add64_commute (a.usage).file_size n m i };
  n_journals = ((a.n_journals + 1) % 2 ^ 32 + 1) % 2 ^ 32;
}
change_commute (file m) (object o) a = refl
change_commute (object o) (file m) a = refl
change_commute (object o) (object p) a =
    λ i. record { usage = count_commute o p a.usage i; n_journals = a.n_journals }
