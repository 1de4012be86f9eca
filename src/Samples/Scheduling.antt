-- ===== src/Samples/Scheduling.antt =====
-- Tests of the theorems on the tasks of several journals.
use jio.Base.{ℕ, refl, [], ◌∷◌, arith}
use jio.Open.Setup.{opened, opened-IsCache}
use jio.Format.{ObjectHeader, header_fields}
use jio.Format.Endian.{ByteOrder, le}
use jio.Objects.{Iter}
use jio.Objects.Walk.{Objects}
use jio.Usage.{no_usage}
use jio.Usage.Tally.{HasType}
use jio.Usage.Concurrent.{Aggregate, change}
use jio.TailWaste.{no_waste}
use jio.TailWaste.Sums.{IsTotal}
use jio.TailWaste.Concurrent.{add}
use jio.TailWaste.Report.{Ending, per_journal_tail_waste-Inevitably}
use jio.Tasks.{Inevitably}
use jio.Tasks.Readable.{Answered, Readable}
use jio.Usage.Report.{per_journal-Inevitably}
use jio.Samples.{honest, answer, bytes_of, no_error, sample_file, sample_file-AreBytes}

abbrev pub Never : ℕ → Type 0
Never e = ⊥

abbrev pub object : ObjectHeader
object = record { type = 1; flags = 0; size = 72 }

abbrev pub start : Iter
start = record { offset = 0; object = object; journal = opened 3 }

abbrev pub journal : Answered Never
journal = record {
  file = sample_file;
  world = honest sample_file;
  fd = 3;
  it = start;
  serial = λ c. (answer sample_file c, refl);
  sizes = λ n bs ok. (bytes_of n 328 bs [] ok).0;
  no_size = λ e ok. no_error e 328 [] ok;
  errors = λ e never. never;
  small = omega arith;
  big = omega arith;
  bytes = sample_file-AreBytes;
  cache = opened-IsCache sample_file 3;
}

pub objects-Objects : Objects sample_file 256 256 (object ∷ [])
unfolding le
objects-Objects = (λ p. cc p, omega arith, refl, λ p. cc p, omega arith, omega arith)

abbrev readable : Readable HasType Never
unfolding le header_fields
readable = record {
  base = journal;
  fuel = 2;
  hs = object ∷ [];
  enough = omega arith;
  objects = objects-Objects;
  all = (omega arith, tt);
  first = omega arith;
}

abbrev pub nothing : Aggregate
nothing = record { usage = no_usage; n_journals = 0 }

per_journal-Inevitably_example :
    Inevitably change
      (jio.Usage.Report.Reported Never (readable ∷ readable ∷ []) nothing)
      (jio.Usage.Report.tasks Never ByteOrder.big (readable ∷ readable ∷ []))
      nothing
per_journal-Inevitably_example =
    per_journal-Inevitably Never ByteOrder.big (readable ∷ readable ∷ []) nothing

abbrev ending : Ending Never
unfolding le header_fields
ending = record { base = journal; state = omega arith; inside = omega arith }

no_waste-IsTotal : IsTotal no_waste
no_waste-IsTotal = record { bytes = refl; counts = refl }

per_journal_tail_waste-Inevitably_example :
    Inevitably add
      (jio.TailWaste.Report.Reported Never (ending ∷ ending ∷ []) no_waste)
      (jio.TailWaste.Report.tasks Never ByteOrder.big (ending ∷ ending ∷ []))
      no_waste
per_journal_tail_waste-Inevitably_example =
    per_journal_tail_waste-Inevitably Never ByteOrder.big (ending ∷ ending ∷ []) no_waste
      no_waste-IsTotal
