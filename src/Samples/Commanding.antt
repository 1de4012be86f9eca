-- ===== src/Samples/Commanding.antt =====
-- Tests of the theorems on the commands that report totals.
use jio.Base.{ℕ, refl, List, [], ◌∷◌, arith}
use jio.Io.Wp.{Wp}
use jio.Open.Listing.{Any}
use jio.Open.Setup.{opened, opened-IsCache}
use jio.Open.Numbered.{numbered, numbered-IsOwn}
use jio.Io.Obeys.{Obeys, Anything}
use jio.Cache.Own.{OwnCall}
use jio.Objects.{Iter}
use jio.EntryArrays.Own.{per_journal-Owned}
use jio.Format.{header_fields}
use jio.Format.Endian.{ByteOrder, le}
use jio.Usage.Tally.{HasType}
use jio.Usage.Concurrent.{Aggregate, Change, change}
use jio.Usage.Outcome.{nothing, jio_report_usage-Sums}
use jio.TailWaste.{TailWaste, no_waste}
use jio.TailWaste.Concurrent.{Waste, add}
use jio.TailWaste.Report.{Ending, HasTotals}
use jio.TailWaste.Outcome.{jio_report_tail_waste-HasTotals}
use jio.EntryArrays.{Stats, no_stats}
use jio.EntryArrays.Counted.{no_arrays}
use jio.EntryArrays.Report.{Arrayed, tasks-AddsUp}
use jio.EntryArrays.Outcome.{no_stats-AddsUp}
use jio.Tasks.{Inevitably}
use jio.Tasks.Readable.{Readable}
use jio.Drive.Outcome.{journals_of}
use jio.Drive.Commands.{Host, jio_report_usage, jio_report_tail_waste}
use jio.Samples.{sample_file, sample_file-AreBytes}
use jio.Samples.Scheduling.{Never, object, start, objects-Objects}
use jio.Samples.Starting.{Truthful, setting}
use jio.Samples.Profiling.{array_file, array_file-AreBytes, array, arrays-Objects}
use jio.Samples.Driving.{at_file, setting-Starts, serial, serial-Drives}

abbrev to_double : ℕ → ℕ
to_double n = n

-- Every journal is the sample file.
abbrev usage_stored : ℕ → ℕ → Readable HasType Never
unfolding le header_fields
usage_stored l fd = record {
  base = at_file sample_file (omega arith) (omega arith) sample_file-AreBytes l fd;
  fuel = 2;
  hs = object ∷ [];
  enough = omega arith;
  objects = objects-Objects;
  all = (omega arith, tt);
  first = omega arith;
}

abbrev usage_host : Host Change Aggregate
usage_host = record {
  iou_run = serial change sample_file;
  memory = start;
  byte_order = ByteOrder.big;
  fuel = 2;
}

jio_report_usage-Sums_example :
    Wp Truthful Any
      (λ r.
        (b : Aggregate) × jio.Usage.Outcome.Shows to_double b r
        × jio.Usage.Report.Sums Never (journals_of usage_stored setting) nothing b)
      (jio_report_usage to_double usage_host setting)
unfolding usage_stored
jio_report_usage-Sums_example =
    jio_report_usage-Sums Never to_double usage_host usage_stored Truthful setting setting-Starts
      (record { read = λ l fd. record { of_fd = refl; it = refl }; fuels = λ l fd. refl })
      (serial-Drives change sample_file
        (jio.Usage.Report.tasks Never ByteOrder.big (journals_of usage_stored setting)) nothing
        (jio.Usage.Report.promised Never (journals_of usage_stored setting))
        (jio.Usage.Report.tasks-PromiseAll Never ByteOrder.big (journals_of usage_stored setting))
        (λ c. refl, tt))

abbrev waste_stored : ℕ → ℕ → Ending Never
unfolding le header_fields
waste_stored l fd = record {
  base = at_file sample_file (omega arith) (omega arith) sample_file-AreBytes l fd;
  state = omega arith;
  inside = omega arith;
}

abbrev waste_host : Host Waste TailWaste
waste_host = record {
  iou_run = serial add sample_file;
  memory = start;
  byte_order = ByteOrder.big;
  fuel = 2;
}

jio_report_tail_waste-HasTotals_example :
    Wp Truthful Any
      (λ r.
        (b : TailWaste) × jio.TailWaste.Outcome.Shows to_double b r
        × HasTotals Never (journals_of waste_stored setting) no_waste b)
      (jio_report_tail_waste to_double waste_host setting)
unfolding waste_stored
jio_report_tail_waste-HasTotals_example =
    jio_report_tail_waste-HasTotals Never to_double waste_host waste_stored Truthful setting
      setting-Starts (λ l fd. record { of_fd = refl; it = refl })
      (serial-Drives add sample_file
        (jio.TailWaste.Report.tasks Never ByteOrder.big (journals_of waste_stored setting)) no_waste
        (jio.TailWaste.Report.promised Never (journals_of waste_stored setting))
        (jio.TailWaste.Report.tasks-PromiseAll Never ByteOrder.big
          (journals_of waste_stored setting))
        (λ c. refl, tt))

-- The digest of an array is its bytes.
abbrev plain : List ℕ → List ℕ
plain bs = bs

abbrev array_stored : ℕ → ℕ → Arrayed plain Never
unfolding le header_fields
array_stored l fd = record {
  base = at_file array_file (omega arith) (omega arith) array_file-AreBytes l fd;
  fuel = 2;
  hs = array ∷ [];
  enough = omega arith;
  objects = arrays-Objects;
  items = ((λ is. (omega arith, omega arith)), tt);
  fresh = refl;
}

abbrev array_host : Host Stats Stats
array_host = record {
  iou_run = serial jio.EntryArrays.Totals.add array_file;
  memory = start;
  byte_order = ByteOrder.big;
  fuel = 2;
}

tasks-AddsUp_example :
    Inevitably jio.EntryArrays.Totals.add
      (jio.EntryArrays.Report.Reported plain Never (array_stored 0 3 ∷ array_stored 1 4 ∷ []) 0)
      (jio.EntryArrays.Report.tasks plain Never ByteOrder.big
        (array_stored 0 3 ∷ array_stored 1 4 ∷ []))
      no_stats
tasks-AddsUp_example =
    tasks-AddsUp plain Never ByteOrder.big (array_stored 0 3 ∷ array_stored 1 4 ∷ []) 0 no_stats
      no_stats-AddsUp

-- The iteration of the journal of number 1.
abbrev second : Iter
second = record start { journal = numbered 1 (opened 5) }

per_journal-Owned_example :
    Obeys (OwnCall 1) Anything (jio.EntryArrays.per_journal plain ByteOrder.big 2 second no_arrays)
per_journal-Owned_example =
    per_journal-Owned 1 plain ByteOrder.big 2 second no_arrays
      (numbered-IsOwn 1 array_file (opened 5) (opened-IsCache array_file 5))
