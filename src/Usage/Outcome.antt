-- ===== src/Usage/Outcome.antt =====
-- What `jio report usage` prints.
use jio.Base.{ℕ, ◌<◌, some, get_elem?, ◌≡◌, refl, sym, ap, ◌∙◌, List, [], ◌∷◌, length}
use jio.Io.{Call, Reply, done}
use jio.Io.Wp.{Wp}
use jio.Lru.{Journal}
use jio.Open.{visible}
use jio.Open.Listing.{Any}
use jio.Format.ObjectType
use jio.Names.{journal_object_type_str}
use jio.Humane.{humane_bytes}
use jio.Usage.{no_usage}
use jio.Usage.Tally.{HasType}
use jio.Usage.Concurrent.{Aggregate, Change, change, per_journal, change_commute}
use jio.Usage.Report.{tasks, Sums, promised, tasks-PromiseAll, promised-Sums}
use jio.Tasks.{Task}
use jio.Tasks.Reached.{Drives}
use jio.Tasks.Readable.{Readable}
use jio.Drive.{Setting}
use jio.Drive.Outcome.{chains, journals_of, each, tasks_of-each, Starts, IsOf, launch-Comes}
use jio.Drive.Lines.{length-lines, get_elem?-lines}
use jio.Drive.Commands.{
  Host, iter_of, UsageLine, UsageReport, usage_line, usage_report, jio_report_usage,
}

-- The totals of a command that has just started.
abbrev pub nothing : Aggregate
nothing = record { usage = no_usage; n_journals = 0 }

-- A report that shows these totals: a line for each type, with its name, number and bytes, and the
-- totals.
pub record Shows (to_double : ℕ → ℕ) (a : Aggregate) (r : UsageReport) : Type 0 where
  pub types : length r.per_type ≡ ObjectType.max
  pub of_type :
      (i : ℕ)
      → i < ObjectType.max
      → (l : UsageLine) × (get_elem? r.per_type i ≡ some l)
        × (l.name ≡ journal_object_type_str i)
        × (l.count ≡ (a.usage).count_per_type i)
        × (l.bytes ≡ humane_bytes to_double ((a.usage).use_per_type i))
  pub use_total : r.use_total ≡ humane_bytes to_double (a.usage).use_total
  pub file_size : r.file_size ≡ humane_bytes to_double (a.usage).file_size
  pub n_journals : r.n_journals ≡ a.n_journals

usage_report-Shows :
    (to_double : ℕ → ℕ) (a : Aggregate) → Shows to_double a (usage_report to_double a)
unfolding usage_report usage_line
usage_report-Shows to_double a = record {
  types = length-lines ObjectType.max 0 (usage_line to_double a);
  of_type = λ i lt. (
    usage_line to_double a i,
    get_elem?-lines ObjectType.max i (usage_line to_double a) lt,
    refl,
    refl,
    refl,
  );
  use_total = refl;
  file_size = refl;
  n_journals = refl;
}

module _ (E : ℕ → Type 0) (to_double : ℕ → ℕ) (host : Host Change Aggregate)
    (stored : ℕ → ℕ → Readable HasType E) where
  -- The journals are read through the descriptors of their opens, with the host's memory and fuel.
  pub record Stores : Type 0 where
    pub read : (l fd : ℕ) → IsOf host.memory l fd (stored l fd).base
    pub fuels : (l fd : ℕ) → (stored l fd).fuel ≡ host.fuel

  abbrev chain : Readable HasType E → Task Change
  chain j = per_journal host.byte_order j.fuel (j.base).fd (j.base).it

  chains-each :
      (js : List (Readable HasType E)) → each stored chain js ≡ chains (tasks E host.byte_order js)
  chains-each [] = refl
  chains-each (j ∷ js) = ap (λ (ts : List (Task Change)). chain j ∷ ts) (chains-each js)

  abbrev closure : ℕ → Journal → Task Change
  closure fd j = per_journal host.byte_order host.fuel fd (iter_of host j)

  -- `jio report usage`, started in a world where `Starts` holds, on journals of objects of known
  -- types with more fuel than there are objects, where `iou_run` has driven the tasks to its
  -- return: it never faults. It ends with an error, or prints a line for each of the eight types, with
  -- its name, and the totals. Those are the sums over all journals whose opens succeeded, in their
  -- integer types: the number and, as `humane_bytes` has them, the sizes of the objects, with the
  -- last one of each journal once more, the sizes of the files and the number of journals.
  pub jio_report_usage-Sums :
      (Ok : Call → Reply → Type 0) (s : Setting)
      → Starts Ok s
      → Stores
      → Drives change
          (tasks E host.byte_order (journals_of stored s))
          nothing
          (host.iou_run (chains (tasks E host.byte_order (journals_of stored s))) nothing)
      → Wp Ok Any
          (λ r. (b : Aggregate) × Shows to_double b r × Sums E (journals_of stored s) nothing b)
          (jio_report_usage to_double host s)
  unfolding jio_report_usage
  jio_report_usage-Sums Ok s w st d =
      let js = journals_of stored s in
      launch-Comes change change_commute E host.iou_run Ok closure s (tasks E host.byte_order js)
        (promised E js) nothing _ (λ a. done (usage_report to_double a)) w
        (tasks_of-each stored closure chain
            (λ l fd i.
              per_journal host.byte_order (sym (st.fuels l fd) i) (sym (st.read l fd).of_fd i)
                (sym (st.read l fd).it i))
            (length (visible s.second)) 0 s.opens
          ∙ chains-each js)
        (tasks-PromiseAll E host.byte_order js) d
        λ b c. (b, usage_report-Shows to_double b, promised-Sums E js nothing b c)
