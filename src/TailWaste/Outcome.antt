-- ===== src/TailWaste/Outcome.antt =====
-- What `jio report tail-waste` prints.
use jio.Base.{
  ℕ, ◌<◌, ◌/◌, some, ltb, if◌then◌else◌, arith, get_elem?, ◌≡◌, refl, sym, ap, ◌∙◌, List, [], ◌∷◌,
  length,
}
use jio.Io.{Call, Reply, done}
use jio.Io.Wp.{Wp}
use jio.Lru.{Journal}
use jio.Open.{visible}
use jio.Open.Listing.{Any}
use jio.Format.JournalState
use jio.Names.{journal_state_str}
use jio.Humane.{humane_bytes}
use jio.TailWaste.{TailWaste, no_waste, percent}
use jio.TailWaste.Sums.{IsTotal}
use jio.TailWaste.Concurrent.{Waste, add, per_journal_tail_waste, add_commute}
use jio.TailWaste.Report.{Ending, tasks, HasTotals, promised, tasks-PromiseAll, promised-Sums}
use jio.Tasks.{Task}
use jio.Tasks.Reached.{Drives}
use jio.Drive.{Setting}
use jio.Drive.Outcome.{chains, journals_of, each, tasks_of-each, Starts, IsOf, launch-Comes}
use jio.Drive.Lines.{length-lines, get_elem?-lines}
use jio.Drive.Commands.{
  Host, StateLine, WasteReport, state_line, waste_report, jio_report_tail_waste,
}

-- Before the first journal the totals are the sums of the states.
pub no_waste-IsTotal : IsTotal no_waste
no_waste-IsTotal = record { bytes = refl; counts = refl }

-- A part of a total in percent; 0 where the total is below 100.
abbrev pub share_of : ℕ → ℕ → ℕ
share_of part total = if ltb total 100 then 0 else part / (total / 100)

percent-share_of : (part total : ℕ) → percent part total ≡ share_of part total
unfolding percent
percent-share_of part total = ground arith

-- A report that shows this waste: a line for each state, with its name, number, bytes and share,
-- and the totals.
pub record Shows (to_double : ℕ → ℕ) (w : TailWaste) (r : WasteReport to_double) : Type 0 where
  pub states : length r.per_state ≡ JournalState.max
  pub of_state :
      (i : ℕ)
      → i < JournalState.max
      → (l : StateLine to_double) × (get_elem? r.per_state i ≡ some l)
        × (l.name ≡ journal_state_str i)
        × (l.count ≡ w.per_state_counts i)
        × (l.bytes ≡ humane_bytes to_double (w.per_state_bytes i))
        × (l.share ≡ share_of (w.per_state_bytes i) w.total)
  pub total : r.total ≡ humane_bytes to_double w.total
  pub share : r.share ≡ share_of w.total w.total_file_size
  pub total_file_size : r.total_file_size ≡ humane_bytes to_double w.total_file_size
  pub n_journals : r.n_journals ≡ w.n_journals

waste_report-Shows :
    (to_double : ℕ → ℕ) (w : TailWaste) → Shows to_double w (waste_report to_double w)
unfolding waste_report state_line
waste_report-Shows to_double w = record {
  states = length-lines JournalState.max 0 (state_line to_double w);
  of_state = λ i lt. (
    state_line to_double w i,
    get_elem?-lines JournalState.max i (state_line to_double w) lt,
    refl,
    refl,
    refl,
    percent-share_of (w.per_state_bytes i) w.total,
  );
  total = refl;
  share = percent-share_of w.total w.total_file_size;
  total_file_size = refl;
  n_journals = refl;
}

module _ (E : ℕ → Type 0) (to_double : ℕ → ℕ) (host : Host Waste TailWaste)
    (stored : ℕ → ℕ → Ending E) where
  -- The journals are read through the descriptors of their opens.
  abbrev pub Stores : Type 0
  Stores = (l fd : ℕ) → IsOf host.memory l fd (stored l fd).base

  abbrev chain : Ending E → Task Waste
  chain j = per_journal_tail_waste host.byte_order (j.base).fd ((j.base).it).journal

  chains-each : (js : List (Ending E)) → each stored chain js ≡ chains (tasks E host.byte_order js)
  chains-each [] = refl
  chains-each (j ∷ js) = ap (λ (ts : List (Task Waste)). chain j ∷ ts) (chains-each js)

  abbrev closure : ℕ → Journal → Task Waste
  closure fd j = per_journal_tail_waste host.byte_order fd j

  -- `jio report tail-waste`, started in a world where `Starts` holds, on journals of the three
  -- states with the last object inside of each file, where `iou_run` has driven the tasks to its
  -- return: it never faults. It ends with an error, or prints a line for each of the three states,
  -- with its name, number of journals, bytes behind the last objects and their share, and the totals.
  -- Those are the sums over the journals whose opens succeeded, in their integer types, the bytes as
  -- `humane_bytes` has them, and the totals are the sums of those of the states.
  pub jio_report_tail_waste-HasTotals :
      (Ok : Call → Reply → Type 0) (s : Setting)
      → Starts Ok s
      → Stores
      → Drives add
          (tasks E host.byte_order (journals_of stored s))
          no_waste
          (host.iou_run (chains (tasks E host.byte_order (journals_of stored s))) no_waste)
      → Wp Ok Any
          (λ r.
            (b : TailWaste) × Shows to_double b r × HasTotals E (journals_of stored s) no_waste b)
          (jio_report_tail_waste to_double host s)
  unfolding jio_report_tail_waste
  jio_report_tail_waste-HasTotals Ok s w st d =
      let js = journals_of stored s in
      launch-Comes add add_commute E host.iou_run Ok closure s (tasks E host.byte_order js)
        (promised E js) no_waste _ (λ a. done (waste_report to_double a)) w
        (tasks_of-each stored closure chain
            (λ l fd i.
              per_journal_tail_waste host.byte_order (sym (st l fd).of_fd i)
                (sym (st l fd).it i).journal)
            (length (visible s.second)) 0 s.opens
          ∙ chains-each js)
        (tasks-PromiseAll E host.byte_order js) d
        λ b c. (b, waste_report-Shows to_double b, promised-Sums E js no_waste b no_waste-IsTotal c)
