-- ===== src/Drive/Commands.antt =====
-- The commands of the program: `jio_report_usage`, `jio_report_tail_waste`, `jio_report_layout`,
-- `jio_report_entry_arrays`, `jio_verify_hashed_objects` and `jio_reclaim_tail_waste`. `iou_run` (of
-- libiou) is a parameter: it drives the tasks, and returns the totals or an error. What a command
-- returns is what it prints at its end. The memory that THUNK_ALLOC gives is a parameter.
use Prim.Native.String.{String}
use jio.Base.{ℕ, zero, suc, List, [], ◌∷◌, Option, none, some, get_elem?}
use jio.Io.{Step, done, fail, ◌>>=◌}
use jio.Lru.{Journal}
use jio.Format.ObjectType
use jio.Format.JournalState
use jio.Format.Endian.{ByteOrder}
use jio.Objects.{Iter}
use jio.Open.{visible}
use jio.Humane.{Humane, humane_bytes}
use jio.Names.{journal_object_type_str, journal_state_str}
use jio.Usage.{no_usage}
use jio.Usage.Concurrent.{Aggregate, Change}
use jio.TailWaste.{TailWaste, no_waste, percent}
use jio.TailWaste.Concurrent.{Waste}
use jio.Reclaim.{Reclaimed}
use jio.EntryArrays.{Stats, no_stats, Profile}
use jio.EntryArrays.Print.{print_stats}
use jio.Verify.{Verified, Async, Zstd}
use jio.Tasks.{Task, ended, lift, update}
use jio.Drive.{Setting, launch}

-- `for (int i = 0; i < n; i++)`, one line each.
abbrev pub lines {ℓ} : {A : Type ℓ} → ℕ → ℕ → (ℕ → A) → List A
lines zero i line = []
lines (suc left) i line = line i ∷ lines left (suc i) line

-- What libiou and the memory are taken to be.
pub record Host (U T : Type 0) : Type 0 where
  pub iou_run : List (Task U) → T → Step T
  pub memory : Iter
  pub byte_order : ByteOrder
  pub fuel : ℕ

-- The iteration of a journal, in memory that was just allocated.
abbrev pub iter_of : {U T : Type 0} → Host U T → Journal → Iter
iter_of host j = record host.memory { journal = j }

pub record UsageLine : Type 0 where
  pub name : String
  pub count : ℕ
  pub bytes : Option Humane

pub record UsageReport : Type 0 where
  pub per_type : List UsageLine
  pub use_total : Option Humane
  pub file_size : Option Humane
  pub n_journals : ℕ

module _ (to_double : ℕ → ℕ) where
  unfoldable pub usage_line : Aggregate → ℕ → UsageLine
  usage_line a i = record {
    name = journal_object_type_str i;
    count = (a.usage).count_per_type i;
    bytes = humane_bytes to_double ((a.usage).use_per_type i);
  }

  unfoldable pub usage_report : Aggregate → UsageReport
  usage_report a = record {
    per_type = lines ObjectType.max 0 (usage_line a);
    use_total = humane_bytes to_double (a.usage).use_total;
    file_size = humane_bytes to_double (a.usage).file_size;
    n_journals = a.n_journals;
  }

  unfoldable pub jio_report_usage : Host Change Aggregate → Setting → Step UsageReport
  jio_report_usage host s = do
    tasks ←
        launch
          (λ fd j. jio.Usage.Concurrent.per_journal host.byte_order host.fuel fd (iter_of host j)) s
    a ← host.iou_run tasks (record { usage = no_usage; n_journals = 0 })
    done (usage_report a)

  pub record StateLine : Type 0 where
    pub name : String
    pub count : ℕ
    pub bytes : Option Humane
    pub share : ℕ

  pub record WasteReport : Type 0 where
    pub per_state : List StateLine
    pub total : Option Humane
    pub share : ℕ
    pub total_file_size : Option Humane
    pub n_journals : ℕ

  unfoldable pub state_line : TailWaste → ℕ → StateLine
  state_line w i = record {
    name = journal_state_str i;
    count = w.per_state_counts i;
    bytes = humane_bytes to_double (w.per_state_bytes i);
    share = percent (w.per_state_bytes i) w.total;
  }

  unfoldable pub waste_report : TailWaste → WasteReport
  waste_report w = record {
    per_state = lines JournalState.max 0 (state_line w);
    total = humane_bytes to_double w.total;
    share = percent w.total w.total_file_size;
    total_file_size = humane_bytes to_double w.total_file_size;
    n_journals = w.n_journals;
  }

  unfoldable pub jio_report_tail_waste : Host Waste TailWaste → Setting → Step WasteReport
  jio_report_tail_waste host s = do
    tasks ← launch (λ fd j. jio.TailWaste.Concurrent.per_journal_tail_waste host.byte_order fd j) s
    w ← host.iou_run tasks no_waste
    done (waste_report w)

-- A task that shares no totals.
abbrev pub alone : {A : Type 0} → Step A → Task (Unit {0})
alone m = lift m (λ a. ended)

-- The name of a journal, by its number.
abbrev pub name_of : Setting → Journal → List ℕ
name_of s j = elim (get_elem? (visible s.second) j.idx) [ none ↦ [] | some name ↦ name ]

unfoldable pub jio_report_layout : Host (Unit {0}) (Unit {0}) → Setting → Step (Unit {0})
jio_report_layout host s = do
  tasks ←
      launch
        (λ fd j.
          alone (jio.Layout.per_journal host.byte_order host.fuel (name_of s j) (iter_of host j)))
        s
  host.iou_run tasks tt

unfoldable pub jio_report_entry_arrays :
    (List ℕ → List ℕ) → Profile → Host Stats Stats → Setting → Step jio.EntryArrays.Print.Printed
jio_report_entry_arrays sha1 memory host s = do
  tasks ←
      launch
        (λ fd j.
          lift (jio.EntryArrays.per_journal sha1 host.byte_order host.fuel (iter_of host j) memory)
            (λ stats. update stats ended))
        s
  totals ← host.iou_run tasks no_stats
  done (print_stats totals)

unfoldable pub jio_verify_hashed_objects :
    (List ℕ → List ℕ → ℕ)
    → (List ℕ → ℕ)
    → Zstd
    → Async
    → Verified
    → Host (Unit {0}) (Unit {0})
    → Setting
    → Step (Unit {0})
jio_verify_hashed_objects siphash24 jenkins_hash64 z iou_async memory host s = do
  tasks ←
      launch
        (λ fd j. alone (
          jio.Verify.per_journal siphash24 jenkins_hash64 z iou_async host.byte_order host.fuel
            (iter_of host j) memory))
        s
  host.iou_run tasks tt

-- ENOTSUP.
abbrev pub enotsup : ℕ
enotsup = 95

-- It returns before it starts any task.
unfoldable pub jio_reclaim_tail_waste : Step Reclaimed
jio_reclaim_tail_waste = fail enotsup
