-- ===== src/EntryArrays/Outcome.antt =====
-- What `jio report entry-arrays` prints.
use jio.Base.{ℕ, ◌<◌, some, get_elem?, ◌≡◌, refl, List, length, arith}
use jio.Io.Wp.{Wp}
use jio.Lru.{Journal}
use jio.EntryArrays.{Stats, no_stats, per_journal}
use jio.EntryArrays.Sums.{sum_from-zero}
use jio.EntryArrays.Counted.{no_arrays}
use jio.EntryArrays.Classes.{classes}
use jio.EntryArrays.Walk.{AddsUp}
use jio.EntryArrays.Print.{Cell, Printed}
use jio.Drive.Lines.{IsShare}
use jio.EntryArrays.Report.{Arrayed, chain}
use jio.Tasks.{Task, ended, update, lift}
use jio.Drive.Outcome.{IsOf}
use jio.Drive.Commands.{Host, iter_of}

-- Statistics that are zero add up.
pub no_stats-AddsUp : AddsUp 0 no_stats
unfolding classes
no_stats-AddsUp = record {
  seen = refl;
  counts = omega (arith, sum_from-zero 64 0);
  unique = omega (arith, sum_from-zero 64 0);
}

-- A printed row: one cell for each of the 64 classes, for the part of that class in its total.
pub record IsRow (total part : ℕ → ℕ) (row : List Cell) : Type 0 where
  pub width : length row ≡ 64
  pub of_class :
      (i : ℕ) → i < 64 → (c : Cell) × (get_elem? row i ≡ some c) × IsShare (total i) (part i) c

-- What is printed shows these statistics.
pub record Shows (s : Stats) (p : Printed) : Type 0 where
  pub count : p.count ≡ s.count
  pub unique : IsShare s.count s.unique p.unique
  pub counts : IsRow s.counts_total s.counts_unique p.counts
  pub bytes : IsRow s.bytes_total s.bytes_unique p.bytes
  pub utilized : IsRow s.utilized_total s.utilized p.utilized

module _ (sha1 : List ℕ → List ℕ) (E : ℕ → Type 0) (host : Host Stats Stats)
    (stored : ℕ → ℕ → Arrayed sha1 E) where
  -- The journals are read through the descriptors of their opens, with the host's memory and fuel.
  pub record Stores : Type 0 where
    pub read : (l fd : ℕ) → IsOf host.memory l fd (stored l fd).base
    pub fuels : (l fd : ℕ) → (stored l fd).fuel ≡ host.fuel

  abbrev task : Arrayed sha1 E → Task Stats
  task j = lift (chain sha1 E host.byte_order j) (λ stats. update stats ended)

  abbrev closure : ℕ → Journal → Task Stats
  closure fd j =
      lift (per_journal sha1 host.byte_order host.fuel (iter_of host j) no_arrays)
        (λ stats. update stats ended)
