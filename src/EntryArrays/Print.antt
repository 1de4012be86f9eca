-- ===== src/EntryArrays/Print.antt =====
-- `print_stats` of src/report-entry-arrays.c.
use jio.Base.{ℕ, zero, suc, List, [], ◌∷◌, ◌==◌, if◌then◌else◌}
use jio.EntryArrays.{Stats}

-- What is printed for a class: nothing, or a part and the total that it is a share of.
pub data Cell : Type 0 where
  empty : Cell
  share : ℕ → ℕ → Cell

abbrev pub cell_of : ℕ → ℕ → Cell
cell_of total part = if total == 0 then Cell.empty else Cell.share part total

-- `for (int i = 0; i < n; i++)`, one cell each.
abbrev pub cells : ℕ → ℕ → (ℕ → ℕ) → (ℕ → ℕ) → List Cell
cells zero i total part = []
cells (suc left) i total part = cell_of (total i) (part i) ∷ cells left (suc i) total part

-- What `print_stats` prints; the numbers' format is left out.
pub record Printed : Type 0 where
  pub count : ℕ
  pub unique : Cell
  pub counts : List Cell
  pub bytes : List Cell
  pub utilized : List Cell

unfoldable pub print_stats : Stats → Printed
print_stats s = record {
  count = s.count;
  unique = cell_of s.count s.unique;
  counts = cells 64 0 s.counts_total s.counts_unique;
  bytes = cells 64 0 s.bytes_total s.bytes_unique;
  utilized = cells 64 0 s.utilized_total s.utilized;
}
