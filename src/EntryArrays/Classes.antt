-- ===== src/EntryArrays/Classes.antt =====
-- The classes of size that `jio report entry-arrays` prints add up to its totals.
use jio.Base.{
  ℕ, zero, suc, ◌+◌, ◌%◌, ◌^◌, ◌<◌, ◌≡◌, refl, ap, ◌∙◌, List, [], ◌∷◌, arith, ◌==◌, add64,
  Bool-cases, inl, inr, ==→eq,
}
use jio.EntryArrays.{
  EntryArray, Profile, n_buckets, u64log2, Stats, no_stats, plus_at, add_entry_array,
  add_entry_arrays, add_buckets, stats_of,
}
use jio.EntryArrays.Counted.{counts, number, IsCounted, table_counts, table_number}
use jio.EntryArrays.Sums.{sum_from, changed, sum_from-changed, sum_from-eq}

u64log2-small : (n : ℕ) → u64log2 n < 64
unfolding u64log2
u64log2-small n = ground arith

plus_at-changed : (f : ℕ → ℕ) (k v i : ℕ) → plus_at f k v i ≡ changed f k (add64 (f k) v) i
plus_at-changed f k v i = elim (Bool-cases (i == k)) [
  | inl same ↦ rw same (ap (λ x. add64 (f x) v) (==→eq i k same))
  | inr other ↦ rw other refl
]

-- The sum of the 64 classes.
unfoldable pub classes : (ℕ → ℕ) → ℕ
classes f = sum_from 64 0 f

classes-plus_at :
    (f : ℕ → ℕ) (k v : ℕ) → k < 64 → classes (plus_at f k v) % 2 ^ 64 ≡ (classes f + v) % 2 ^ 64
unfolding classes
classes-plus_at f k v h =
    let same =
      sum_from-eq 64 0 (plus_at f k v) (changed f k (add64 (f k) v)) (plus_at-changed f k v) in
    omega (arith, same, sum_from-changed 64 0 k (add64 (f k) v) f (omega arith) (omega arith))

-- `t` is `s` with that many arrays added, and the sum of their counts.
record Grown (c n : ℕ) (s t : Stats) : Type 0 where
  total : classes t.counts_total % 2 ^ 64 ≡ (classes s.counts_total + c) % 2 ^ 64
  unique : classes t.counts_unique % 2 ^ 64 ≡ (classes s.counts_unique + n) % 2 ^ 64
  same_count : t.count ≡ s.count
  same_unique : t.unique ≡ s.unique

add_entry_array-Grown : (ea : EntryArray) (s : Stats) → Grown ea.count 1 s (add_entry_array ea s)
unfolding add_entry_array
add_entry_array-Grown ea s =
    let k = u64log2 ea.size in
    let small = u64log2-small ea.size in
    record {
      total = classes-plus_at s.counts_total k ea.count small;
      unique = classes-plus_at s.counts_unique k 1 small;
      same_count = refl;
      same_unique = refl;
    }

add_entry_arrays-Grown :
    (eas : List EntryArray) (s : Stats) → Grown (counts eas) (number eas) s (add_entry_arrays eas s)
add_entry_arrays-Grown [] s = record {
  total = omega arith;
  unique = omega arith;
  same_count = refl;
  same_unique = refl;
}
add_entry_arrays-Grown (ea ∷ eas) s =
    let a = add_entry_array-Grown ea s in
    let b = add_entry_arrays-Grown eas (add_entry_array ea s) in
    record {
      total = omega (arith, a.total, b.total);
      unique = omega (arith, a.unique, b.unique);
      same_count = b.same_count ∙ a.same_count;
      same_unique = b.same_unique ∙ a.same_unique;
    }

add_buckets-Grown :
    (left i : ℕ) (buckets : ℕ → List EntryArray) (s : Stats)
    → Grown
        (sum_from left i (λ k. counts (buckets k)))
        (sum_from left i (λ k. number (buckets k)))
        s
        (add_buckets left i buckets s)
unfolding sum_from
add_buckets-Grown zero i buckets s = record {
  total = omega arith;
  unique = omega arith;
  same_count = refl;
  same_unique = refl;
}
add_buckets-Grown (suc left) i buckets s =
    let a = add_entry_arrays-Grown (buckets i) s in
    let b = add_buckets-Grown left (suc i) buckets (add_entry_arrays (buckets i) s) in
    record {
      total = omega (arith, a.total, b.total);
      unique = omega (arith, a.unique, b.unique);
      same_count = b.same_count ∙ a.same_count;
      same_unique = b.same_unique ∙ a.same_unique;
    }

no_classes : classes (λ i. 0) ≡ 0
unfolding classes sum_from
no_classes = refl

pub stats_of-count : (p : Profile) → (stats_of p).count ≡ p.count
unfolding stats_of
stats_of-count p =
    let s = record no_stats { count = p.count; unique = p.unique } in
    let g = add_buckets-Grown n_buckets 0 p.buckets s in g.same_count

-- The statistics of a profile whose counters are those of its table: the 64 classes of size add
-- up to the number of arrays and to that of the unique ones, in `uint64_t`.
pub stats_of-classes :
    (p : Profile)
    → IsCounted p
    → (classes (stats_of p).counts_total % 2 ^ 64 ≡ (stats_of p).count % 2 ^ 64)
      × (classes (stats_of p).counts_unique % 2 ^ 64 ≡ (stats_of p).unique % 2 ^ 64)
unfolding stats_of table_counts table_number
stats_of-classes p h =
    let s = record no_stats { count = p.count; unique = p.unique } in
    let g = add_buckets-Grown n_buckets 0 p.buckets s in
    (
      omega (arith, g.total, g.same_count, h.count, no_classes),
      omega (arith, g.unique, g.same_unique, h.unique, no_classes),
    )
