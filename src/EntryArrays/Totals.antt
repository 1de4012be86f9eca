-- ===== src/EntryArrays/Totals.antt =====
-- The totals over all journals, to which `add_stats` adds the statistics of one.
use jio.Base.{ℕ, zero, suc, ◌+◌, ◌%◌, ◌^◌, ◌≤◌, ◌≡◌, arith, add64}
use jio.EntryArrays.{Stats, sums_of, add_stats}
use jio.EntryArrays.Sums.{sum_from}
use jio.EntryArrays.Classes.{classes}
use jio.EntryArrays.Walk.{AddsUp}

-- The change that a journal's task makes to the totals.
abbrev pub add : Stats → Stats → Stats
add x totals = add_stats totals x

sums_commute : (f g h : ℕ → ℕ) (i : ℕ) → sums_of (sums_of f g) h i ≡ sums_of (sums_of f h) g i
sums_commute f g h i = ground arith

add64_commute : (n a b : ℕ) → add64 (add64 n a) b ≡ add64 (add64 n b) a
add64_commute n a b = omega arith

-- Two journals may be added in either order.
pub add_commute : (x y t : Stats) → add x (add y t) ≡ add y (add x t)
unfolding add_stats
add_commute x y t = λ i. record {
  count = add64_commute t.count y.count x.count i;
  unique = add64_commute t.unique y.unique x.unique i;
  counts_total = λ k. sums_commute t.counts_total y.counts_total x.counts_total k i;
  counts_unique = λ k. sums_commute t.counts_unique y.counts_unique x.counts_unique k i;
  bytes_total = λ k. sums_commute t.bytes_total y.bytes_total x.bytes_total k i;
  bytes_unique = λ k. sums_commute t.bytes_unique y.bytes_unique x.bytes_unique k i;
  utilized_total = λ k. sums_commute t.utilized_total y.utilized_total x.utilized_total k i;
  utilized = λ k. sums_commute t.utilized y.utilized x.utilized k i;
}

sum_from-sums_of :
    (left i : ℕ) (f g : ℕ → ℕ)
    → i + left ≤ 64
    → sum_from left i (sums_of f g) % 2 ^ 64 ≡ (sum_from left i f + sum_from left i g) % 2 ^ 64
unfolding sum_from
sum_from-sums_of zero i f g h = omega arith
sum_from-sums_of (suc left) i f g h =
    let here : sums_of f g i ≡ add64 (f i) (g i) = ground arith in
    omega (arith, here, sum_from-sums_of left (suc i) f g (omega arith))

classes-sums_of : (f g : ℕ → ℕ) → classes (sums_of f g) % 2 ^ 64 ≡ (classes f + classes g) % 2 ^ 64
unfolding classes
classes-sums_of f g = sum_from-sums_of 64 0 f g (omega arith)

-- Statistics that add up, added to totals that do, leave such totals.
pub add-AddsUp : (m n : ℕ) (x t : Stats) → AddsUp m x → AddsUp n t → AddsUp (n + m) (add x t)
unfolding add_stats
add-AddsUp m n x t h k = record {
  seen = omega (arith, h.seen, k.seen);
  counts = omega (arith, h.counts, k.counts, classes-sums_of t.counts_total x.counts_total);
  unique = omega (arith, h.unique, k.unique, classes-sums_of t.counts_unique x.counts_unique);
}
