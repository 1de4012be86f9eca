-- ===== src/EntryArrays/Sums.antt =====
-- Sums over the buckets of a table or the classes of size, and a change at one of them.
use jio.Base.{
  ℕ, zero, suc, ◌+◌, ◌<◌, ◌≤◌, ◌≡◌, ◌≢◌, refl, ap, arith, ◌==◌, if◌then◌else◌, Bool-cases, inl, inr,
  ==→eq, ne→==,
}

-- The sum of a number of each of the `left` indices from `i`.
unfoldable pub sum_from : ℕ → ℕ → (ℕ → ℕ) → ℕ
sum_from zero i f = 0
sum_from (suc left) i f = f i + sum_from left (suc i) f

pub sum_from-zero : (left i : ℕ) → sum_from left i (λ k. 0) ≡ 0
unfolding sum_from
sum_from-zero zero i = refl
sum_from-zero (suc left) i = omega (arith, sum_from-zero left (suc i))

-- A change at one index.
abbrev pub changed : (ℕ → ℕ) → ℕ → ℕ → ℕ → ℕ
changed f b v i = if i == b then v else f i

changed-other : (f : ℕ → ℕ) (b v i : ℕ) → i ≢ b → changed f b v i ≡ f i
changed-other f b v i h = rw (ne→== i b h) refl

sum_from-outside :
    (left i b v : ℕ) (f : ℕ → ℕ) → b < i → sum_from left i (changed f b v) ≡ sum_from left i f
unfolding sum_from
sum_from-outside zero i b v f h = refl
sum_from-outside (suc left) i b v f h =
    let here = changed-other f b v i (λ p. absurd (omega arith)) in
    omega (arith, sum_from-outside left (suc i) b v f (omega arith), here)

pub sum_from-changed :
    (left i b v : ℕ) (f : ℕ → ℕ)
    → i ≤ b
    → b < i + left
    → sum_from left i (changed f b v) + f b ≡ sum_from left i f + v
unfolding sum_from
sum_from-changed zero i b v f h k = absurd (omega arith)
sum_from-changed (suc left) i b v f h k = elim (Bool-cases (i == b)) [
  | inl same ↦
      let e : i ≡ b = ==→eq i b same in
      let here : changed f b v i ≡ v = rw same refl in
      omega (arith, sum_from-outside left (suc i) b v f (omega arith), here, ap f e)
  | inr other ↦
      let here : changed f b v i ≡ f i = rw other refl in
      let ne : i ≢ b = ground arith in
      omega (arith, sum_from-changed left (suc i) b v f (omega arith) (omega arith), here)
]

pub sum_from-eq :
    (left i : ℕ) (f g : ℕ → ℕ) → ((k : ℕ) → f k ≡ g k) → sum_from left i f ≡ sum_from left i g
sum_from-eq left i f g h = ap (sum_from left i) (λ k x. h x k)
