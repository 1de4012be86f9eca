-- ===== src/Humane/Units.antt =====
-- The unit of `humane_bytes` is one of the seven, and the greatest that is not above the number.
use jio.Base.{
  ℕ, zero, suc, ◌+◌, ◌*◌, ◌^◌, ◌≤◌, ◌<◌, ◌≡◌, ◌⊎◌, inl, inr, refl, sym, ap, ◌∙◌, List, Option, some,
  arith, leb, get_elem?, get_elem?-inside, Bool-cases, leb→le, le→leb,
}
use mathlib.Core.Path.{subst}
use jio.Humane.{Humane, units, at_order, orders, humane_bytes}

-- `h` prints `d` in the unit of order `n`.
pub record IsPrinted (d n : ℕ) (h : Humane) : Type 0 where
  pub num : h.num ≡ d
  pub den : h.den ≡ 1024 ^ n
  pub unit : get_elem? units n ≡ some h.unit
  pub below : d < 1024 * h.den
  pub above : (n ≡ 0) ⊎ (h.den ≤ d)

orders_more :
    (fuel num den order : ℕ)
    → 1024 * den ≤ num
    → orders (suc fuel) num den order ≡ orders fuel num (den * 1024) (suc order)
unfolding orders
orders_more fuel num den order h = rw (le→leb (1024 * den) num h)

orders_end :
    (fuel num den order : ℕ)
    → num < 1024 * den
    → orders (suc fuel) num den order ≡ some (order, den)
unfolding orders
orders_end fuel num den order h = ground arith

pow_suc : (k : ℕ) → 1024 ^ k * 1024 ≡ 1024 ^ (suc k)
pow_suc k = omega arith

below_six : (d k : ℕ) → d < 1024 ^ 7 → k ≤ 6 → 1024 * 1024 ^ k ≤ d → k ≤ 5
below_six d k small le h = elim (Bool-cases (leb k 5)) [
  | inl five ↦ leb→le k 5 five
  | inr more ↦
      let six : k ≡ 6 = ground arith in
      absurd (omega (arith, subst (λ (m : ℕ). 1024 * 1024 ^ m ≤ d) six h))
]

-- What the loop returns: the order, and its denominator.
record Ends (d : ℕ) (r : Option (ℕ × ℕ)) : Type 0 where
  order : ℕ
  ends : r ≡ some (order, 1024 ^ order)
  most : order ≤ 6
  below : d < 1024 * 1024 ^ order
  above : (order ≡ 0) ⊎ (1024 ^ order ≤ d)

Ends-here :
    (fuel d k : ℕ)
    → d < 1024 * 1024 ^ k
    → (k ≡ 0) ⊎ (1024 ^ k ≤ d)
    → k ≤ 6
    → Ends d (orders (suc fuel) d (1024 ^ k) k)
Ends-here fuel d k lt above le = record {
  order = k;
  ends = orders_end fuel d (1024 ^ k) k lt;
  most = le;
  below = lt;
  above = above;
}

-- From order `k` the loop ends at some order, if the fuel left reaches order 6.
orders_lem :
    (fuel d k : ℕ)
    → 6 ≤ fuel + k
    → d < 1024 ^ 7
    → (k ≡ 0) ⊎ (1024 ^ k ≤ d)
    → k ≤ 6
    → Ends d (orders (suc fuel) d (1024 ^ k) k)
orders_lem zero d k enough small above le = elim (Bool-cases (leb (1024 * 1024 ^ k) d)) [
  | inr end ↦ Ends-here zero d k (ground arith) above le
  | inl more ↦
      let h = below_six d k small le (leb→le (1024 * 1024 ^ k) d more) in absurd (omega arith)
]
orders_lem (suc fuel) d k enough small above le = elim (Bool-cases (leb (1024 * 1024 ^ k) d)) [
  | inr end ↦ Ends-here (suc fuel) d k (ground arith) above le
  | inl more ↦
      let h = leb→le (1024 * 1024 ^ k) d more in
      let five = below_six d k small le h in
      let up : 1024 ^ suc k ≤ d = omega (arith, pow_suc k) in
      let step =
        orders_more (suc fuel) d (1024 ^ k) k h
        ∙ ap (λ (m : ℕ). orders (suc fuel) d m (suc k)) (pow_suc k) in
      subst (Ends d) (sym step)
        (orders_lem fuel d (suc k) (omega arith) small (inr up) (omega arith))
]

order_unit : (n : ℕ) → n ≤ 6 → (u : List ℕ) × (get_elem? units n ≡ some u)
order_unit n le = get_elem?-inside n units (omega arith)

at_order_unit :
    (num n den : ℕ) (u : List ℕ)
    → get_elem? units n ≡ some u
    → at_order num (some (n, den)) ≡ some (record { num = num; den = den; unit = u })
at_order_unit num n den u e = rw e refl

-- `humane_bytes` of any number whose conversion is below 1024 ^ 7, so of any of 64 bits: the loop
-- ends, `units` is read inside its bounds, and what is printed is below 1024 units and, but for
-- plain bytes, not below one unit.
pub humane_bytes-IsPrinted :
    (to_double : ℕ → ℕ) (bytes : ℕ)
    → to_double bytes < 1024 ^ 7
    → (n : ℕ) × (h : Humane) × (humane_bytes to_double bytes ≡ some h)
      × IsPrinted (to_double bytes) n h
unfolding humane_bytes
humane_bytes-IsPrinted to_double bytes small =
    let r = orders_lem 7 (to_double bytes) 0 (omega arith) small (inl refl) (omega arith) in
    let (u, e) = order_unit r.order r.most in
    (
      r.order,
      record { num = to_double bytes; den = 1024 ^ r.order; unit = u },
      ap (at_order (to_double bytes)) r.ends
          ∙ at_order_unit (to_double bytes) r.order (1024 ^ r.order) u e,
      record { num = refl; den = refl; unit = e; below = r.below; above = r.above },
    )
