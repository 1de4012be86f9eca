-- ===== src/EntryArrays/Log.antt =====
-- `u64log2` is the logarithm, rounded down.
use jio.Base.{
  ℕ, zero, suc, ◌+◌, ◌-◌, ◌*◌, ◌^◌, ◌≤◌, ◌<◌, ◌≡◌, arith, Bool-cases, inl, inr, leb, ltb,
  if◌then◌else◌, leb→le,
}
use mathlib.Core.Path.{subst}
use jio.EntryArrays.{clz, u64log2}

suc_one : (w : ℕ) → suc w ≡ w + 1
suc_one w = omega arith

pow_suc : (k : ℕ) → 2 ^ suc k ≡ 2 * 2 ^ k
pow_suc k = omega arith

-- The first one of a number of `w` bits that is not zero.
clz_lem :
    (w n : ℕ)
    → 0 < n
    → n < 2 ^ w
    → (k : ℕ) × (clz w n + (k + 1) ≡ w) × (2 ^ k ≤ n) × (n < 2 ^ (k + 1))
unfolding clz
clz_lem zero n pos small = absurd (omega arith)
clz_lem (suc w) n pos small = elim (Bool-cases (leb (2 ^ w) n)) [
  | inl high ↦
      rw high
        (w, omega arith, leb→le (2 ^ w) n high, subst (λ (m : ℕ). n < 2 ^ m) (suc_one w) small)
  | inr low ↦ let (k, e, a, b) = clz_lem w n pos (ground arith) in rw low (k, omega arith, a, b)
]

log_one : (n k : ℕ) → 0 < n → n ≤ 1 → 2 ^ k ≤ n → k ≡ 0
log_one n zero pos one h = omega arith
log_one n (suc k) pos one h = absurd (omega (arith, pow_suc k, pow_pos k))
  where
    pow_pos : (k : ℕ) → 1 ≤ 2 ^ k
    pow_pos zero = omega arith
    pow_pos (suc k) = omega (arith, pow_suc k, pow_pos k)

log_lem : (c n k : ℕ) → 0 < n → c + (k + 1) ≡ 64 → 2 ^ k ≤ n → (if ltb 1 n then 63 - c else 0) ≡ k
log_lem c n k pos e h = elim (Bool-cases (ltb 1 n)) [
  | inl more ↦ rw more (omega arith)
  | inr one ↦ rw one (omega (arith, log_one n k pos (ground arith) h))
]

-- For a number of 64 bits that is not zero, `u64log2` is the exponent of the greatest power of two
-- that is not above it, so that it indexes the arrays of 64 statistics.
pub u64log2-bounds :
    (n : ℕ)
    → 0 < n
    → n < 2 ^ 64
    → (2 ^ u64log2 n ≤ n) × (n < 2 ^ (u64log2 n + 1)) × (u64log2 n < 64)
unfolding u64log2
u64log2-bounds n pos small =
    let (k, e, a, b) = clz_lem 64 n pos small in
    let log : u64log2 n ≡ k = log_lem (clz 64 n) n k pos e a in rw log (a, b, omega arith)
