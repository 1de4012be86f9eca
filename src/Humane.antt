-- ===== src/Humane.antt =====
-- `humane_bytes` of src/humane.c: the unit that a number of bytes is printed in. The double `z`
-- is the fraction `num / den`: the conversion of an integer to a double, which rounds, is a
-- parameter, and a division of such a double by 1024 is exact.
pub mod Units
use jio.Base.{
  ℕ, zero, suc, ◌+◌, ◌*◌, List, [], ◌∷◌, Option, none, some, leb, if◌then◌else◌, get_elem?,
}

-- `static const char * units[]`
abbrev pub units : List (List ℕ)
units =
    (b'B' ∷ [])
    ∷ (b'K' ∷ b'i' ∷ b'B' ∷ [])
    ∷ (b'M' ∷ b'i' ∷ b'B' ∷ [])
    ∷ (b'G' ∷ b'i' ∷ b'B' ∷ [])
    ∷ (b'T' ∷ b'i' ∷ b'B' ∷ [])
    ∷ (b'P' ∷ b'i' ∷ b'B' ∷ [])
    ∷ (b'E' ∷ b'i' ∷ b'B' ∷ [])
    ∷ []

-- What is printed: `z` as a fraction, and the unit.
pub record Humane : Type 0 where
  pub num : ℕ
  pub den : ℕ
  pub unit : List ℕ

-- `while (z >= 1024)`, for at most that many rounds: the order and the denominator.
unfoldable pub orders : ℕ → ℕ → ℕ → ℕ → Option (ℕ × ℕ)
orders zero num den order = none
orders (suc fuel) num den order =
    let rest = orders fuel num (den * 1024) (suc order) in
    if leb (1024 * den) num then rest else some (order, den)

abbrev pub at_order : ℕ → Option (ℕ × ℕ) → Option Humane
at_order num none = none
at_order num (some (order, den)) = elim (get_elem? units order) [
  | none ↦ none
  | some u ↦ some (record { num = num; den = den; unit = u })
]

-- None is a read of `units` out of its bounds.
unfoldable pub humane_bytes : (ℕ → ℕ) → ℕ → Option Humane
humane_bytes to_double bytes = at_order (to_double bytes) (orders 8 (to_double bytes) 1 0)
