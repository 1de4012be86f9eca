-- ===== src/Layout/Text.antt =====
-- The markers as the texts that `per_data_object` of src/report-layout.c writes into its two
-- buffers by `snprintf`, which cuts a text that does not fit.
use jio.Base.{
  ◌-◌, ap, ℕ, zero, suc, ◌+◌, ◌*◌, ◌/◌, ◌%◌, ◌^◌, ◌<◌, ◌≤◌, ◌≡◌, refl, List, [], ◌∷◌, ◌++◌, arith,
  length, ltb, if◌then◌else◌, take, Bool-cases, lt→ltb, inl, inr, length-append,
}
use jio.Layout.{Marker, boundary_marker, alignment_marker}

-- `%PRIu64`: the digits of a number, the last one first left to the recursion; 20 are enough.
abbrev pub digits : ℕ → ℕ → List ℕ
digits zero n = []
digits (suc more) n =
    let rest = digits more (n / 10) in
    if ltb n 10 then (b'0' + n) ∷ [] else rest ++ (b'0' + n % 10) ∷ []

abbrev pub decimal : ℕ → List ℕ
decimal n = digits 20 n

-- `snprintf(buf, size, ...)`: the string that is then in the buffer.
abbrev pub snprintf : ℕ → List ℕ → List ℕ
snprintf size text = take (size - 1) text

-- What is written for a boundary marker, and for an alignment marker.
abbrev pub boundary_text : Marker → List ℕ
boundary_text Marker.empty = []
boundary_text Marker.sign = b'|' ∷ []
boundary_text (Marker.number n) = b'|' ∷ decimal n ++ b'|' ∷ []

abbrev pub alignment_text : Marker → List ℕ
alignment_text Marker.empty = []
alignment_text Marker.sign = b'+' ∷ []
alignment_text (Marker.number n) = b'+' ∷ decimal n

abbrev pow10 : ℕ → ℕ
pow10 zero = 1
pow10 (suc k) = 10 * pow10 k

length-digits : (more k n : ℕ) → n < 10 * pow10 k → length (digits more n) ≤ suc k
length-digits zero k n h = omega arith
length-digits (suc more) zero n h = rw (lt→ltb n 10 (omega arith)) (omega arith)
length-digits (suc more) (suc k) n h = elim (Bool-cases (ltb n 10)) [
  | inl small ↦ rw small (omega arith)
  | inr large ↦ rw large (
      omega (
        arith,
        length-append (digits more (n / 10)) ((b'0' + n % 10) ∷ []),
        length-digits more k (n / 10) (omega arith),
      ))
]

take-all : (n : ℕ) (xs : List ℕ) → length xs ≤ n → take n xs ≡ xs
take-all zero [] h = refl
take-all zero (x ∷ xs) h = absurd (omega arith)
take-all (suc n) [] h = refl
take-all (suc n) (x ∷ xs) h = ap (λ (r : List ℕ). x ∷ r) (take-all n xs (omega arith))

-- The numbers of a marker are below a bound.
abbrev IsBelow : ℕ → Marker → Type 0
IsBelow n Marker.empty = Unit
IsBelow n Marker.sign = Unit
IsBelow n (Marker.number k) = k < n

boundary-IsBelow : (off size : ℕ) → IsBelow (10 ^ 16) (boundary_marker off size)
unfolding boundary_marker
boundary-IsBelow off size = ground arith

alignment-IsBelow : (size : ℕ) → size < 2 ^ 64 → IsBelow 10 (alignment_marker size)
unfolding alignment_marker
alignment-IsBelow size h = ground arith

boundary_fits : (m : Marker) → IsBelow (10 ^ 16) m → length (boundary_text m) < 22
boundary_fits Marker.empty h = omega arith
boundary_fits Marker.sign h = omega arith
boundary_fits (Marker.number n) h =
    omega (arith, length-digits 20 15 n (omega arith), length-append (decimal n) (b'|' ∷ []))

alignment_fits : (m : Marker) → IsBelow 10 m → length (alignment_text m) < 3
alignment_fits Marker.empty h = omega arith
alignment_fits Marker.sign h = omega arith
alignment_fits (Marker.number n) h = omega (arith, length-digits 20 0 n (omega arith))

-- For every offset and every size that is a `uint64_t`, also where the end of the object or its
-- alignment wraps: `boundary_marker` of 22 bytes and `alignment_marker` of 3 bytes hold their texts
-- whole, with the terminator.
pub markers-whole :
    (off size : ℕ)
    → size < 2 ^ 64
    → (snprintf 22 (boundary_text (boundary_marker off size))
        ≡ boundary_text (boundary_marker off size))
      × (snprintf 3 (alignment_text (alignment_marker size))
          ≡ alignment_text (alignment_marker size))
markers-whole off size h = (
  take-all 21 _ (
      boundary (length (boundary_text (boundary_marker off size)))
        (boundary_fits (boundary_marker off size) (boundary-IsBelow off size))),
  take-all 2 _ (
      alignment (length (alignment_text (alignment_marker size)))
        (alignment_fits (alignment_marker size) (alignment-IsBelow size h))),
)
  where
    boundary : (n : ℕ) → n < 22 → n ≤ 21
    boundary n h = omega arith

    alignment : (n : ℕ) → n < 3 → n ≤ 2
    alignment n h = omega arith
