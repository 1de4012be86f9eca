-- ===== src/Drive/Lines.antt =====
-- The loops that print one line for each type, state or class.
use jio.Base.{ℕ, zero, suc, ◌+◌, ◌<◌, ◌≡◌, ◌≢◌, refl, ◌∙◌, some, arith, length, get_elem?, ne→==}
use jio.Drive.Commands.{lines}
use jio.EntryArrays.Print.{Cell, cell_of, cells}

pub length-lines {ℓ} : {A : Type ℓ} (n i : ℕ) (line : ℕ → A) → length (lines n i line) ≡ n
length-lines zero i line = refl
length-lines (suc n) i line = omega (arith, length-lines n (suc i) line)

get_elem?-lines_from {ℓ} :
    {A : Type ℓ} (n i k : ℕ) (line : ℕ → A)
    → k < n
    → get_elem? (lines n i line) k ≡ some (line (i + k))
get_elem?-lines_from zero i k line lt = absurd (omega arith)
get_elem?-lines_from (suc n) i zero line lt = λ p. some (line (plus_zero i p))
  where
    plus_zero : (i : ℕ) → i ≡ i + 0
    plus_zero i = omega arith
get_elem?-lines_from (suc n) i (suc k) line lt =
    get_elem?-lines_from n (suc i) k line (omega arith) ∙ (λ p. some (line (moved i k p)))
  where
    moved : (i k : ℕ) → suc i + k ≡ i + suc k
    moved i k = omega arith

-- A cell for `part` of `total`: empty if there is nothing to share.
abbrev pub IsShare : ℕ → ℕ → Cell → Type 0
IsShare total part cell =
    (total ≡ 0 → cell ≡ Cell.empty) × (total ≢ 0 → cell ≡ Cell.share part total)

pub cell_of-IsShare : (total part : ℕ) → IsShare total part (cell_of total part)
cell_of-IsShare total part = (λ none. rw none refl, λ there. rw (ne→== total 0 there) refl)

pub length-cells : (n i : ℕ) (total part : ℕ → ℕ) → length (cells n i total part) ≡ n
length-cells zero i total part = refl
length-cells (suc n) i total part = omega (arith, length-cells n (suc i) total part)

get_elem?-cells_from :
    (n i k : ℕ) (total part : ℕ → ℕ)
    → k < n
    → get_elem? (cells n i total part) k ≡ some (cell_of (total (i + k)) (part (i + k)))
get_elem?-cells_from zero i k total part lt = absurd (omega arith)
get_elem?-cells_from (suc n) i zero total part lt =
    λ p. some (cell_of (total (plus_zero i p)) (part (plus_zero i p)))
  where
    plus_zero : (i : ℕ) → i ≡ i + 0
    plus_zero i = omega arith
get_elem?-cells_from (suc n) i (suc k) total part lt =
    get_elem?-cells_from n (suc i) k total part (omega arith)
    ∙ (λ p. some (cell_of (total (moved i k p)) (part (moved i k p))))
  where
    moved : (i k : ℕ) → suc i + k ≡ i + suc k
    moved i k = omega arith

plus_none : (k : ℕ) → 0 + k ≡ k
plus_none k = omega arith

pub get_elem?-lines {ℓ} :
    {A : Type ℓ} (n k : ℕ) (line : ℕ → A) → k < n → get_elem? (lines n 0 line) k ≡ some (line k)
get_elem?-lines n k line lt =
    get_elem?-lines_from n 0 k line lt ∙ (λ p. some (line (plus_none k p)))

pub get_elem?-cells :
    (n k : ℕ) (total part : ℕ → ℕ)
    → k < n
    → get_elem? (cells n 0 total part) k ≡ some (cell_of (total k) (part k))
get_elem?-cells n k total part lt =
    get_elem?-cells_from n 0 k total part lt
    ∙ (λ p. some (cell_of (total (plus_none k p)) (part (plus_none k p))))
