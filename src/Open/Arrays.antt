-- ===== src/Open/Arrays.antt =====
-- The array of the journals, when one of them is replaced or all are numbered.
use jio.Base.{
  ℕ, zero, suc, ◌+◌, ◌<◌, ◌≡◌, ◌≢◌, refl, ap, ◌∙◌, Option, some, List, [], ◌∷◌, arith, length,
  get_elem?, set,
}
use jio.Lru.{Journal}
use jio.Open.{number_bufs, number_all}

pub get-set :
    (i : ℕ) (js : List Journal) (k : Journal) → i < length js → get_elem? (set js i k) i ≡ some k
get-set i [] k h = absurd (omega arith)
get-set zero (x ∷ xs) k h = refl
get-set (suc i) (x ∷ xs) k h = get-set i xs k (omega arith)

pub get-set_other :
    (i l : ℕ) (js : List Journal) (k : Journal) → i ≢ l → get_elem? (set js i k) l ≡ get_elem? js l
get-set_other i l [] k h = refl
get-set_other zero zero (x ∷ xs) k h = absurd (h refl)
get-set_other zero (suc l) (x ∷ xs) k h = refl
get-set_other (suc i) zero (x ∷ xs) k h = refl
get-set_other (suc i) (suc l) (x ∷ xs) k h = get-set_other i l xs k (λ p. h (ap suc p))

pub length-set : (i : ℕ) (js : List Journal) (k : Journal) → length (set js i k) ≡ length js
length-set i [] k = refl
length-set zero (x ∷ xs) k = refl
length-set (suc i) (x ∷ xs) k = ap suc (length-set i xs k)

pub length-number_all : (n : ℕ) (js : List Journal) → length (number_all n js) ≡ length js
length-number_all n [] = refl
length-number_all n (j ∷ js) = ap suc (length-number_all (suc n) js)

pub add_zero : (n : ℕ) → n ≡ n + 0
add_zero n = omega arith

pub add_suc : (n i : ℕ) → suc n + i ≡ n + suc i
add_suc n i = omega arith

pub unsome : (a b : Journal) → ◌≡◌ {A = Option Journal} (some a) (some b) → a ≡ b
unsome a b e = cc

pub get-number_all :
    (i n : ℕ) (js : List Journal) (j : Journal)
    → get_elem? js i ≡ some j
    → get_elem? (number_all n js) i ≡ some (number_bufs (n + i) (record j { idx = n + i }))
get-number_all i n [] j h = cc h
get-number_all zero n (x ∷ xs) j h =
    λ k. some (number_bufs (add_zero n k) (record (unsome x j h k) { idx = add_zero n k }))
get-number_all (suc i) n (x ∷ xs) j h =
    get-number_all i (suc n) xs j h
    ∙ (λ k. some (number_bufs (add_suc n i k) (record j { idx = add_suc n i k })))

pub get-inside : (i : ℕ) (js : List Journal) (j : Journal) → get_elem? js i ≡ some j → i < length js
get-inside i [] j h = cc h
get-inside zero (x ∷ xs) j h = omega arith
get-inside (suc i) (x ∷ xs) j h = omega (arith, get-inside i xs j h)
