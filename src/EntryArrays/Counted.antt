-- ===== src/EntryArrays/Counted.antt =====
-- The counts of `jio report entry-arrays` add up: those of the table, and those of the classes.
use mathlib.Core.Path.{subst}
use jio.Base.{
  ℕ, ◌+◌, ◌/◌, ◌%◌, ◌^◌, ◌<◌, ◌≡◌, refl, ap, ◌∙◌, List, [], ◌∷◌, Bool, Option, none, some, arith,
  length, ◌==◌, if◌then◌else◌, add64, Bool-cases, inl, inr, true, false, lt→ltb,
}
use jio.Io.{Call, Reply, done, enomem}
use jio.Io.Wp.{Wp, allocated-Wp}
use jio.EntryArrays.Sums.{sum_from, sum_from-zero, sum_from-eq, changed, sum_from-changed}
use jio.EntryArrays.{
  EntryArray, Profile, n_buckets, same_digest, bucket_loop, bucket_of, bump, utilization,
  set_bucket, add_array, per_entry_array_payload,
}

-- The sum of the counts of a bucket's arrays, and their number.
abbrev pub counts : List EntryArray → ℕ
counts [] = 0
counts (ea ∷ eas) = ea.count + counts eas

abbrev pub number : List EntryArray → ℕ
number [] = 0
number (ea ∷ eas) = 1 + number eas

bucket_loop_lt : (ds : List ℕ) (bucket : ℕ) → bucket < n_buckets → bucket_loop bucket ds < n_buckets
bucket_loop_lt [] bucket h = h
bucket_loop_lt (d ∷ ds) bucket h = bucket_loop_lt ds ((bucket + d) % n_buckets) (omega arith)

-- The sum of the counts of the whole table, and the number of its arrays.
unfoldable pub table_counts : Profile → ℕ
table_counts p = sum_from n_buckets 0 (λ i. counts (p.buckets i))

unfoldable pub table_number : Profile → ℕ
table_number p = sum_from n_buckets 0 (λ i. number (p.buckets i))

-- The counters of a profile are those of its table, in `uint64_t`.
pub record IsCounted (p : Profile) : Type 0 where
  pub count : p.count % 2 ^ 64 ≡ table_counts p % 2 ^ 64
  pub unique : p.unique % 2 ^ 64 ≡ table_number p % 2 ^ 64

-- `calloc` gives a profile without arrays.
abbrev pub no_arrays : Profile
no_arrays = record { count = 0; unique = 0; buckets = λ i. [] }

pub no_arrays-IsCounted : IsCounted no_arrays
unfolding table_counts table_number
no_arrays-IsCounted = record {
  count = omega (arith, sum_from-zero n_buckets 0);
  unique = omega (arith, sum_from-zero n_buckets 0);
}

-- What the search for a digest does to the counts of a bucket.
BumpedCount : List EntryArray → Option (List EntryArray) → Type 0
BumpedCount eas none = Unit
BumpedCount eas (some r) = (counts r % 2 ^ 64 ≡ (counts eas + 1) % 2 ^ 64) × (number r ≡ number eas)

BumpedCount-cons :
    (same : Bool) (ea : EntryArray) (eas : List EntryArray) (rest : Option (List EntryArray))
    → BumpedCount eas rest
    → BumpedCount (ea ∷ eas) (
        if same
        then some (record ea { count = add64 ea.count 1 } ∷ eas)
        else elim rest [ none ↦ none | some r ↦ some (ea ∷ r) ])
unfolding BumpedCount
BumpedCount-cons true ea eas rest h = (omega arith, refl)
BumpedCount-cons false ea eas none h = tt
BumpedCount-cons false ea eas (some r) (c, n) = (omega arith, omega arith)

bump-BumpedCount : (d : List ℕ) (eas : List EntryArray) → BumpedCount eas (bump d eas)
unfolding BumpedCount
bump-BumpedCount d [] = tt
bump-BumpedCount d (ea ∷ eas) =
    BumpedCount-cons (same_digest ea.digest d) ea eas (bump d eas) (bump-BumpedCount d eas)

changed_lem :
    (m : List EntryArray → ℕ) (p : Profile) (b : ℕ) (eas : List EntryArray) (i : ℕ)
    → m ((set_bucket p b eas).buckets i) ≡ changed (λ k. m (p.buckets k)) b (m eas) i
changed_lem m p b eas i = elim (Bool-cases (i == b)) [
  | inl same ↦ rw same refl
  | inr other ↦ rw other refl
]

set_bucket_lem :
    (m : List EntryArray → ℕ) (n : ℕ) (p : Profile) (b : ℕ) (eas : List EntryArray)
    → b < n
    → sum_from n 0 (λ i. m ((set_bucket p b eas).buckets i)) + m (p.buckets b)
      ≡ sum_from n 0 (λ i. m (p.buckets i)) + m eas
set_bucket_lem m n p b eas h =
    ap (λ x. x + m (p.buckets b)) (sum_from-eq n 0 _ _ (changed_lem m p b eas))
    ∙ sum_from-changed n 0 b (m eas) (λ i. m (p.buckets i)) (omega arith) (omega arith)

set_bucket-counts :
    (p : Profile) (b : ℕ) (eas : List EntryArray)
    → b < n_buckets
    → table_counts (set_bucket p b eas) + counts (p.buckets b) ≡ table_counts p + counts eas
unfolding table_counts
set_bucket-counts p b eas h = set_bucket_lem counts n_buckets p b eas h

set_bucket-number :
    (p : Profile) (b : ℕ) (eas : List EntryArray)
    → b < n_buckets
    → table_number (set_bucket p b eas) + number (p.buckets b) ≡ table_number p + number eas
unfolding table_number
set_bucket-number p b eas h = set_bucket_lem number n_buckets p b eas h

-- The profile has counted an array that its table is still without.
record IsAhead (p : Profile) : Type 0 where
  count : p.count % 2 ^ 64 ≡ (table_counts p + 1) % 2 ^ 64
  unique : p.unique % 2 ^ 64 ≡ table_number p % 2 ^ 64

table-count :
    (p : Profile) (c : ℕ)
    → (table_counts (record p { count = c }) ≡ table_counts p)
      × (table_number (record p { count = c }) ≡ table_number p)
unfolding table_counts table_number
table-count p c = (refl, refl)

IsAhead-count : (p : Profile) → IsCounted p → IsAhead (record p { count = add64 p.count 1 })
IsAhead-count p h =
    let (c, n) = table-count p (add64 p.count 1) in
    record { count = omega (arith, h.count, c); unique = omega (arith, h.unique, n) }

table-unique :
    (p : Profile) (u : ℕ)
    → (table_counts (record p { unique = u }) ≡ table_counts p)
      × (table_number (record p { unique = u }) ≡ table_number p)
unfolding table_counts table_number
table-unique p u = (refl, refl)

-- The profile behind an array: its counters are those of its table, and `c` arrays were seen.
abbrev pub Kept : ℕ → Profile → Type 0
Kept c p = IsCounted p × (p.count ≡ c)

module _ (Ok : Call → Reply → Type 0) (E : ℕ → Type 0)
    (no_memory : (n e : ℕ) → Ok (Call.malloc n) (Reply.error e) → E enomem) where
  add_array-Kept :
      (payload digest : List ℕ) (b : ℕ) (p : Profile)
      → b < n_buckets
      → IsAhead p
      → Wp Ok E (Kept p.count) (add_array payload digest b p)
  unfolding add_array
  add_array-Kept payload digest b p below h = λ r ok.
      allocated-Wp Ok E (Kept p.count) r _
        (λ e q. no_memory 56 e (subst (Ok (Call.malloc 56)) q ok))
        (let ea : EntryArray = record {
          digest = digest;
          count = 1;
          size = length payload;
          utilized = utilization (length payload / 8) payload;
        } in
          let eas = ea ∷ p.buckets b in
          let q = set_bucket p b eas in
          let (c, n) = table-unique q (add64 p.unique 1) in
          (
            record {
              count = omega (arith, h.count, c, set_bucket-counts p b eas below);
              unique = omega (arith, h.unique, n, set_bucket-number p b eas below);
            },
            refl,
          ))

  bumped-Kept :
      (payload digest : List ℕ) (b : ℕ) (p : Profile) (o : Option (List EntryArray))
      → b < n_buckets
      → IsAhead p
      → BumpedCount (p.buckets b) o
      → Wp Ok E
          (Kept p.count)
          (elim o [ none ↦ add_array payload digest b p | some eas ↦ done (set_bucket p b eas) ])
  unfolding BumpedCount
  bumped-Kept payload digest b p none below h c = add_array-Kept payload digest b p below h
  bumped-Kept payload digest b p (some eas) below h (c, n) = (
    record {
      count = omega (arith, h.count, c, set_bucket-counts p b eas below);
      unique = omega (arith, h.unique, n, set_bucket-number p b eas below);
    },
    refl,
  )

  -- An entry array whose payload is not empty, counted in the profile, keeps the counters of the
  -- profile those of its table: the number of arrays seen is the sum of the counts, and the number
  -- of unique ones is the number of arrays in the table, in `uint64_t`. Only an allocation may fail.
  pub per_entry_array_payload-Kept :
      (sha1 : List ℕ → List ℕ) (payload : List ℕ) (p : Profile)
      → 0 < length payload
      → IsCounted p
      → Wp Ok E
          (Kept (add64 p.count 1))
          (per_entry_array_payload sha1 payload (record p { count = add64 p.count 1 }))
  unfolding per_entry_array_payload
  per_entry_array_payload-Kept sha1 payload p pos h =
      let digest = sha1 payload in
      let b = bucket_of digest in
      rw (lt→ltb 0 (length payload) pos) (
        bumped-Kept payload digest b (record p { count = add64 p.count 1 })
          (bump digest (p.buckets b)) (bucket_loop_lt digest 0 (omega arith)) (IsAhead-count p h)
          (bump-BumpedCount digest (p.buckets b)))
