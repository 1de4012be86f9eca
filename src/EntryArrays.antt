-- ===== src/EntryArrays.antt =====
-- `jio report entry-arrays`, of src/report-entry-arrays.c: the hash table that counts entry
-- arrays by the SHA-1 of their items, and the statistics by the logarithm of their size. SHA-1
-- (of OpenSSL) is a parameter. Arrays are functions of their index.
pub mod Lookup
pub mod Log
pub mod Sums
pub mod Counted
pub mod Classes
pub mod Walk
pub mod Totals
pub mod Report
pub mod Own
pub mod Outcome
pub mod Print
use jio.Base.{
  ℕ, zero, suc, ◌+◌, ◌-◌, ◌*◌, ◌/◌, ◌%◌, ◌^◌, List, [], ◌∷◌, Bool, true, false, Option, none, some,
  ltb, leb, ◌==◌, ◌&&◌, if◌then◌else◌, length, take, drop, add64, sub64,
}
use jio.Io.{Step, Call, done, fault, out_of_fuel, call, allocated, assert, ◌>>=◌}
use jio.Lru.{Journal}
use jio.Cache.{journal_read}
use jio.Format.{ObjectHeader, Header}
use jio.Format.ObjectType
use jio.Format.Endian.{ByteOrder}
use jio.Objects.{Iter, journal_get_header, journal_iter_next_object}

abbrev pub n_buckets : ℕ
n_buckets = 65536

-- `entry_array_t`, in a bucket's list.
pub record EntryArray : Type 0 where
  pub digest : List ℕ
  pub count : ℕ
  pub size : ℕ
  pub utilized : ℕ

pub record Profile : Type 0 where
  pub count : ℕ
  pub unique : ℕ
  pub buckets : ℕ → List EntryArray

-- `memcmp` of two digests.
abbrev pub same_digest : List ℕ → List ℕ → Bool
same_digest [] [] = true
same_digest (x ∷ xs) (y ∷ ys) = (x == y) && same_digest xs ys
same_digest _ _ = false

-- The loop that turns the digest into a bucket id.
abbrev pub bucket_loop : ℕ → List ℕ → ℕ
bucket_loop bucket [] = bucket
bucket_loop bucket (d ∷ ds) = bucket_loop ((bucket + d) % n_buckets) ds

abbrev pub bucket_of : List ℕ → ℕ
bucket_of digest = bucket_loop 0 digest

-- The bucket's list with the counter of the digest's array one greater, if there is one.
abbrev pub bump : List ℕ → List EntryArray → Option (List EntryArray)
bump digest [] = none
bump digest (ea ∷ eas) =
    let rest = bump digest eas in
    if same_digest ea.digest digest
    then some (record ea { count = add64 ea.count 1 } ∷ eas)
    else elim rest [ none ↦ none | some r ↦ some (ea ∷ r) ]

abbrev pub is_zero : List ℕ → Bool
is_zero [] = true
is_zero (b ∷ bs) = (b == 0) && is_zero bs

-- The bytes of the items that are not zero, of the first `n` items.
abbrev pub utilization : ℕ → List ℕ → ℕ
utilization zero bs = 0
utilization (suc n) bs =
    let rest = utilization n (drop 8 bs) in if is_zero (take 8 bs) then rest else 8 + rest

abbrev pub set_bucket : Profile → ℕ → List EntryArray → Profile
set_bucket p b eas = record p { buckets = λ i. if i == b then eas else p.buckets i }

-- A new array for a digest that no array has; `sizeof(entry_array_t)` is 56.
unfoldable pub add_array : List ℕ → List ℕ → ℕ → Profile → Step Profile
add_array payload digest bucket p = call (Call.malloc 56) λ r. allocated r (
    done
      (record (set_bucket p bucket (
        record {
          digest = digest;
          count = 1;
          size = length payload;
          utilized = utilization (length payload / 8) payload;
        }
        ∷ p.buckets bucket)) { unique = add64 p.unique 1 }))

-- `per_entry_array_payload`, up to its closure.
unfoldable pub per_entry_array_payload : (List ℕ → List ℕ) → List ℕ → Profile → Step Profile
per_entry_array_payload sha1 payload p =
    let digest = sha1 payload in
    let bucket = bucket_of digest in
    assert (ltb 0 (length payload)) (elim (bump digest (p.buckets bucket)) [
      | none ↦ add_array payload digest bucket p
      | some eas ↦ done (set_bucket p bucket eas)
    ])

-- `__builtin_clzll`, of the lowest `w` bits: the number of zeros above the first one.
unfoldable pub clz : ℕ → ℕ → ℕ
clz zero n = 0
clz (suc w) n = let rest = clz w n in if leb (2 ^ w) n then 0 else suc rest

-- `u64log2`: exclusive or with 63 of a number of at most 63.
unfoldable pub u64log2 : ℕ → ℕ
u64log2 n = if ltb 1 n then 63 - clz 64 n else 0

-- `entry_array_stats_t`.
pub record Stats : Type 0 where
  pub count : ℕ
  pub unique : ℕ
  pub counts_total : ℕ → ℕ
  pub counts_unique : ℕ → ℕ
  pub bytes_total : ℕ → ℕ
  pub bytes_unique : ℕ → ℕ
  pub utilized_total : ℕ → ℕ
  pub utilized : ℕ → ℕ

abbrev pub no_stats : Stats
no_stats = record {
  count = 0;
  unique = 0;
  counts_total = λ i. 0;
  counts_unique = λ i. 0;
  bytes_total = λ i. 0;
  bytes_unique = λ i. 0;
  utilized_total = λ i. 0;
  utilized = λ i. 0;
}

abbrev pub mul64 : ℕ → ℕ → ℕ
mul64 a b = a * b % 2 ^ 64

-- `f[k] += v` and `f[k] = v`.
abbrev pub plus_at : (ℕ → ℕ) → ℕ → ℕ → ℕ → ℕ
plus_at f k v i = if i == k then add64 (f i) v else f i

abbrev pub put_at : (ℕ → ℕ) → ℕ → ℕ → ℕ → ℕ
put_at f k v i = if i == k then v else f i

-- What `per_object` adds for one array at the end of a journal.
unfoldable pub add_entry_array : EntryArray → Stats → Stats
add_entry_array ea s =
    let l2sz = u64log2 ea.size in
    record s {
      counts_unique = plus_at s.counts_unique l2sz 1;
      counts_total = plus_at s.counts_total l2sz ea.count;
      bytes_unique = put_at s.bytes_unique l2sz ea.size;
      bytes_total = put_at s.bytes_total l2sz (mul64 ea.size ea.count);
      utilized_total = plus_at s.utilized_total l2sz (mul64 ea.size ea.count);
      utilized = plus_at s.utilized l2sz (mul64 ea.utilized ea.count);
    }

abbrev pub add_entry_arrays : List EntryArray → Stats → Stats
add_entry_arrays [] s = s
add_entry_arrays (ea ∷ eas) s = add_entry_arrays eas (add_entry_array ea s)

-- The loop over the buckets, with that many left, at bucket `i`.
abbrev pub add_buckets : ℕ → ℕ → (ℕ → List EntryArray) → Stats → Stats
add_buckets zero i buckets s = s
add_buckets (suc left) i buckets s =
    add_buckets left (suc i) buckets (add_entry_arrays (buckets i) s)

unfoldable pub stats_of : Profile → Stats
stats_of p =
    add_buckets n_buckets 0 p.buckets (record no_stats { count = p.count; unique = p.unique })

abbrev pub sums_of : (ℕ → ℕ) → (ℕ → ℕ) → ℕ → ℕ
sums_of f g i = if ltb i 64 then add64 (f i) (g i) else f i

unfoldable pub add_stats : Stats → Stats → Stats
add_stats d s = record {
  count = add64 d.count s.count;
  unique = add64 d.unique s.unique;
  counts_total = sums_of d.counts_total s.counts_total;
  counts_unique = sums_of d.counts_unique s.counts_unique;
  bytes_total = sums_of d.bytes_total s.bytes_total;
  bytes_unique = sums_of d.bytes_unique s.bytes_unique;
  utilized_total = sums_of d.utilized_total s.utilized_total;
  utilized = sums_of d.utilized s.utilized;
}

module _ (sha1 : List ℕ → List ℕ) (e : ByteOrder) where
  -- `per_object` at an object, up to the next step; the items lie behind 24 bytes of the object.
  unfoldable pub per_object : Iter → Profile → Step (Journal × Profile)
  per_object it p =
      if it.object.type == ObjectType.entry_array
      then (let payload_size = sub64 it.object.size 24 in
          call (Call.malloc payload_size) λ r. allocated r (do
            (payload, j) ← journal_read (add64 it.offset 24) payload_size it.journal
            p' ← per_entry_array_payload sha1 payload (record p { count = add64 p.count 1 })
            done (j, p')))
      else done (it.journal, p)

  -- The iteration that `per_object` drives, for at most that many steps: the statistics of the
  -- journal behind it.
  unfoldable pub profile_objects : ℕ → Header → Iter → Profile → Step Stats
  profile_objects zero h it p = out_of_fuel
  profile_objects (suc fuel) h it p = do
    it' ← journal_iter_next_object e h it
    if it'.offset == 0
        then done (stats_of p)
        else (do (j, p') ← per_object it' p; profile_objects fuel h (record it' { journal = j }) p')

  -- `per_journal`, from the memory that it is given, up to the end of the journal.
  unfoldable pub per_journal : ℕ → Iter → Profile → Step Stats
  per_journal fuel it p = do
    (h, j) ← journal_get_header e it.journal
    profile_objects fuel h (record it { journal = j }) p
