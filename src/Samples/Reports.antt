-- ===== src/Samples/Reports.antt =====
-- Tests of the theorems on the reports, on reclaiming and on the ids.
use jio.Base.{◌-◌, length, ℕ, ◌+◌, ◌^◌, ◌%◌, ◌≤◌, ◌<◌, ◌≡◌, refl, List, [], ◌∷◌, some, arith, take}
use jio.Io.{Call, Reply, enomem}
use jio.Io.Wp.{Wp}
use jio.Format.{ObjectHeader, Header, header_fields}
use jio.Format.Endian.{le}
use jio.Objects.{Iter}
use jio.Objects.Loads.{header_at}
use jio.Open.Setup.{opened}
use jio.TailWaste.{no_waste}
use jio.TailWaste.Sums.{IsTotal}
use jio.Reclaim.{Reclaimed, reclaim_tail_waste}
use jio.Reclaim.Safety.{Asks, Allowed, reclaim_tail_waste-Allowed, SizeKnown}
use jio.Reclaim.Summary.{told, summary, reclaim_all, number_of_journals, summary-counts}
use jio.Humane.{Humane, humane_bytes}
use jio.Humane.Units.{IsPrinted, humane_bytes-IsPrinted}
use jio.EntryArrays.{Profile, per_entry_array_payload, u64log2}
use jio.EntryArrays.Lookup.{Counts, per_entry_array_payload-Counts}
use jio.EntryArrays.Log.{u64log2-bounds}
use jio.Ids.{cstr, dehyphen, bootid_get}
use jio.Ids.Gets.{Reads, bootid_get-without_hyphens}
use jio.Ids.Dehyphen.{without_hyphens, dehyphen-without_hyphens}
use jio.Samples.{sample_file, answer, bytes_of}

abbrev header : Header
header = header_at sample_file

-- The same header with the state that is behind the last one.
abbrev bad_header : Header
bad_header = record header { state = 3 }

abbrev object : ObjectHeader
object = record { type = 1; flags = 0; size = 72 }

no_waste-IsTotal : IsTotal no_waste
no_waste-IsTotal = record { bytes = refl; counts = refl }

abbrev nothing_reclaimed : Reclaimed
nothing_reclaimed = record {
  n_journals = 0;
  n_reclaimed = 0;
  n_ignored = 0;
  n_errored = 0;
  n_mules = 0;
  reclaimed_bytes = 0;
  ignored_bytes = 0;
  errored_bytes = 0;
}

reclaim_tail_waste-Allowed_example :
    Asks (Allowed 3 header object) (reclaim_tail_waste 3 header object nothing_reclaimed)
unfolding header_fields le
reclaim_tail_waste-Allowed_example =
    reclaim_tail_waste-Allowed 3 header object nothing_reclaimed (omega arith)

summary-counts_example :
    Wp SizeKnown
      (λ e. ⊥)
      (λ t.
        told (summary (λ b. b) t) % 2 ^ 32
        ≡ number_of_journals ((3, header, object) ∷ (4, bad_header, object) ∷ []) % 2 ^ 32)
      (reclaim_all ((3, header, object) ∷ (4, bad_header, object) ∷ []) nothing_reclaimed)
summary-counts_example =
    summary-counts (λ b. b) ((3, header, object) ∷ (4, bad_header, object) ∷ []) nothing_reclaimed
      (refl, refl)

abbrev at_object : Iter
at_object = record { offset = 4096; object = record object { size = 5000 }; journal = opened 3 }

humane_bytes-IsPrinted_example :
    (n : ℕ) × (h : Humane) × (humane_bytes (λ b. b) 1536 ≡ some h) × IsPrinted 1536 n h
humane_bytes-IsPrinted_example = humane_bytes-IsPrinted (λ b. b) 1536 (omega arith)

-- A digest that is the first bytes of the payload.
abbrev prefix : List ℕ → List ℕ
prefix bs = take 20 bs

abbrev no_arrays : Profile
no_arrays = record { count = 0; unique = 0; buckets = λ b. [] }

per_entry_array_payload-Counts_example :
    Wp
      (λ c r. Unit {0})
      (λ e. e ≡ enomem)
      (Counts (1 ∷ 2 ∷ []) (prefix (1 ∷ 2 ∷ [])) no_arrays)
      (per_entry_array_payload prefix (1 ∷ 2 ∷ []) no_arrays)
per_entry_array_payload-Counts_example =
    per_entry_array_payload-Counts prefix (1 ∷ 2 ∷ []) no_arrays (omega arith)

u64log2-bounds_example :
    (2 ^ u64log2 4096 ≤ 4096) × (4096 < 2 ^ (u64log2 4096 + 1)) × (u64log2 4096 < 64)
u64log2-bounds_example = u64log2-bounds 4096 (omega arith) (omega arith)

-- "a-b", its terminator, and a byte behind it.
abbrev hyphened : List ℕ
hyphened = b'a' ∷ b'-' ∷ b'b' ∷ 0 ∷ 7 ∷ []

dehyphen-without_hyphens_example :
    (out : List ℕ) × (dehyphen hyphened ≡ some out) × (cstr out ≡ without_hyphens (cstr hyphened))
dehyphen-without_hyphens_example = dehyphen-without_hyphens hyphened refl

-- A file of "a-b" and a newline.
abbrev id_file : List ℕ
id_file = b'a' ∷ b'-' ∷ b'b' ∷ 10 ∷ []

abbrev Truthful : Call → Reply → Type 0
Truthful c r = r ≡ answer id_file c

id_file-Reads : Reads id_file Truthful
id_file-Reads = record { all = λ fd n bs ok. bytes_of n _ bs _ ok }

bootid_get-without_hyphens_example :
    Wp Truthful
      (λ e. Unit {0})
      (λ out. out ≡ without_hyphens (cstr (take (length id_file - 1) id_file)))
      (bootid_get [] [])
bootid_get-without_hyphens_example =
    bootid_get-without_hyphens id_file Truthful id_file-Reads [] [] (omega arith)
