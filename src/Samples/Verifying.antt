-- ===== src/Samples/Verifying.antt =====
-- Tests of the theorems on the verification of all journals and on the layout of one.
use jio.Base.{ℕ, ◌≡◌, refl, sym, ◌∙◌, inl, inr, some, List, [], ◌∷◌, arith}
use jio.Io.Wp.{Wp}
use jio.Open.Listing.{Any}
use jio.Open.Setup.{opened, opened-IsCache}
use jio.Open.Numbered.{numbered, numbered-IsOwn}
use jio.Io.Obeys.{Obeys, Anything}
use jio.Cache.Own.{OwnCall}
use jio.Objects.{Iter}
use jio.Verify.Own.{per_journal-Obeys}
use jio.Format.{header_fields}
use jio.Format.Endian.{ByteOrder, le}
use jio.Objects.Loads.{header_at}
use jio.Format.{ObjectHeader}
use jio.Format.Object.{Body}
use jio.Verify.{Verified, hash}
use jio.Verify.Sound.{content_of, stored_hash}
use jio.Verify.Report.{
  Hashed, unshared, tasks, promised, tasks-PromiseAll, Disagrees, EachAgrees, Refused, Reported,
  tasks-EachAgrees,
}
use jio.Verify.Outcome.{jio_verify_hashed_objects-EachAgrees}
use jio.Layout.{per_journal, boundary_marker, alignment_marker}
use jio.Layout.Text.{snprintf, boundary_text, alignment_text, markers-whole}
use jio.Layout.Report.{AreMarked, per_journal-AreMarked}
use jio.Tasks.{Pool, Inevitably}
use jio.Drive.Outcome.{journals_of}
use jio.Drive.Commands.{Host, jio_verify_hashed_objects}
use jio.Samples.{honest, no_error, sample_file, sample_file-AreBytes}
use jio.Samples.Scheduling.{Never, object, start, objects-Objects}
use jio.Samples.Starting.{Truthful, setting}
use jio.Samples.Walking.{whole, whole_lem, sum, no_zstd, no_context, objects-AreHashed}
use jio.Samples.Workers.{unverified, heeding, heeding-Dispatches, heedless, heedless-AsksNothing}
use jio.Samples.Driving.{at_file, setting-Starts, serial, serial-Drives}

abbrev keyed : List ℕ → List ℕ → ℕ
keyed bs k = sum bs

abbrev Disk : Type 1
Disk = Hashed keyed sum no_zstd heeding unverified Never

-- Every journal is the sample file.
abbrev stored : ℕ → ℕ → Disk
unfolding le header_fields
stored l fd = record {
  base = at_file sample_file (omega arith) (omega arith) sample_file-AreBytes l fd;
  fuel = 2;
  hs = object ∷ [];
  enough = omega arith;
  objects = objects-Objects;
  loads = objects-AreHashed;
  fresh = refl;
  no_context = no_context;
  dispatches = heeding-Dispatches Never;
}

abbrev pool : List Disk → Pool (Unit {0})
pool js = tasks keyed sum no_zstd heeding unverified Never ByteOrder.big js

tasks-EachAgrees_example :
    Inevitably unshared
      (Reported keyed sum no_zstd heeding unverified Never (stored 0 3 ∷ stored 1 4 ∷ []))
      (tasks keyed sum no_zstd heeding unverified Never ByteOrder.big
        (stored 0 3 ∷ stored 1 4 ∷ []))
      tt
tasks-EachAgrees_example =
    tasks-EachAgrees keyed sum no_zstd heeding unverified Never ByteOrder.big
      (stored 0 3 ∷ stored 1 4 ∷ [])

abbrev host : Host (Unit {0}) (Unit {0})
host = record {
  iou_run = serial unshared sample_file;
  memory = start;
  byte_order = ByteOrder.big;
  fuel = 2;
}

same_whole : (x y : ObjectHeader × Body) → some x ≡ some y → x ≡ y
same_whole x y e = cc

agrees_lem : sum (content_of no_zstd whole) ≡ stored_hash whole.1
agrees_lem = refl

-- The hash of the sample file's object is that of its payload.
none-Disagrees : (l fd : ℕ) → Disagrees keyed sum no_zstd heeding unverified Never (stored l fd) → ⊥
unfolding stored hash le header_fields
none-Disagrees l fd (inl (x, hashed, at, bad)) =
    let same : x ≡ whole = same_whole x whole (sym at ∙ whole_lem) in
    bad ((λ i. sum (content_of no_zstd (same i))) ∙ agrees_lem ∙ (λ i. stored_hash (sym same i).1))
none-Disagrees l fd (inr later) = later

none-Refused :
    (l fd err : ℕ)
    → Refused keyed sum no_zstd heeding unverified Never (stored l fd ∷ []) err
    → Never err
none-Refused l fd err (inl never) = never
none-Refused l fd err (inr (bad, inl d)) = none-Disagrees l fd d
none-Refused l fd err (inr (bad, inr later)) = later

jio_verify_hashed_objects-EachAgrees_example :
    Wp Truthful Any
      (λ u. EachAgrees keyed sum no_zstd heeding unverified Never (journals_of stored setting))
      (jio_verify_hashed_objects keyed sum no_zstd heeding unverified host setting)
unfolding stored
jio_verify_hashed_objects-EachAgrees_example =
    jio_verify_hashed_objects-EachAgrees keyed sum no_zstd heeding unverified Never host stored
      Truthful setting setting-Starts
      (record { read = λ l fd. record { of_fd = refl; it = refl }; fuels = λ l fd. refl })
      (serial-Drives unshared sample_file (pool (journals_of stored setting)) tt
        (promised keyed sum no_zstd heeding unverified Never (journals_of stored setting))
        (tasks-PromiseAll keyed sum no_zstd heeding unverified Never ByteOrder.big
          (journals_of stored setting) Never (none-Refused 1 5))
        (λ c. refl, tt))

-- The iteration of the journal of number 1.
abbrev second : Iter
second = record start { journal = numbered 1 (opened 5) }

per_journal-AreMarked_example :
    Wp
      (honest sample_file).Ok
      (honest sample_file).E
      (AreMarked (header_at sample_file).header_size (object ∷ []))
      (per_journal ByteOrder.big 2 (b'a' ∷ []) start)
unfolding le header_fields
per_journal-AreMarked_example =
    per_journal-AreMarked sample_file (honest sample_file) (omega arith) sample_file-AreBytes
      ByteOrder.big (λ name err ok. no_error err 0 [] ok) 2 (b'a' ∷ []) (object ∷ []) start
      (omega arith) (omega arith) objects-Objects (omega arith, tt) (omega arith) (omega arith, tt)
      (opened-IsCache sample_file 3)

markers-whole_example :
    (snprintf 22 (boundary_text (boundary_marker 4000 9001))
      ≡ boundary_text (boundary_marker 4000 9001))
    × (snprintf 3 (alignment_text (alignment_marker 9001)) ≡ alignment_text (alignment_marker 9001))
markers-whole_example = markers-whole 4000 9001 (omega arith)

per_journal-Obeys_example :
    Obeys
      (OwnCall 1)
      Anything
      (jio.Verify.per_journal keyed sum no_zstd heedless ByteOrder.big 2 second unverified)
per_journal-Obeys_example =
    per_journal-Obeys 1 keyed sum no_zstd heedless heedless-AsksNothing ByteOrder.big 2 second
      unverified (numbered-IsOwn 1 sample_file (opened 5) (opened-IsCache sample_file 5))
