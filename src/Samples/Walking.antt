-- ===== src/Samples/Walking.antt =====
-- Tests of the theorems on the objects of a journal.
use jio.Base.{ℕ, ◌+◌, ◌-◌, ◌^◌, ◌≡◌, refl, List, [], ◌∷◌, Option, some, arith, true, false}
use jio.Io.{Call, Reply, Step, done}
use jio.Io.Wp.{Wp}
use jio.Cache.World.{World}
use jio.Cache.Window.{IsCache}
use jio.Open.Setup.{opened, opened-IsCache}
use jio.Format.{ObjectHeader, Header, header_fields}
use jio.Format.Object.{Body, body_with}
use jio.Format.Endian.{ByteOrder, le}
use jio.Objects.{Iter, advance, journal_get_object, journal_iter_objects}
use jio.Objects.Advance.{advance_stuck}
use jio.Objects.Loads.{header_at}
use jio.Objects.Full.{whole_at, journal_get_object-le}
use jio.Objects.Walk.{Objects, visit, journal_iter_objects-visit}
use jio.Usage.{no_usage, per_data_object}
use jio.Usage.Tally.{Adds, seen, journal_iter_objects-Adds}
use jio.Verify.{Zstd, ZstdResult}
use jio.Verify.Walk.{AreHashed}
use jio.Samples.{no_error, honest, sample_file, sample_file-AreBytes}

abbrev world : World sample_file
world = honest sample_file

abbrev header : Header
header = header_at sample_file

-- The sample file's object.
abbrev object : ObjectHeader
object = record { type = 1; flags = 0; size = 72 }

abbrev objects : List ObjectHeader
objects = object ∷ []

abbrev start : Iter
start = record { offset = 0; object = object; journal = opened 3 }

cache : IsCache sample_file (opened 3)
cache = opened-IsCache sample_file 3

pub objects-Objects : Objects sample_file 256 256 objects
unfolding le
objects-Objects = (λ p. cc p, omega arith, refl, λ p. cc p, omega arith, omega arith)

-- The object as a whole.
abbrev pub whole : ObjectHeader × Body
whole = (
  object,
  Body.data_body (record {
    hash = 5;
    next_hash_offset = 0;
    next_field_offset = 0;
    entry_offset = 0;
    entry_array_offset = 0;
    n_entries = 0;
    payload = 2 ∷ 3 ∷ 0 ∷ 0 ∷ 0 ∷ 0 ∷ 0 ∷ 0 ∷ [];
  }),
)

pub whole_lem : whole_at sample_file 256 72 ≡ some whole
unfolding le body_with
whole_lem = refl

journal_get_object-le_example :
    Wp world.Ok world.E
      (λ (x, j'). (x ≡ whole) × IsCache sample_file j')
      (journal_get_object ByteOrder.big 256 72 (opened 3))
journal_get_object-le_example =
    journal_get_object-le sample_file world ByteOrder.big 256 72 (opened 3) whole (omega arith)
      sample_file-AreBytes (omega arith) (omega arith) whole_lem cache

-- A closure that counts.
abbrev counting : Iter → ℕ → Step ℕ
counting it t = done (t + 1)

abbrev counts : ℕ → ObjectHeader → ℕ → ℕ
counts o h t = t + 1

abbrev Anything : ObjectHeader → Type 0
Anything h = Unit {0}

journal_iter_objects-visit_example :
    Wp world.Ok world.E
      (λ t'. t' ≡ visit counts header.header_size objects object 0)
      (journal_iter_objects ByteOrder.big counting 2 header start 0)
unfolding header_fields le
journal_iter_objects-visit_example =
    journal_iter_objects-visit sample_file world (omega arith) sample_file-AreBytes ByteOrder.big
      header counting counts Anything (λ it t q. refl) 2 objects start 0 (omega arith)
      objects-Objects (tt, tt) tt cache

journal_iter_objects-Adds_example :
    Wp world.Ok world.E
      (λ (u', t'). Adds (seen object objects) no_usage u' × Adds (seen object objects) no_usage t')
      (journal_iter_objects ByteOrder.big per_data_object 2 header start (no_usage, no_usage))
unfolding header_fields le
journal_iter_objects-Adds_example =
    journal_iter_objects-Adds sample_file world ByteOrder.big header 2 objects start no_usage
      no_usage (omega arith) sample_file-AreBytes (omega arith) objects-Objects (omega arith, tt)
      (omega arith) cache

advance_stuck_example : advance header 256 (2 ^ 64 - 1) ≡ 256
advance_stuck_example =
    advance_stuck header 256 (2 ^ 64 - 1) (λ p. cc p) (omega arith) (omega arith) (omega arith)

-- A hash that adds up the bytes, and a zstd that is never called.
abbrev pub sum : List ℕ → ℕ
sum [] = 0
sum (x ∷ xs) = x + sum xs

abbrev pub no_zstd : Zstd
no_zstd = record {
  frame_content_size = λ bs. Option.none;
  decompress_stream = λ bs n. ZstdResult.output [];
}

not_compressed : false ≡ true → ⊥
not_compressed e = cc

pub no_context : (err : ℕ) → world.Ok Call.create_context (Reply.error err) → world.E 12
no_context err ok = no_error err 0 [] ok

pub objects-AreHashed : AreHashed no_zstd sample_file 256 objects
objects-AreHashed = (
  λ e. (
    whole,
    whole_lem,
    record { header = refl; inflates = λ e. absurd (not_compressed e); size = refl },
    omega arith,
    omega arith,
  ),
  tt,
)
