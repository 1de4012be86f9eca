-- ===== src/Samples.antt =====
-- A small journal file and a kernel that answers truthfully, for the tests of the theorems.
pub mod Workers
pub mod Packed
pub mod Broken
pub mod Reading
pub mod Walking
pub mod Opening
pub mod Reports
pub mod Scheduling
pub mod Starting
pub mod Profiling
pub mod Hashing
pub mod Driving
pub mod Commanding
pub mod Verifying
use mathlib.Core.Path.{subst}
use jio.Base.{
  ℕ, zero, suc, ◌+◌, ◌-◌, ◌≤◌, ◌<◌, ◌≡◌, ◌⊎◌, inl, inr, refl, sym, ap, ◌∙◌, List, [], ◌∷◌, ◌++◌,
  arith, Bool, true, false, ltb, ltb→lt, and_left, and_right, ◌&&◌, Bool-cases, length, take, drop,
  length-take, length-drop,
}
use jio.Io.{Call, Reply}
use jio.Cache.World.{World, IsRead}
use jio.Open.{replicate}
use jio.Format.{ObjectHeader, Header}
use jio.Format.Endian.{AreBytes}
use jio.Objects.Loads.{object_at, header_at}

abbrev pub read_reply : List ℕ → ℕ → ℕ → Reply
read_reply file o l = Reply.ok (length (take l (drop o file))) (take l (drop o file))

-- Every call succeeds, and a read gives what the file has of its range.
abbrev pub answer : List ℕ → Call → Reply
answer file (Call.pread i o l) = read_reply file o l
answer file (Call.pread_fixed i o l b) = read_reply file o l
answer file (Call.fstat fd) = Reply.ok (length file) []
answer file c = Reply.ok 0 []

pub bytes_of : (n m : ℕ) (bs cs : List ℕ) → Reply.ok n bs ≡ Reply.ok m cs → (n ≡ m) × (bs ≡ cs)
bytes_of n m bs cs e = (cc, cc)

pub no_error : (e n : ℕ) (bs : List ℕ) → Reply.error e ≡ Reply.ok n bs → ⊥
no_error e n bs p = cc

take-shorter : (l : ℕ) (xs : List ℕ) → take (length (take l xs)) xs ≡ take l xs
take-shorter zero xs = refl
take-shorter (suc l) [] = refl
take-shorter (suc l) (x ∷ xs) = ap (λ (r : List ℕ). x ∷ r) (take-shorter l xs)

pub answer-IsRead :
    (file : List ℕ) (o l n : ℕ) (bs : List ℕ)
    → Reply.ok n bs ≡ read_reply file o l
    → IsRead file o l n bs
answer-IsRead file o l n bs e =
    let (p, q) = bytes_of n _ bs _ e in
    let len = length-take l (drop o file) in
    record {
      bytes = q ∙ sym (take-shorter l (drop o file)) ∙ ap (λ (m : ℕ). take m (drop o file)) (sym p);
      size = ap length q ∙ sym p;
      most = omega arith;
    }

pub answer-short :
    (file : List ℕ) (o l n : ℕ) (bs : List ℕ)
    → Reply.ok n bs ≡ read_reply file o l
    → n < l
    → length file ≤ o + n
answer-short file o l n bs e lt =
    let (p, q) = bytes_of n _ bs _ e in
    omega (arith, length-take l (drop o file), length-drop o file)

abbrev pub honest : (file : List ℕ) → World file
honest file = record {
  Ok = λ c r. r ≡ answer file c;
  E = λ e. ⊥;
  reads = λ i o l n bs ok. answer-IsRead file o l n bs ok;
  reads_fixed = λ i o l b n bs ok. answer-IsRead file o l n bs ok;
  short = λ i o l n bs ok lt. inl (answer-short file o l n bs ok lt);
  short_fixed = λ i o l b n bs ok lt. inl (answer-short file o l n bs ok lt);
  read_error = λ i o l e ok. no_error e _ _ ok;
  read_fixed_error = λ i o l b e ok. no_error e _ _ ok;
  no_op = λ e ok. no_error e _ _ ok;
  no_memory = λ n e ok. no_error e _ _ ok;
}

-- A header of 256 bytes with `header_size` and `tail_object_offset` 256, and behind it one data
-- object of 72 bytes: its hash is 5, and its payload has the bytes 2 and 3.
abbrev pub sample_object : List ℕ
sample_object =
    (1 ∷ replicate 7 0)
    ++ (72 ∷ replicate 7 0)
    ++ (5 ∷ replicate 7 0)
    ++ replicate 40 0
    ++ (2 ∷ 3 ∷ replicate 6 0)

abbrev pub sample_file : List ℕ
sample_file =
    replicate 88 0
    ++ (0 ∷ 1 ∷ replicate 6 0)
    ++ replicate 40 0
    ++ (0 ∷ 1 ∷ replicate 6 0)
    ++ replicate 112 0
    ++ sample_object

abbrev are_bytes : List ℕ → Bool
are_bytes [] = true
are_bytes (x ∷ xs) = ltb x 256 && are_bytes xs

pub are_bytes-AreBytes : (xs : List ℕ) → are_bytes xs ≡ true → AreBytes xs
are_bytes-AreBytes [] h = tt
are_bytes-AreBytes (x ∷ xs) h = (
  ltb→lt x 256 (and_left (ltb x 256) (are_bytes xs) h),
  are_bytes-AreBytes xs (and_right (ltb x 256) (are_bytes xs) h),
)

pub sample_file-AreBytes : AreBytes sample_file
sample_file-AreBytes = are_bytes-AreBytes sample_file refl

pub sample_file-length : length sample_file ≡ 328
sample_file-length = refl

pub sample_object-AreBytes : AreBytes sample_object
sample_object-AreBytes = are_bytes-AreBytes sample_object refl
