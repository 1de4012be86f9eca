-- ===== src/Cache/Filled.antt =====
-- Buffers that a read fills or copies from.
use jio.Base.{
  ℕ, ◌+◌, ◌-◌, ◌^◌, ◌≤◌, ◌<◌, ◌≡◌, refl, sym, ap, ◌∙◌, true, List, [], ◌∷◌, ◌++◌, arith, has,
  length, take, drop, sub64, le→leb, take-take, length-take, length-drop,
}
use jio.Io.{done}
use jio.Lru.{Buf, Journal}
use jio.Cache.{buf_size, memcpy}
use jio.Cache.World.{IsRead}
use jio.Cache.Window.{Holds, IsRange, take-append, range_size}

pub sub64_lem : (a b : ℕ) → b ≤ a → a < 2 ^ 64 → sub64 a b ≡ a - b
sub64_lem a b h k = omega arith

pub memcpy_lem :
    (start l : ℕ) (bs : List ℕ) (j : Journal)
    → start + l ≤ buf_size
    → memcpy start l bs j ≡ done (take l (drop start bs), j)
unfolding memcpy
memcpy_lem start l bs j h = rw (le→leb (start + l) buf_size h)

read_size : (file : List ℕ) (o l n : ℕ) (bs : List ℕ) → IsRead file o l n bs → n ≤ length file - o
read_size file o l n bs r = omega (
  arith,
  r.size,
  ap (length {0} {A = ℕ}) r.bytes,
  length-take n (drop o file),
  length-drop o file,
)

pub cached_fits :
    (file : List ℕ) (b : Buf) (o l : ℕ)
    → Holds file b
    → b.offset ≤ o
    → o + l ≤ b.offset + b.length
    → o - b.offset + l ≤ buf_size
cached_fits file b o l h p q = omega arith

-- The buffer behind a read of `n` bytes into it.
abbrev pub filled : Buf → ℕ → ℕ → List ℕ → Buf
filled b o n bs = record b { bytes = bs ++ drop n b.bytes; length = n; offset = o; valid = true }

pub prefix-IsRange :
    (file : List ℕ) (o l m n : ℕ) (bs ys : List ℕ)
    → l ≤ n
    → IsRead file o m n bs
    → IsRange file o l (take l (bs ++ ys))
prefix-IsRange file o l m n bs ys le r =
    let e : take l (bs ++ ys) ≡ take l (drop o file) =
      sym (take-take l n (bs ++ ys) le)
      ∙ ap (take l) (take-append n bs ys r.size ∙ r.bytes)
      ∙ take-take l n (drop o file) le in
    let avail : n ≤ length file - o = read_size file o m n bs r in
    record { bytes = e; size = ap length e ∙ range_size file o l (omega arith) }

pub filled-Holds :
    (file : List ℕ) (o n : ℕ) (bs : List ℕ) (b : Buf)
    → length file < 2 ^ 64
    → 0 < n
    → IsRead file o buf_size n bs
    → Holds file (filled b o n bs)
filled-Holds file o n bs b small pos r =
    let avail : n ≤ length file - o = read_size file o buf_size n bs r in
    record {
      window = take-append n bs (drop n b.bytes) r.size ∙ r.bytes;
      inside = avail;
      fits = r.most;
      bounded = omega arith;
    }

pub nonempty : (xs : List ℕ) → has 0 xs ≡ true → (b : ℕ) × (zs : List ℕ) × (xs ≡ b ∷ zs)
nonempty [] h = cc
nonempty (x ∷ xs) h = (x, xs, refl)
