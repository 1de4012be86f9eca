-- ===== src/HashTable/Walk.antt =====
-- The iteration over a hash table of a file, against the chains of its buckets.
use jio.Base.{
  ℕ, ◌+◌, ◌/◌, ◌^◌, ◌≤◌, ◌<◌, ◌≡◌, List, [], ◌∷◌, length, take, drop, true, ◌==◌, if◌then◌else◌,
}
use jio.Io.{Step, done, ◌>>=◌}
use jio.Io.Wp.{Wp}
use jio.Cache.World.{World}
use jio.Cache.Window.{IsCache}
use jio.Format.Endian.{ByteOrder, AreBytes}
use jio.HashTable.{
  HashItem, HashedObjectHeader, HashIter, hashed_header_of, size_fits, hash_for_each,
}

module _ (e : ByteOrder) (osize : ℕ) (file : List ℕ) where
  -- The object that is loaded at an offset.
  abbrev pub hashed_at : ℕ → HashedObjectHeader
  hashed_at o = hashed_header_of e osize (take osize (drop o file))

  abbrev pub next_at : ℕ → ℕ
  next_at o = (hashed_at o).next_hash_offset

  -- An object of that size lies in the file, and its type is one that the size fits.
  abbrev pub IsLoadable : ℕ → Type 0
  IsLoadable o = (o + osize ≤ length file) × (size_fits e (hashed_at o).object.type osize ≡ true)

  -- The calls of a closure for the objects at `os`, and the last one, at offset 0 with the object
  -- before it.
  abbrev pub visit :
      {T : Type 0} → (ℕ → HashedObjectHeader → T → T) → List ℕ → HashedObjectHeader → T → T
  visit g [] before t = g 0 before t
  visit g (o ∷ os) before t = visit g os (hashed_at o) (g o (hashed_at o) t)

  module _ (w : World file) (small : length file < 2 ^ 64) (bytes : AreBytes file)
      (big : 32 ≤ osize) where
    Loaded : ℕ → ℕ → HashIter → Type 0
    Loaded b o it =
        (it.bucket ≡ b) × (it.offset ≡ o) × (it.object ≡ hashed_at o) × IsCache file it.journal

    module _ (table : List HashItem) (size : ℕ) (fits : 16 ≤ size)
        (items : size / 16 ≡ length table) {T : Type 0} (closure : HashIter → T → Step T)
        (g : ℕ → HashedObjectHeader → T → T)
        (total : (it : HashIter) (t : T) → closure it t ≡ done (g it.offset it.object t)) where
      -- What comes behind a step of the iteration.
      abbrev for_each : ℕ → HashIter → T → Step T
      for_each fuel it t = hash_for_each e closure fuel table size osize it t

      abbrev behind_step : ℕ → T → HashIter → Step T
      behind_step fuel t it =
          closure it t >>= λ t'. if it.offset == 0 then done t' else for_each fuel it t'
