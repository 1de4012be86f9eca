-- ===== src/HashTable/Chains.antt =====
-- The chains of a hash table, and what the loop over the buckets finds.
use jio.Base.{
  ℕ, zero, suc, ◌+◌, ◌≤◌, ◌<◌, ◌≡◌, ◌≢◌, refl, ap, ◌∙◌, List, [], ◌∷◌, ◌++◌, arith, length, drop,
  leb, false, eq→==, ne→==, le→leb,
}
use jio.HashTable.{HashItem, item_at, Moved, ended, moved, next_bucket}

-- The objects at `os` follow one another by their `next_hash_offset`, from `head` to `tail`.
abbrev pub IsChain : (ℕ → ℕ) → ℕ → ℕ → List ℕ → Type 0
IsChain next tail head [] = head ≡ 0
IsChain next tail head (o ∷ []) = (head ≡ o) × (o ≢ 0) × (o ≡ tail)
IsChain next tail head (o ∷ p ∷ os) =
    (head ≡ o) × (o ≢ 0) × (o ≢ tail) × IsChain next tail (next o) (p ∷ os)

leb-false : (n b : ℕ) → b < n → leb n b ≡ false
leb-false n b h = ground arith

-- One chain for each bucket.
abbrev pub AreChains : (ℕ → ℕ) → List HashItem → List (List ℕ) → Type 0
AreChains next [] [] = Unit {0}
AreChains next [] (c ∷ cs) = ⊥
AreChains next (it ∷ its) [] = ⊥
AreChains next (it ∷ its) (c ∷ cs) =
    IsChain next it.tail_hash_offset it.head_hash_offset c × AreChains next its cs

abbrev pub flatten : List (List ℕ) → List ℕ
flatten [] = []
flatten (c ∷ cs) = c ++ flatten cs

pub item_at-drop :
    (table : List HashItem) (b : ℕ) (it : HashItem) (post : List HashItem)
    → drop b table ≡ it ∷ post
    → (item_at table b ≡ it) × (drop (b + 1) table ≡ post) × (b < length table)
item_at-drop [] zero it post h = cc
item_at-drop [] (suc b) it post h = cc
item_at-drop (x ∷ xs) zero it post h = (cc, cc, omega arith)
item_at-drop (x ∷ xs) (suc b) it post h =
    let (p, q, r) = item_at-drop xs b it post h in
    (p, ap (λ (k : ℕ). drop k (x ∷ xs)) (suc_add b) ∙ q, omega arith)
  where
    suc_add : (b : ℕ) → suc b + 1 ≡ suc (b + 1)
    suc_add b = omega arith

pub drop-nil-length : (table : List HashItem) (b : ℕ) → drop b table ≡ [] → length table ≤ b
drop-nil-length [] b h = omega arith
drop-nil-length (x ∷ xs) zero h = cc
drop-nil-length (x ∷ xs) (suc b) h = omega (arith, drop-nil-length xs b h)

-- What the loop over the buckets finds: the first chain that is not empty, or none.
pub data Found (next : ℕ → ℕ) (table : List HashItem) (all : List ℕ) : Moved → Type 0 where
  nothing : {b : ℕ} → all ≡ [] → Found next table all (ended b)
  first :
      {b o : ℕ} (os : List ℕ) (it : HashItem) (post : List HashItem) (cs : List (List ℕ))
      → all ≡ o ∷ os ++ flatten cs
      → drop b table ≡ it ∷ post
      → IsChain next it.tail_hash_offset o (o ∷ os)
      → AreChains next post cs
      → Found next table all (moved b o)

module _ (next : ℕ → ℕ) (table : List HashItem) where
  -- A chain that is not empty begins at its head.
  pub chain_head :
      (tail head o : ℕ) (os : List ℕ) → IsChain next tail head (o ∷ os) → (head ≡ o) × (o ≢ 0)
  chain_head tail head o [] h = (h.0, h.1)
  chain_head tail head o (p ∷ os) h = (h.0, h.1)

  pub IsChain-from :
      (tail head o : ℕ) (os : List ℕ)
      → IsChain next tail head (o ∷ os)
      → IsChain next tail o (o ∷ os)
  IsChain-from tail head o [] h = (refl, h.1, h.2)
  IsChain-from tail head o (p ∷ os) h = (refl, h.1, h.2, h.3)

  pub next_bucket-Found :
      (left b : ℕ) (post : List HashItem) (cs : List (List ℕ))
      → drop (b + 1) table ≡ post
      → AreChains next post cs
      → length post < left
      → Found next table (flatten cs) (next_bucket left table (length table) b)
  unfolding next_bucket
  next_bucket-Found zero b post cs d h lt = absurd (omega arith)
  next_bucket-Found (suc left) b [] [] d h lt =
      rw (le→leb (length table) (b + 1) (drop-nil-length table (b + 1) d)) (nothing refl)
  next_bucket-Found (suc left) b [] (c ∷ cs) d h lt = absurd h
  next_bucket-Found (suc left) b (it ∷ post) [] d h lt = absurd h
  next_bucket-Found (suc left) b (it ∷ post) ([] ∷ cs) d (hc, hs) lt =
      let (at, d', inside) = item_at-drop table (b + 1) it post d in
      rw (leb-false (length table) (b + 1) inside, at, eq→== it.head_hash_offset 0 hc)
        (next_bucket-Found left (b + 1) post cs d' hs (omega arith))
  next_bucket-Found (suc left) b (it ∷ post) ((o ∷ os) ∷ cs) d (hc, hs) lt =
      let (at, d', inside) = item_at-drop table (b + 1) it post d in
      let (eh, nz) = chain_head it.tail_hash_offset it.head_hash_offset o os hc in
      rw (leb-false (length table) (b + 1) inside, at, eh, ne→== o 0 nz)
        (first os it post cs refl d (IsChain-from it.tail_hash_offset it.head_hash_offset o os hc)
          hs)
