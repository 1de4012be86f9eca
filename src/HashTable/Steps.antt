-- ===== src/HashTable/Steps.antt =====
-- From one object of a chain to the next.
use jio.Base.{
  ℕ, ◌+◌, ◌<◌, ◌≡◌, ◌≢◌, refl, ap, List, [], ◌∷◌, ◌++◌, arith, length, drop, not, ◌&&◌, ◌==◌, true,
  false, eq→==, ne→==, length-drop,
}
use jio.HashTable.{HashItem, hash_advance}
use jio.HashTable.Chains.{
  IsChain, AreChains, flatten, item_at-drop, Found, first, chain_head, IsChain-from,
  next_bucket-Found,
}

last_lem : (o t : ℕ) → o ≡ t → (not (o == 0) && not (o == t)) ≡ false
last_lem o t e = ground arith

inner_lem : (o t : ℕ) → o ≢ 0 → o ≢ t → (not (o == 0) && not (o == t)) ≡ true
inner_lem o t a b = ground arith

module _ (next : ℕ → ℕ) (table : List HashItem) where
  -- From an object of a chain a step goes to the next one of it, or on to the next bucket.
  pub advance-Found :
      (b o : ℕ) (os : List ℕ) (it : HashItem) (post : List HashItem) (cs : List (List ℕ))
      → drop b table ≡ it ∷ post
      → IsChain next it.tail_hash_offset o (o ∷ os)
      → AreChains next post cs
      → Found next table (os ++ flatten cs) (hash_advance table (length table) b o (next o))
  unfolding hash_advance
  advance-Found b o [] it post cs d (e, nz, t) hs =
      let (at, d', inside) = item_at-drop table b it post d in
      let short : length post < length table =
        omega (arith, ap (length {0} {A = HashItem}) d', length-drop (b + 1) table) in
      rw (ne→== o 0 nz, at, t, eq→== it.tail_hash_offset it.tail_hash_offset refl)
        (next_bucket-Found next table (length table) b post cs d' hs short)
  advance-Found b o (p ∷ os) it post cs d (e, nz, nt, rest) hs =
      let (at, d', inside) = item_at-drop table b it post d in
      let (en, nzp) = chain_head next table it.tail_hash_offset (next o) p os rest in
      rw (ne→== o 0 nz, at, ne→== o it.tail_hash_offset nt, en)
        (first os it post cs refl d (IsChain-from next table it.tail_hash_offset (next o) p os rest)
          hs)
