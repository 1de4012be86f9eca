-- ===== src/EntryArrays/Lookup.antt =====
-- The hash table of entry arrays as a map from digests to counters.
use mathlib.Core.Path.{ap₂}
use jio.Base.{
  ℕ, ◌/◌, ◌<◌, ◌≡◌, ◌≢◌, inl, inr, refl, sym, ap, ◌∙◌, List, [], ◌∷◌, true, false, Option, none,
  some, arith, ◌==◌, if◌then◌else◌, length, add64, Bool-cases, lt→ltb, and_left, and_right, ==→eq,
}
use jio.Io.{Step, Reply, done, enomem, allocated}
use jio.Io.Wp.{Wp}
use jio.EntryArrays.{
  EntryArray, Profile, same_digest, bucket_of, bump, utilization, set_bucket, add_array,
  per_entry_array_payload,
}

-- The first array of a bucket's list with that digest.
abbrev pub in_bucket : List ℕ → List EntryArray → Option EntryArray
in_bucket digest [] = none
in_bucket digest (ea ∷ eas) =
    let rest = in_bucket digest eas in if same_digest ea.digest digest then some ea else rest

-- The array of a digest in the table.
abbrev pub lookup : List ℕ → Profile → Option EntryArray
lookup digest p = in_bucket digest (p.buckets (bucket_of digest))

-- The array that counts one more payload.
abbrev pub counted : List ℕ → List ℕ → Option EntryArray → EntryArray
counted payload digest none = record {
  digest = digest;
  count = 1;
  size = length payload;
  utilized = utilization (length payload / 8) payload;
}
counted payload digest (some ea) = record ea { count = add64 ea.count 1 }

same_digest_refl : (d : List ℕ) → same_digest d d ≡ true
same_digest_refl [] = refl
same_digest_refl (x ∷ xs) = ground (arith, same_digest_refl xs)

same_digest_eq : (c d : List ℕ) → same_digest c d ≡ true → c ≡ d
same_digest_eq [] [] h = refl
same_digest_eq [] (y ∷ ys) h = cc h
same_digest_eq (x ∷ xs) [] h = cc h
same_digest_eq (x ∷ xs) (y ∷ ys) h =
    ap₂ {B = List ℕ} ◌∷◌ (==→eq x y (and_left (x == y) (same_digest xs ys) h))
      (same_digest_eq xs ys (and_right (x == y) (same_digest xs ys) h))

different : (c d : List ℕ) → c ≢ d → same_digest c d ≡ false
different c d ne = elim (Bool-cases (same_digest c d)) [
  | inl t ↦ absurd (ne (same_digest_eq c d t))
  | inr f ↦ f
]

-- What the search for a digest does to a bucket's list.
abbrev Bumped : List ℕ → List EntryArray → Option (List EntryArray) → Type 0
Bumped d eas none = in_bucket d eas ≡ none
Bumped d eas (some r) =
    (ea : EntryArray) × (in_bucket d eas ≡ some ea)
    × (in_bucket d r ≡ some (record ea { count = add64 ea.count 1 }))
    × ((c : List ℕ) → c ≢ d → in_bucket c r ≡ in_bucket c eas)

Bumped-later :
    (d : List ℕ) (ea : EntryArray) (eas : List EntryArray) (o : Option (List EntryArray))
    → same_digest ea.digest d ≡ false
    → Bumped d eas o
    → Bumped d (ea ∷ eas) (elim o [ none ↦ none | some r ↦ some (ea ∷ r) ])
Bumped-later d ea eas none other b = rw other b
Bumped-later d ea eas (some r) other (x, at, up, others) = (
  x,
  rw other at,
  rw other up,
  λ c ne.
      ap (λ (k : Option EntryArray). if same_digest ea.digest c then some ea else k) (others c ne),
)

bump-Bumped : (d : List ℕ) (eas : List EntryArray) → Bumped d eas (bump d eas)
bump-Bumped d [] = refl
bump-Bumped d (ea ∷ eas) = elim (Bool-cases (same_digest ea.digest d)) [
  | inr other ↦ rw other (Bumped-later d ea eas (bump d eas) other (bump-Bumped d eas))
  | inl same ↦
      let e : ea.digest ≡ d = same_digest_eq ea.digest d same in
      rw same (
        ea,
        rw same refl,
        rw same refl,
        λ c ne. rw (different ea.digest c (λ q. ne (sym q ∙ e))) refl,
      )
]

in_bucket_at : (p : Profile) (b : ℕ) (eas : List EntryArray) → (set_bucket p b eas).buckets b ≡ eas
in_bucket_at p b eas = ground arith

-- Setting the bucket of `d` to a list that has the same arrays but for `d`.
lookup_other :
    (p : Profile) (d c : List ℕ) (eas : List EntryArray)
    → in_bucket c eas ≡ in_bucket c (p.buckets (bucket_of d))
    → lookup c (set_bucket p (bucket_of d) eas) ≡ lookup c p
lookup_other p d c eas h = elim (Bool-cases (bucket_of c == bucket_of d)) [
  | inr other ↦ rw other refl
  | inl same ↦
      rw same (
        h
        ∙ ap (λ (k : ℕ). in_bucket c (p.buckets k)) (sym (==→eq (bucket_of c) (bucket_of d) same)))
]

-- `q` is `p` with one more payload counted under its digest `d`.
pub record Counts (payload d : List ℕ) (p q : Profile) : Type 0 where
  pub at : lookup d q ≡ some (counted payload d (lookup d p))
  pub others : (c : List ℕ) → c ≢ d → lookup c q ≡ lookup c p
  pub unique : q.unique ≡ (elim (lookup d p) [ none ↦ add64 p.unique 1 | some ea ↦ p.unique ])
  pub count : q.count ≡ p.count

-- The step behind the search.
behind_search :
    (payload d : List ℕ) (p : Profile) (o : Option (List EntryArray))
    → Bumped d (p.buckets (bucket_of d)) o
    → Wp
        (λ c r. Unit {0})
        (λ e. e ≡ enomem)
        (Counts payload d p)
        (elim o as (λ _. Step Profile) [
          | none ↦ add_array payload d (bucket_of d) p
          | some eas ↦ done (set_bucket p (bucket_of d) eas)
        ])
unfolding add_array
behind_search payload d p (some eas) (ea, at, up, others) = record {
  at = in_own eas ∙ up ∙ ap (λ (k : Option EntryArray). some (counted payload d k)) (sym at);
  others = λ c ne. lookup_other p d c eas (others c ne);
  unique = rw at refl;
  count = refl;
}
  where
    in_own : (eas : List EntryArray) → lookup d (set_bucket p (bucket_of d) eas) ≡ in_bucket d eas
    in_own eas = ap (in_bucket d) (in_bucket_at p (bucket_of d) eas)
behind_search payload d p none b = λ r ok. allocated_new r
  where
    eas : List EntryArray
    eas = counted payload d none ∷ p.buckets (bucket_of d)

    in_front : in_bucket d eas ≡ some (counted payload d none)
    in_front = rw (same_digest_refl d) refl

    behind : (c : List ℕ) → c ≢ d → in_bucket c eas ≡ in_bucket c (p.buckets (bucket_of d))
    behind c ne = rw (different d c (λ q. ne (sym q))) refl

    allocated_new :
        (r : Reply)
        → Wp
            (λ c r. Unit {0})
            (λ e. e ≡ enomem)
            (Counts payload d p)
            (allocated r
              (done (record (set_bucket p (bucket_of d) eas) { unique = add64 p.unique 1 })))
    allocated_new (Reply.error e) = refl
    allocated_new (Reply.ok _ _) = record {
      at =
          ap (in_bucket d) (in_bucket_at p (bucket_of d) eas)
          ∙ in_front
          ∙ ap (λ (k : Option EntryArray). some (counted payload d k)) (sym b);
      others = λ c ne. lookup_other p d c eas (behind c ne);
      unique = rw b refl;
      count = refl;
    }

-- For a payload that is not empty, `per_entry_array_payload` fails only for want of memory; else
-- the table counts the payload under its digest, starting at one where the digest is new, in which
-- case the number of unique arrays grows by one, and what is found for all other digests stays,
-- whichever bucket they share.
pub per_entry_array_payload-Counts :
    (sha1 : List ℕ → List ℕ) (payload : List ℕ) (p : Profile)
    → 0 < length payload
    → Wp
        (λ c r. Unit {0})
        (λ e. e ≡ enomem)
        (Counts payload (sha1 payload) p)
        (per_entry_array_payload sha1 payload p)
unfolding per_entry_array_payload
per_entry_array_payload-Counts sha1 payload p pos = rw (lt→ltb 0 (length payload) pos) (
    behind_search payload (sha1 payload) p
      (bump (sha1 payload) (p.buckets (bucket_of (sha1 payload))))
      (bump-Bumped (sha1 payload) (p.buckets (bucket_of (sha1 payload)))))
