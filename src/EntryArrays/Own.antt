-- ===== src/EntryArrays/Own.antt =====
-- The profile of one journal touches no other journal.
use jio.Base.{
  ℕ, zero, suc, ◌==◌, List, inl, inr, ltb, length, Bool, true, false, Bool-cases, Option, none,
  some, add64, sub64,
}
use jio.Io.{done, assert, ◌>>=◌}
use jio.Io.Obeys.{Obeys, Anything, Obeys-bind, allocated-Obeys}
use jio.Lru.{Journal}
use jio.Cache.{journal_read}
use jio.Cache.Own.{IsOwn, OwnCall, Owned, journal_read-Owned}
use jio.Format.{Header}
use jio.Format.ObjectType
use jio.Format.Endian.{ByteOrder}
use jio.Objects.{Iter, journal_get_header, journal_iter_next_object}
use jio.Objects.Own.{With, Steps, journal_get_header-Owned, journal_iter_next_object-Owned}
use jio.EntryArrays.{
  EntryArray, Profile, bucket_of, bump, set_bucket, add_array, per_entry_array_payload, per_object,
  profile_objects, per_journal,
}

module _ (n : ℕ) (sha1 : List ℕ → List ℕ) where
  add_array-Obeys :
      (payload digest : List ℕ) (bucket : ℕ) (p : Profile)
      → Obeys (OwnCall n) Anything (add_array payload digest bucket p)
  unfolding add_array
  add_array-Obeys payload digest bucket p =
      (tt, λ r. allocated-Obeys (OwnCall n) Anything r (done _) tt)

  per_entry_array_payload-Obeys :
      (payload : List ℕ) (p : Profile)
      → Obeys (OwnCall n) Anything (per_entry_array_payload sha1 payload p)
  unfolding per_entry_array_payload
  per_entry_array_payload-Obeys payload p = asserted (ltb 0 (length payload))
    where
      digest : List ℕ
      digest = sha1 payload

      counted :
          (o : Option (List EntryArray))
          → Obeys (OwnCall n) Anything (elim o [
            | none ↦ add_array payload digest (bucket_of digest) p
            | some eas ↦ done (set_bucket p (bucket_of digest) eas)
          ])
      counted none = add_array-Obeys payload digest (bucket_of digest) p
      counted (some eas) = tt

      asserted :
          (b : Bool)
          → Obeys (OwnCall n) Anything (
              assert b (elim (bump digest (p.buckets (bucket_of digest))) [
                | none ↦ add_array payload digest (bucket_of digest) p
                | some eas ↦ done (set_bucket p (bucket_of digest) eas)
              ]))
      asserted true = counted (bump digest (p.buckets (bucket_of digest)))
      asserted false = tt

  module _ (e : ByteOrder) where
    -- A journal of that number, and the profile behind an object.
    abbrev OwnJournal : Journal × Profile → Type 0
    OwnJournal (j, p) = IsOwn n j

    array-Obeys :
        (it : Iter) (p : Profile) (size : ℕ)
        → IsOwn n it.journal
        → Obeys (OwnCall n) OwnJournal (do
          (payload, j) ← journal_read (add64 it.offset 24) size it.journal
          p' ← per_entry_array_payload sha1 payload (record p { count = add64 p.count 1 })
          done (j, p'))
    array-Obeys it p size own =
        Obeys-bind (OwnCall n) (Owned n) OwnJournal
          (journal_read (add64 it.offset 24) size it.journal) _
          (journal_read-Owned n (add64 it.offset 24) size it.journal own)
          λ (payload, j) own'.
            Obeys-bind (OwnCall n) Anything OwnJournal
              (per_entry_array_payload sha1 payload (record p { count = add64 p.count 1 })) _
              (per_entry_array_payload-Obeys payload (record p { count = add64 p.count 1 }))
              λ p' u. own'

    per_object-Obeys :
        (it : Iter) (p : Profile)
        → IsOwn n it.journal
        → Obeys (OwnCall n) OwnJournal (per_object sha1 e it p)
    unfolding per_object
    per_object-Obeys it p own = elim (Bool-cases (it.object.type == ObjectType.entry_array)) [
      | inl array ↦ rw array (
        tt,
        λ r.
            allocated-Obeys (OwnCall n) OwnJournal r _
              (array-Obeys it p (sub64 it.object.size 24) own),
      )
      | inr other ↦ rw other own
    ]

    profile_objects-Obeys :
        (fuel : ℕ) (h : Header) (it : Iter) (p : Profile)
        → IsOwn n it.journal
        → Obeys (OwnCall n) Anything (profile_objects sha1 e fuel h it p)
    unfolding profile_objects
    profile_objects-Obeys zero h it p own = tt
    profile_objects-Obeys (suc fuel) h it p own =
        Obeys-bind (OwnCall n) (Steps n e) Anything (journal_iter_next_object e h it) _
          (journal_iter_next_object-Owned n e h it own)
          λ it' own'. elim (Bool-cases (it'.offset == 0)) [
            | inl end ↦ rw end tt
            | inr inside ↦ rw inside (
                Obeys-bind (OwnCall n) OwnJournal Anything (per_object sha1 e it' p) _
                  (per_object-Obeys it' p own')
                  λ (j, p') own2. profile_objects-Obeys fuel h (record it' { journal = j }) p' own2)
          ]

    -- The whole chain of `jio report entry-arrays` for the journal of number `n`: whatever the
    -- file holds, whatever is replied to its calls, and whether it ends well or not, it reads no
    -- other file than that of number `n`, and into no registered buffers but the eight of that
    -- journal, with their size.
    pub per_journal-Owned :
        (fuel : ℕ) (it : Iter) (p : Profile)
        → IsOwn n it.journal
        → Obeys (OwnCall n) Anything (per_journal sha1 e fuel it p)
    unfolding per_journal
    per_journal-Owned fuel it p own =
        Obeys-bind (OwnCall n) (With n e) Anything (journal_get_header e it.journal) _
          (journal_get_header-Owned n e it.journal own)
          λ (h, j) own'. profile_objects-Obeys fuel h (record it { journal = j }) p own'
