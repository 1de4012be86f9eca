-- ===== src/Verify/Own.antt =====
-- The verification of one journal touches no other journal.
use jio.Base.{
  ℕ, zero, suc, ◌==◌, ◌||◌, List, inl, inr, leb, ltb, length, Bool-cases, Option, none, some, take,
  sub64, if◌then◌else◌,
}
use jio.Io.{Call, Reply, done, fail, call, allocated, ◌>>=◌}
use jio.Io.Obeys.{Obeys, Anything, assert-Obeys, Obeys-bind, allocated-Obeys}
use jio.Lru.{Journal}
use jio.Cache.Own.{IsOwn, OwnCall}
use jio.Format.{ObjectHeader, Header}
use jio.Format.ObjectType
use jio.Format.Object.{Body}
use jio.Format.Endian.{ByteOrder}
use jio.Objects.{Iter, journal_get_header, journal_get_object, journal_iter_next_object}
use jio.Objects.Own.{
  With, Steps, journal_get_header-Owned, journal_get_object-Owned, journal_iter_next_object-Owned,
}
use jio.Verify.{
  Verified, Async, Zstd, ZstdResult, ebadmsg, is_zstd, is_compressed, grow, decompressed, of_size,
  decompress, payload_hash, verify_payload, verify_hashed_object, per_hashed_object, per_object,
  verify_objects, per_journal,
}
use jio.Verify.Workers.{AsksNothing}

module _ (n : ℕ) where
  grow-Obeys : (usable size : ℕ) → Obeys (OwnCall n) Anything (grow usable size)
  unfolding grow
  grow-Obeys usable size = elim (Bool-cases (ltb usable size)) [
    | inl few ↦ rw few (tt, elim [ Reply.ok m bs ↦ tt | Reply.error e ↦ tt ])
    | inr enough ↦ rw enough tt
  ]

  decompressed-Obeys :
      (size : ℕ) (r : ZstdResult) → Obeys (OwnCall n) Anything (decompressed size r)
  unfolding decompressed
  decompressed-Obeys size (ZstdResult.failed e) = tt
  decompressed-Obeys size (ZstdResult.output bs) =
      assert-Obeys (OwnCall n) Anything (leb size (length bs)) (done (take size bs)) tt

  module _ (siphash24 : List ℕ → List ℕ → ℕ) (jenkins_hash64 : List ℕ → ℕ) (z : Zstd) where
    decompress-Obeys :
        (flags : ℕ) (src : List ℕ) (usable : ℕ)
        → Obeys (OwnCall n) Anything (decompress z flags src usable)
    unfolding decompress
    decompress-Obeys flags src usable =
        assert-Obeys (OwnCall n) Anything (ltb 0 (length src)) _
          (assert-Obeys (OwnCall n) Anything (is_zstd flags) _ (sized (z.frame_content_size src)))
      where
        sized :
            (size : Option ℕ)
            → Obeys (OwnCall n) Anything (
                of_size size λ size. (do
                  usable' ← grow usable size
                  bs ←
                      call Call.create_context
                        λ r. allocated r (decompressed size (z.decompress_stream src size))
                  done (bs, usable')))
        sized none = tt
        sized (some size) =
            Obeys-bind (OwnCall n) Anything Anything (grow usable size) _ (grow-Obeys usable size)
              λ usable' u.
                Obeys-bind (OwnCall n) Anything Anything
                  (call Call.create_context
                    λ r. allocated r (decompressed size (z.decompress_stream src size)))
                  _
                  (
                    tt,
                    λ r.
                        allocated-Obeys (OwnCall n) Anything r
                          (decompressed size (z.decompress_stream src size))
                          (decompressed-Obeys size (z.decompress_stream src size)),
                  )
                  λ bs v. tt

    payload_hash-Obeys :
        (h : Header) (flags : ℕ) (payload : List ℕ) (s : Verified)
        → Obeys (OwnCall n) Anything (payload_hash siphash24 jenkins_hash64 z h flags payload s)
    unfolding payload_hash
    payload_hash-Obeys h flags payload s = elim (Bool-cases (is_compressed flags)) [
      | inl packed ↦ rw packed (
          Obeys-bind (OwnCall n) Anything Anything
            (decompress z flags payload s.decompressed_usable) _
            (decompress-Obeys flags payload s.decompressed_usable) λ r u. tt)
      | inr plain ↦ rw plain tt
    ]

    verify_payload-Obeys :
        (h : Header) (flags size : ℕ) (payload : List ℕ) (stored : ℕ) (s : Verified)
        → Obeys
            (OwnCall n)
            Anything
            (verify_payload siphash24 jenkins_hash64 z h flags size payload stored s)
    unfolding verify_payload
    verify_payload-Obeys h flags size payload stored s =
        assert-Obeys (OwnCall n) Anything (leb size (length payload)) _ (
          Obeys-bind (OwnCall n) Anything Anything
            (payload_hash siphash24 jenkins_hash64 z h flags (take size payload) s) _
            (payload_hash-Obeys h flags (take size payload) s)
            λ (computed, s') u. compared computed s')
      where
        compared :
            (computed : ℕ) (s' : Verified)
            → Obeys (OwnCall n) Anything (if computed == stored then done s' else fail ebadmsg)
        compared computed s' = elim (Bool-cases (computed == stored)) [
          | inl same ↦ rw same tt
          | inr other ↦ rw other tt
        ]

    verify_hashed_object-Obeys :
        (h : Header) (x : ObjectHeader × Body) (s : Verified)
        → Obeys (OwnCall n) Anything (verify_hashed_object siphash24 jenkins_hash64 z h x s)
    unfolding verify_hashed_object
    verify_hashed_object-Obeys h (o, Body.field_body d) s =
        verify_payload-Obeys h o.flags (sub64 o.size 40) d.payload d.hash _
    verify_hashed_object-Obeys h (o, Body.data_body d) s =
        verify_payload-Obeys h o.flags (sub64 o.size 64) d.payload d.hash _
    verify_hashed_object-Obeys h (o, _) s = tt

    module _ (iou_async : Async) (asks : AsksNothing iou_async) (e : ByteOrder) where
      -- A journal of that number, and the counters behind an object.
      abbrev OwnJournal : Journal × Verified → Type 0
      OwnJournal (j, s) = IsOwn n j

      per_hashed_object-Obeys :
          (h : Header) (x : ObjectHeader × Body) (s : Verified) (j : Journal)
          → IsOwn n j
          → Obeys
              (OwnCall n)
              OwnJournal
              (per_hashed_object siphash24 jenkins_hash64 z iou_async h x s λ s'. done (j, s'))
      unfolding per_hashed_object
      per_hashed_object-Obeys h x s j own =
          let work = verify_hashed_object siphash24 jenkins_hash64 z h x s in
          let verified = verify_hashed_object-Obeys h x s in
          elim (Bool-cases (leb (x.0).size 16384)) [
            | inl sync ↦ rw sync (
                Obeys-bind (OwnCall n) Anything OwnJournal work (λ s'. done (j, s')) verified
                  λ s' u. own)
            | inr large ↦
                rw large (asks (OwnCall n) OwnJournal work (λ s'. done (j, s')) verified λ s'. own)
          ]

      hashed-Obeys :
          (h : Header) (it : Iter) (s : Verified)
          → IsOwn n it.journal
          → Obeys (OwnCall n) OwnJournal (do
            usable ← grow s.object_usable it.object.size
            (x, j) ← journal_get_object e it.offset it.object.size it.journal
            per_hashed_object siphash24 jenkins_hash64 z iou_async h x
                (record s { object_usable = usable })
                λ s'. done (j, s'))
      hashed-Obeys h it s own =
          Obeys-bind (OwnCall n) Anything OwnJournal (grow s.object_usable it.object.size) _
            (grow-Obeys s.object_usable it.object.size)
            λ usable u.
              Obeys-bind (OwnCall n) (With n e) OwnJournal
                (journal_get_object e it.offset it.object.size it.journal) _
                (journal_get_object-Owned n e it.offset it.object.size it.journal own)
                λ (x, j) own'.
                  per_hashed_object-Obeys h x (record s { object_usable = usable }) j own'

      per_object-Obeys :
          (h : Header) (it : Iter) (s : Verified)
          → IsOwn n it.journal
          → Obeys (OwnCall n) OwnJournal (per_object siphash24 jenkins_hash64 z iou_async e h it s)
      unfolding per_object
      per_object-Obeys h it s own =
          elim (Bool-cases
            ((it.object.type == ObjectType.field) || (it.object.type == ObjectType.object_data))) [
              | inl hashed ↦ rw hashed (hashed-Obeys h it s own)
              | inr other ↦ rw other own
            ]

      verify_objects-Obeys :
          (fuel : ℕ) (h : Header) (it : Iter) (s : Verified)
          → IsOwn n it.journal
          → Obeys
              (OwnCall n)
              Anything
              (verify_objects siphash24 jenkins_hash64 z iou_async e fuel h it s)
      unfolding verify_objects
      verify_objects-Obeys zero h it s own = tt
      verify_objects-Obeys (suc fuel) h it s own =
          Obeys-bind (OwnCall n) (Steps n e) Anything (journal_iter_next_object e h it) _
            (journal_iter_next_object-Owned n e h it own)
            λ it' own'. elim (Bool-cases (it'.offset == 0)) [
              | inl end ↦ rw end tt
              | inr inside ↦ rw inside (
                  Obeys-bind (OwnCall n) OwnJournal Anything
                    (per_object siphash24 jenkins_hash64 z iou_async e h it' s) _
                    (per_object-Obeys h it' s own')
                    λ (j, s') own2.
                      verify_objects-Obeys fuel h (record it' { journal = j }) s' own2)
            ]

      -- The whole chain of `jio verify hashed-objects` for the journal of number `n`, where
      -- `iou_async` asks for nothing but what the work and the closure that it is given ask for,
      -- whether or not it heeds the result of the work: whatever the file holds, whatever is replied
      -- to its calls, and whether it ends well or not, it reads no other file than that of number
      -- `n`, and into no registered buffers but the eight of that journal, with their size.
      pub per_journal-Obeys :
          (fuel : ℕ) (it : Iter) (s : Verified)
          → IsOwn n it.journal
          → Obeys
              (OwnCall n)
              Anything
              (per_journal siphash24 jenkins_hash64 z iou_async e fuel it s)
      unfolding per_journal
      per_journal-Obeys fuel it s own =
          Obeys-bind (OwnCall n) (With n e) Anything (journal_get_header e it.journal) _
            (journal_get_header-Owned n e it.journal own)
            λ (h, j) own'. verify_objects-Obeys fuel h (record it { journal = j }) _ own'
