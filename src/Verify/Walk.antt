-- ===== src/Verify/Walk.antt =====
-- The verification of all objects of a journal.
use jio.Base.{
  ℕ, zero, suc, ◌+◌, ◌^◌, ◌≤◌, ◌<◌, ◌≡◌, ◌≢◌, ◌⊎◌, inl, inr, sym, ap, ◌∙◌, List, [], ◌∷◌, some,
  arith, length, Bool, true, false, ◌==◌, ◌||◌, add64, align64, Bool-cases, leb, le→leb, ne→==,
}
use jio.Lru.{Journal}
use jio.Io.{Step, done, Call, Reply, enomem}
use jio.Io.Wp.{Wp, Wp-bind, Wp-mono, Wp-errors}
use jio.Cache.World.{World}
use jio.Cache.Window.{IsCache}
use jio.Format.{ObjectHeader, Header}
use jio.Format.ObjectType
use jio.Format.Object.{Body}
use jio.Format.Endian.{ByteOrder, AreBytes}
use jio.Objects.{Iter, advance, iter_at, journal_get_object, journal_iter_next_object}
use jio.Objects.Loads.{object_at}
use jio.Objects.Full.{whole_at, journal_get_object-le}
use jio.Objects.Walk.{Objects, advance-object, step_object, step_end, Stepped}
use jio.Verify.{
  Verified, Zstd, ebadmsg, Async, grow, verify_hashed_object, per_hashed_object, per_object,
  verify_objects,
}
use jio.Verify.Workers.{Dispatches}
use jio.Verify.Sound.{
  format_hash, content_of, stored_hash, grow_lem, IsHashed, verify_hashed_object_lem,
}

abbrev pub has_hash : ObjectHeader → Bool
has_hash o = (o.type == ObjectType.field) || (o.type == ObjectType.object_data)

-- Each data and field object of a file from `o` can be loaded.
abbrev pub AreHashed : Zstd → List ℕ → ℕ → List ObjectHeader → Type 0
AreHashed z file o [] = Unit {0}
AreHashed z file o (h ∷ hs) =
    (has_hash h ≡ true
      → (x : ObjectHeader × Body) × (whole_at file o h.size ≡ some x)
        × IsHashed z h x
        × (16 ≤ h.size)
        × (o + h.size ≤ length file))
    × AreHashed z file (add64 o (align64 h.size)) hs

-- An object that is verified where the iteration stands, not by a worker thread.
abbrev pub IsSmallish : ObjectHeader → Type 0
IsSmallish h = h.size ≤ 16384

-- The hash of every smallish object is that of its payload; and some hash is not, as a search.
abbrev pub AllAgree : Zstd → (List ℕ → ℕ) → List ℕ → ℕ → List ObjectHeader → Type 0
AllAgree z hash file o [] = Unit {0}
AllAgree z hash file o (h ∷ hs) =
    ((x : ObjectHeader × Body)
      → has_hash h ≡ true
      → IsSmallish h
      → whole_at file o h.size ≡ some x
      → hash (content_of z x) ≡ stored_hash x.1)
    × AllAgree z hash file (add64 o (align64 h.size)) hs

abbrev pub SomeDisagrees : Zstd → (List ℕ → ℕ) → List ℕ → ℕ → List ObjectHeader → Type 0
SomeDisagrees z hash file o [] = ⊥
SomeDisagrees z hash file o (h ∷ hs) =
    ((x : ObjectHeader × Body) × (has_hash h ≡ true)
      × (whole_at file o h.size ≡ some x)
      × (hash (content_of z x) ≢ stored_hash x.1))
    ⊎ SomeDisagrees z hash file (add64 o (align64 h.size)) hs

absent : false ≡ true → ⊥
absent e = cc

unsome : {A : Type 0} (a b : A) → some a ≡ some b → a ≡ b
unsome a b e = cc

module _ (siphash24 : List ℕ → List ℕ → ℕ) (jenkins_hash64 : List ℕ → ℕ) (z : Zstd)
    (iou_async : Async) (e : ByteOrder) (header : Header) (file : List ℕ) (w : World file)
    (small : length file < 2 ^ 64) (bytes : AreBytes file)
    (no_context : (err : ℕ) → w.Ok Call.create_context (Reply.error err) → w.E enomem)
    (dispatches : Dispatches iou_async w.E) where
  abbrev hash_of : List ℕ → ℕ
  hash_of = format_hash siphash24 jenkins_hash64 header

  -- An error of the world, or the report of a hash that disagrees.
  abbrev pub Failed : ℕ → List ObjectHeader → ℕ → Type 0
  Failed o hs err = w.E err ⊎ ((err ≡ ebadmsg) × SomeDisagrees z hash_of file o hs)

  -- The errors of verifying an object, and what is known behind it.
  abbrev Refused : ObjectHeader × Body → ℕ → Type 0
  Refused x err = w.E err ⊎ ((err ≡ ebadmsg) × (hash_of (content_of z x) ≢ stored_hash x.1))

  per_hashed_object_lem :
      (h : ObjectHeader) (x : ObjectHeader × Body) (s : Verified)
      (closure : Verified → Step (Journal × Verified)) (F : ℕ → Type 0)
      (P : Journal × Verified → Type 0)
      → IsHashed z h x
      → ((err : ℕ) → Refused x err → F err)
      → ((s' : Verified)
          → (IsSmallish h → hash_of (content_of z x) ≡ stored_hash x.1)
          → Wp w.Ok F P (closure s'))
      → Wp w.Ok F P (per_hashed_object siphash24 jenkins_hash64 z iou_async header x s closure)
  unfolding per_hashed_object
  per_hashed_object_lem h x s closure F P i into go =
      let Agrees : Verified → Type 0 = λ s'. hash_of (content_of z x) ≡ stored_hash x.1 in
      let work = verify_hashed_object siphash24 jenkins_hash64 z header x s in
      let verified : Wp w.Ok F Agrees work =
        Wp-errors w.Ok (Refused x) F Agrees work
          (verify_hashed_object_lem siphash24 jenkins_hash64 z header w.Ok w.E w.no_memory
            no_context h x s i)
          into in
      elim (Bool-cases (leb (x.0).size 16384)) [
        | inl sync ↦
            rw sync
              (Wp-bind w.Ok F Agrees P work closure verified λ s' agrees. go s' λ smallish. agrees)
        | inr large ↦ rw large (
            dispatches w.Ok F P work closure (λ err f. into err (inl f))
              (Wp-mono w.Ok F Agrees (λ s'. Unit {0}) work verified λ s' agrees. tt)
              λ s'. go s' λ smallish. absurd (
                absent (
                  sym large
                  ∙ ap (λ (o : ObjectHeader). leb o.size 16384) i.header
                  ∙ le→leb h.size 16384 smallish)))
      ]

  -- Behind `per_object`: the buffers are right, and the hash of a smallish object is its own.
  abbrev Behind : ℕ → ObjectHeader → Journal × Verified → Type 0
  Behind o h (j, s) =
      IsCache file j
      × ((x : ObjectHeader × Body)
          → has_hash h ≡ true
          → IsSmallish h
          → whole_at file o h.size ≡ some x
          → hash_of (content_of z x) ≡ stored_hash x.1)

  disagree :
      (o : ℕ) (h : ObjectHeader) (hs : List ObjectHeader) (x : ObjectHeader × Body)
      → has_hash h ≡ true
      → whole_at file o h.size ≡ some x
      → (err : ℕ) → w.E err ⊎ ((err ≡ ebadmsg) × (hash_of (content_of z x) ≢ stored_hash x.1))
      → Failed o (h ∷ hs) err
  disagree o h hs x hashed at err (inl f) = inl f
  disagree o h hs x hashed at err (inr (q, bad)) = inr (q, inl (x, hashed, at, bad))

  per_object_lem :
      (o : ℕ) (h : ObjectHeader) (hs : List ObjectHeader) (it : Iter) (s : Verified)
      → Stepped file w small bytes e header o h it
      → AreHashed z file o (h ∷ hs)
      → Wp w.Ok
          (Failed o (h ∷ hs))
          (Behind o h)
          (per_object siphash24 jenkins_hash64 z iou_async e header it s)
  unfolding per_object
  per_object_lem o h hs it s (eo, eh, c) (loads, rest) = elim (Bool-cases (has_hash it.object)) [
    | inr other ↦
        rw other (c, λ x hashed smallish. absurd (absent (sym other ∙ ap has_hash eh ∙ hashed)))
    | inl hashed ↦
        let hashed' : has_hash h ≡ true = ap has_hash (sym eh) ∙ hashed in
        let (x, at, i, big, inside) = loads hashed' in
        rw hashed (
          Wp-bind w.Ok (Failed o (h ∷ hs)) (λ n. Unit {0}) _ (grow s.object_usable it.object.size) _
            (Wp-errors w.Ok w.E (Failed o (h ∷ hs)) _ (grow s.object_usable it.object.size)
              (grow_lem siphash24 jenkins_hash64 z header w.Ok w.E w.no_memory no_context
                s.object_usable it.object.size)
              (λ err h. inl h))
            λ usable u.
              Wp-bind w.Ok (Failed o (h ∷ hs)) (λ (y, j). (y ≡ x) × IsCache file j) _
                (journal_get_object e it.offset it.object.size it.journal) _
                (Wp-errors w.Ok w.E (Failed o (h ∷ hs)) _
                  (journal_get_object e it.offset it.object.size it.journal)
                  (journal_get_object-le file w e it.offset it.object.size it.journal x small bytes
                    (rw eh big) (rw (eo, eh) inside) ((λ k. whole_at file (eo k) (eh k).size) ∙ at)
                    c)
                  (λ err h. inl h))
                λ (y, j) (same, c'). rw same (
                  per_hashed_object_lem h x (record s { object_usable = usable })
                    (λ s'. done (j, s')) (Failed o (h ∷ hs)) (Behind o h) i
                    (disagree o h hs x hashed' at)
                    λ s' agree. (
                      c',
                      λ x' _ smallish at'. rw (← unsome x x' (sym at ∙ at')) (agree smallish),
                    )))
  ]

  -- Verifying a file of objects, each data or field object of it whole, and, if it is compressed,
  -- a whole zstd frame that tells its size, where `iou_async` dispatches its closure when the work
  -- has completed, or fails as the work or as the world does, and where decompression contexts are
  -- refused as the world fails: it ends, given a step more than there are objects. It ends well only
  -- if the stored hash of every data or field object of at most 16 KiB is the hash of the payload, as
  -- it is decompressed, keyed or not as the header says, and otherwise with an error of the world,
  -- or with EBADMSG where some hash of a data or field object disagrees.
  pub verify_objects-AllAgree :
      (fuel o : ℕ) (hs : List ObjectHeader) (it : Iter) (s : Verified)
      → length hs < fuel
      → advance header it.offset it.object.size ≡ o
      → Objects file header.tail_object_offset o hs
      → AreHashed z file o hs
      → IsCache file it.journal
      → Wp w.Ok
          (Failed o hs)
          (λ _. AllAgree z hash_of file o hs)
          (verify_objects siphash24 jenkins_hash64 z iou_async e fuel header it s)
  unfolding verify_objects journal_iter_next_object
  verify_objects-AllAgree zero o hs it s lt a objs hashed c = absurd (omega arith)
  verify_objects-AllAgree (suc fuel) o [] it s lt a objs hashed c =
      rw (a, step_end file w small bytes e header o it objs) tt
  verify_objects-AllAgree (suc fuel) o (h ∷ hs) it s lt a (nz, le, at, pos, inside, rest) hashed c =
      rw a (
        Wp-bind w.Ok (Failed o (h ∷ hs)) (Stepped file w small bytes e header o (object_at file o))
          _ (iter_at e header o it) _
          (Wp-errors w.Ok w.E (Failed o (h ∷ hs)) _ (iter_at e header o it)
            (step_object file w small bytes e header o it le inside c) (λ err f. inl f))
          λ it' (eo, eh, c').
            let same : it'.object ≡ h = eh ∙ at in
            let o' = add64 o (align64 h.size) in
            let moved : advance header it'.offset it'.object.size ≡ o' =
              (λ i. advance header (eo i) (same i).size) ∙ advance-object header o h.size nz pos in
            rw (ne→== it'.offset 0 (λ p. nz (sym eo ∙ p))) (
              Wp-bind w.Ok (Failed o (h ∷ hs)) _ _
                (per_object siphash24 jenkins_hash64 z iou_async e header it' s) _
                (per_object_lem o h hs it' s (eo, same, c') hashed)
                λ (j, s') (c2, agrees).
                  Wp-mono w.Ok (Failed o (h ∷ hs)) _ _
                    (verify_objects siphash24 jenkins_hash64 z iou_async e fuel header
                      (record it' { journal = j }) s')
                    (Wp-errors w.Ok (Failed o' hs) (Failed o (h ∷ hs)) _
                      (verify_objects siphash24 jenkins_hash64 z iou_async e fuel header
                        (record it' { journal = j }) s')
                      (verify_objects-AllAgree fuel o' hs (record it' { journal = j }) s'
                        (omega arith) moved rest hashed.1 c2)
                      (later o h hs))
                    λ s2 all. (agrees, all)))
    where
      later :
          (o : ℕ) (h : ObjectHeader) (hs : List ObjectHeader) (err : ℕ)
          → Failed (add64 o (align64 h.size)) hs err
          → Failed o (h ∷ hs) err
      later o h hs err (inl f) = inl f
      later o h hs err (inr (q, bad)) = inr (q, inr bad)
