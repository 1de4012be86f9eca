-- ===== src/EntryArrays/Report.antt =====
-- The totals of `jio report entry-arrays`, however the tasks of the journals take turns.
use mathlib.Core.Path.{subst}
use jio.Base.{ℕ, ◌+◌, ◌<◌, ◌≡◌, sym, ◌⊎◌, refl, List, [], ◌∷◌, arith, length}
use jio.Io.{Step}
use jio.Io.Wp.{Wp, Wp-bind, Wp-errors}
use jio.Cache.Window.{IsCache}
use jio.Format.{ObjectHeader, Header}
use jio.Format.Endian.{ByteOrder}
use jio.Objects.{Iter, advance, journal_get_header}
use jio.Objects.Loads.{header_at, journal_get_header-le}
use jio.Objects.Walk.{Objects}
use jio.EntryArrays.{Stats, profile_objects, per_journal}
use jio.EntryArrays.Counted.{no_arrays, no_arrays-IsCounted}
use jio.EntryArrays.Walk.{AddsUp, HaveItems, arrays_in, profile_objects-AddsUp}
use jio.EntryArrays.Totals.{add, add_commute, add-AddsUp}
use jio.Tasks.{ended, update, lift, Pool, OneFailed, AllEnded, Inevitably}
use jio.Tasks.Promised.{Promises-lift, PromiseAll, AreKept, settle, Comes}
use jio.Tasks.Readable.{Answered, sum_of}
use jio.Tasks.Fate.{promises-Inevitably}

module _ (sha1 : List ℕ → List ℕ) (E : ℕ → Type 0) where
  -- A journal of objects `hs`, fewer than `fuel`, whose entry arrays each have an item's bytes
  -- and lie inside of the file, and the iteration in memory that is zero.
  pub record Arrayed : Type 1 where
    pub base : Answered E
    pub fuel : ℕ
    pub hs : List ObjectHeader
    pub enough : length hs < fuel
    pub objects :
        Objects base.file
          (header_at base.file).tail_object_offset
          (header_at base.file).header_size
          hs
    pub items : HaveItems base.file (header_at base.file).header_size hs
    pub fresh : (base.it).offset ≡ 0

  -- The chain of a journal, whose profile lies in memory that is zero.
  abbrev pub chain : ByteOrder → Arrayed → Step Stats
  chain e j = per_journal sha1 e j.fuel (j.base).it no_arrays

  -- The tasks that `journals_for_each` starts.
  abbrev pub tasks : ByteOrder → List Arrayed → Pool Stats
  tasks e [] = []
  tasks e (j ∷ js) =
      (((j.base).world).Ok, lift (chain e j) (λ stats. update stats ended)) ∷ tasks e js

  abbrev pub number_of_arrays : Arrayed → ℕ
  number_of_arrays j = arrays_in j.hs

  start_lem :
      (header : Header) (it : Iter)
      → it.offset ≡ 0
      → advance header it.offset it.object.size ≡ header.header_size
  unfolding advance
  start_lem header it fresh = rw fresh refl

  chain-AddsUp :
      (e : ByteOrder) (j : Arrayed)
      → Wp ((j.base).world).Ok E (AddsUp (number_of_arrays j)) (chain e j)
  unfolding per_journal
  chain-AddsUp e j =
      let b = j.base in
      let w = b.world in
      let n = number_of_arrays j in
      let none_yet : no_arrays.count + n ≡ n = omega arith in
      Wp-errors w.Ok w.E E (AddsUp n) (chain e j)
        (Wp-bind w.Ok w.E (λ (h, k). (h ≡ header_at b.file) × IsCache b.file k) (AddsUp n)
          (journal_get_header e (b.it).journal)
          (λ (h, k). profile_objects sha1 e j.fuel h (record b.it { journal = k }) no_arrays)
          (journal_get_header-le b.file w b.small b.bytes e (b.it).journal b.big b.cache)
          λ (h, k) (at, c).
            subst
              (λ x.
                Wp w.Ok w.E (AddsUp n)
                  (profile_objects sha1 e j.fuel x (record b.it { journal = k }) no_arrays))
              (sym at)
              (subst
                (λ m. Wp w.Ok w.E (AddsUp m) (
                  profile_objects sha1 e j.fuel (header_at b.file) (record b.it { journal = k })
                    no_arrays))
                none_yet
                (profile_objects-AddsUp sha1 e (header_at b.file) b.file w b.small b.bytes j.fuel
                  (header_at b.file).header_size j.hs (record b.it { journal = k }) no_arrays
                  j.enough (start_lem (header_at b.file) b.it j.fresh) j.objects j.items c
                  no_arrays-IsCounted)))
        b.errors

  -- One change, by statistics that count every array of the journal.
  abbrev OneChange : Arrayed → List Stats → Type 0
  OneChange j us = (d : Stats) × (us ≡ d ∷ []) × AddsUp (number_of_arrays j) d

  abbrev pub promised : List Arrayed → List (List Stats → Type 0)
  promised [] = []
  promised (j ∷ js) = OneChange j ∷ promised js

  pub tasks-PromiseAll :
      (e : ByteOrder) (js : List Arrayed) → PromiseAll E (promised js) (tasks e js)
  tasks-PromiseAll e [] = tt
  tasks-PromiseAll e (j ∷ js) = (
    Promises-lift ((j.base).world).Ok E (AddsUp (number_of_arrays j)) (chain e j)
        (λ stats. update stats ended) (OneChange j) (chain-AddsUp e j)
        (λ stats adds. (stats, refl, adds)),
    (j.base).serial,
    tasks-PromiseAll e js,
  )

  settle-AddsUp :
      (js : List Arrayed) (uss : List (List Stats)) (n : ℕ) (a : Stats)
      → AreKept (promised js) uss
      → AddsUp n a
      → AddsUp (n + sum_of number_of_arrays js) (settle add uss a)
  settle-AddsUp [] [] n a k h = record {
    seen = omega (arith, h.seen);
    counts = h.counts;
    unique = h.unique;
  }
  settle-AddsUp [] (us ∷ uss) n a k h = absurd k
  settle-AddsUp (j ∷ js) [] n a k h = absurd k
  settle-AddsUp (j ∷ js) (us ∷ uss) n a ((d, is, adds), k) h =
      let m = number_of_arrays j in
      let rest = settle-AddsUp js uss (n + m) (add d a) k (add-AddsUp m n d a adds h) in
      rw is (record { seen = omega (arith, rest.seen); counts = rest.counts; unique = rest.unique })

  -- What the changes come to.
  pub promised-AddsUp :
      (js : List Arrayed) (n : ℕ) (a b : Stats)
      → AddsUp n a
      → Comes add add_commute E (promised js) a b
      → AddsUp (n + sum_of number_of_arrays js) b
  unfolding Comes
  promised-AddsUp js n a b h (uss, k, same) = rw same (settle-AddsUp js uss n a k h)

  -- What comes to pass of the tasks: one has failed, or all have ended with every array counted.
  abbrev pub Reported : List Arrayed → ℕ → Pool Stats → Stats → Type 0
  Reported js n p b = OneFailed E p ⊎ (AllEnded p × AddsUp (n + sum_of number_of_arrays js) b)

  -- The tasks of `jio report entry-arrays` on journals of objects whose entry arrays each have an
  -- item's bytes and lie inside of the file, in memory that is zero and with more fuel than there
  -- are objects, from totals that count `n` arrays and add up: however the tasks take turns, and
  -- whatever the worlds reply, it comes to pass that one has failed with an error of `E`, or that
  -- all have ended. Then the totals count the `n` arrays and every entry array of every journal,
  -- and their 64 classes of size add up to the number of arrays and to that of the unique ones, in
  -- `uint64_t`.
  pub tasks-AddsUp :
      (e : ByteOrder) (js : List Arrayed) (n : ℕ) (a : Stats)
      → AddsUp n a
      → Inevitably add (Reported js n) (tasks e js) a
  tasks-AddsUp e js n a h =
      promises-Inevitably add E add_commute (promised js) (tasks e js) a
        (AddsUp (n + sum_of number_of_arrays js)) (tasks-PromiseAll e js)
        (λ b c. promised-AddsUp js n a b h c)
