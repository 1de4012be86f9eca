-- ===== src/Usage/Report.antt =====
-- The totals of `jio report usage`, however the tasks of the journals take turns.
use jio.Base.{
  ℕ, ◌+◌, ◌%◌, ◌^◌, ◌≡◌, refl, sym, ◌∙◌, ◌⊎◌, List, [], ◌∷◌, arith, length, some, lt→ltb,
}
use jio.Io.{Reply}
use jio.Cache.Window.{IsCache}
use jio.Format.{ObjectHeader}
use jio.Format.Endian.{ByteOrder}
use jio.Objects.{Iter}
use jio.Objects.Loads.{header_at, journal_get_header-le}
use jio.Usage.{count}
use jio.Usage.Tally.{HasType, seen, of_type, size_of_type, sizes, Adds, Adds-nil, Adds-count}
use jio.Usage.Concurrent.{
  Aggregate, Change, file, object, add_file, change, per_data_object, per_journal, change_commute,
}
use jio.Tasks.{Pool, apply_all, OneFailed, AllEnded, Inevitably}
use jio.Tasks.Promised.{settle, PromiseAll, Comes}
use jio.Tasks.Owing.{Owes, Owes-lift, OweAll, just, OweAll-PromiseAll, just-AreKept}
use jio.Tasks.Objects.{changes, journal_iter_objects-Owes}
use jio.Tasks.Readable.{Readable, sum_of, number_of, Owes-errors}
use jio.Tasks.Fate.{promises-Inevitably}

counts_object : (it : Iter) → HasType it.object → per_data_object it ≡ some (object it.object)
unfolding per_data_object
counts_object it h = rw (lt→ltb it.object.type 8 h) refl

module _ (E : ℕ → Type 0) where
  -- The tasks that `journals_for_each` starts, and the changes that they make.
  abbrev pub tasks : ByteOrder → List (Readable HasType E) → Pool Change
  tasks e [] = []
  tasks e (j ∷ js) =
      (((j.base).world).Ok, per_journal e j.fuel (j.base).fd (j.base).it) ∷ tasks e js

  -- The headers that are counted for a journal.
  abbrev pub counted : Readable HasType E → List ObjectHeader
  counted j = seen ((j.base).it).object j.hs

  abbrev owed : List (Readable HasType E) → List (List Change)
  owed [] = []
  owed (j ∷ js) = (file (length (j.base).file) ∷ changes object ((j.base).it).object j.hs) ∷ owed js

  -- `b` is `a` with every journal added.
  pub record Sums (js : List (Readable HasType E)) (a b : Aggregate) : Type 0 where
    pub counts :
        (t : ℕ)
        → (b.usage).count_per_type t % 2 ^ 64
          ≡ ((a.usage).count_per_type t + sum_of (λ j. of_type t (counted j)) js) % 2 ^ 64
    pub uses :
        (t : ℕ)
        → (b.usage).use_per_type t % 2 ^ 64
          ≡ ((a.usage).use_per_type t + sum_of (λ j. size_of_type t (counted j)) js) % 2 ^ 64
    pub total :
        (b.usage).use_total % 2 ^ 64
        ≡ ((a.usage).use_total + sum_of (λ j. sizes (counted j)) js) % 2 ^ 64
    pub file_size :
        (b.usage).file_size % 2 ^ 64
        ≡ ((a.usage).file_size + sum_of (λ (j : Readable HasType E). length (j.base).file) js)
          % 2 ^ 64
    pub n_journals : b.n_journals % 2 ^ 32 ≡ (a.n_journals + number_of js) % 2 ^ 32

  -- What the changes for the objects of one journal come to.
  objects_lem :
      (before : ObjectHeader) (hs : List ObjectHeader) (a : Aggregate)
      → Adds (seen before hs) a.usage (apply_all change (changes object before hs) a).usage
        × ((apply_all change (changes object before hs) a).n_journals ≡ a.n_journals)
  unfolding change
  objects_lem before [] a = (Adds-count before [] a.usage (count before a.usage) (Adds-nil _), refl)
  objects_lem before (h ∷ hs) a =
      let (adds, same) = objects_lem h hs (record a { usage = count h a.usage }) in
      (Adds-count h (seen h hs) a.usage _ adds, same)

  settle-Sums :
      (js : List (Readable HasType E)) (a : Aggregate) → Sums js a (settle change (owed js) a)
  unfolding change add_file
  settle-Sums [] a = record {
    counts = λ t. omega arith;
    uses = λ t. omega arith;
    total = omega arith;
    file_size = omega arith;
    n_journals = omega arith;
  }
  settle-Sums (j ∷ js) a =
      let (adds, same) =
        objects_lem ((j.base).it).object j.hs (add_file (length (j.base).file) a) in
      let rest = settle-Sums js (
        apply_all change (changes object ((j.base).it).object j.hs)
          (add_file (length (j.base).file) a)) in
      record {
        counts = λ t. omega (arith, adds.counts t, rest.counts t);
        uses = λ t. omega (arith, adds.uses t, rest.uses t);
        total = omega (arith, adds.total, rest.total);
        file_size = omega (arith, adds.file_size, rest.file_size);
        n_journals = omega (arith, same, rest.n_journals);
      }

  per_journal-Owes :
      (e : ByteOrder) (j : Readable HasType E)
      → Owes
          ((j.base).world).Ok
          E
          (file (length (j.base).file) ∷ changes object ((j.base).it).object j.hs)
          (per_journal e j.fuel (j.base).fd (j.base).it)
  unfolding per_journal
  per_journal-Owes e j (Reply.error err) ok = (j.base).errors err ((j.base).no_size err ok)
  per_journal-Owes e j (Reply.ok size bs) ok = (
    _,
    (λ i. file (sym ((j.base).sizes size bs ok) i) ∷ changes object ((j.base).it).object j.hs),
    Owes-errors ((j.base).world).Ok ((j.base).world).E E _ _
        (Owes-lift ((j.base).world).Ok ((j.base).world).E
          (λ (h, k). (h ≡ header_at (j.base).file) × IsCache (j.base).file k) _ _ _
          (journal_get_header-le (j.base).file (j.base).world (j.base).small (j.base).bytes e
            ((j.base).it).journal (j.base).big (j.base).cache)
          λ (h, k) (at, c).
            journal_iter_objects-Owes e per_data_object (j.base).file (j.base).world (j.base).small
              (j.base).bytes h object HasType counts_object j.fuel j.hs
              (record (j.base).it { journal = k }) j.enough (rw at j.objects) j.all j.first c)
        (j.base).errors,
  )

  tasks-OweAll : (e : ByteOrder) (js : List (Readable HasType E)) → OweAll E (owed js) (tasks e js)
  tasks-OweAll e [] = tt
  tasks-OweAll e (j ∷ js) = (per_journal-Owes e j, (j.base).serial, tasks-OweAll e js)

  abbrev pub promised : List (Readable HasType E) → List (List Change → Type 0)
  promised js = just (owed js)

  pub tasks-PromiseAll :
      (e : ByteOrder) (js : List (Readable HasType E)) → PromiseAll E (promised js) (tasks e js)
  tasks-PromiseAll e js = OweAll-PromiseAll E (owed js) (tasks e js) (tasks-OweAll e js)

  -- What the changes come to.
  pub promised-Sums :
      (js : List (Readable HasType E)) (a b : Aggregate)
      → Comes change change_commute E (promised js) a b
      → Sums js a b
  unfolding Comes
  promised-Sums js a b (uss, k, same) =
      rw (same ∙ (λ i. settle change (sym (just-AreKept (owed js) uss k) i) a)) (settle-Sums js a)

  -- What comes to pass of the tasks: one has failed, or all have ended with every journal added.
  abbrev pub Reported : List (Readable HasType E) → Aggregate → Pool Change → Aggregate → Type 0
  Reported js a p b = OneFailed E p ⊎ (AllEnded p × Sums js a b)

  -- The tasks of `jio report usage` on journals of objects of known types, with more fuel than
  -- there are objects: however they take turns, and whatever the worlds reply, it comes to pass
  -- that one has failed with an error of `E`, or that all have ended. Then the totals have grown,
  -- in their integer types, by every journal: by the number and the sizes of its objects, with the
  -- last one once more, by the size of its file, and by one journal.
  pub per_journal-Inevitably :
      (e : ByteOrder) (js : List (Readable HasType E)) (a : Aggregate)
      → Inevitably change (Reported js a) (tasks e js) a
  per_journal-Inevitably e js a =
      promises-Inevitably change E change_commute (promised js) (tasks e js) a (Sums js a)
        (tasks-PromiseAll e js) (promised-Sums js a)
