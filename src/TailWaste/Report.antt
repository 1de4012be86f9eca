-- ===== src/TailWaste/Report.antt =====
-- The totals of `jio report tail-waste`, however the tasks of the journals take turns.
use jio.Base.{
  ℕ, ◌+◌, ◌%◌, ◌^◌, ◌<◌, ◌≤◌, ◌≡◌, refl, sym, ◌∙◌, ◌⊎◌, List, [], ◌∷◌, arith, length, lt→ltb, sub64,
  ◌==◌, if◌then◌else◌,
}
use jio.Io.{Reply}
use jio.Cache.Window.{IsCache}
use jio.Format.{ObjectHeader, Header}
use jio.Format.JournalState
use jio.Format.Endian.{ByteOrder}
use jio.Objects.Loads.{header_at, object_at, journal_get_header-le, journal_get_object_header-le}
use jio.TailWaste.{TailWaste, tail_of, add_waste}
use jio.TailWaste.Sums.{IsTotal, add_waste-IsTotal}
use jio.TailWaste.Concurrent.{Waste, add, print_tail_waste, per_journal_tail_waste, add_commute}
use jio.Tasks.{Pool, OneFailed, AllEnded, Inevitably}
use jio.Tasks.Promised.{settle, PromiseAll, Comes}
use jio.Tasks.Owing.{Owes, Owes-lift, OweAll, just, OweAll-PromiseAll, just-AreKept}
use jio.Tasks.Readable.{Answered, sum_of, number_of, Owes-errors}
use jio.Tasks.Fate.{promises-Inevitably}

module _ (E : ℕ → Type 0) where
  -- A journal of one of the three states, with its last object inside of the file.
  pub record Ending : Type 1 where
    pub base : Answered E
    pub state : (header_at base.file).state < JournalState.max
    pub inside : (header_at base.file).tail_object_offset + 16 ≤ length base.file

  abbrev pub tail_at : List ℕ → ℕ
  tail_at file = tail_of (header_at file) (object_at file (header_at file).tail_object_offset)

  abbrev pub waste_of : Ending → Waste
  waste_of j = record {
    state = (header_at (j.base).file).state;
    size = length (j.base).file;
    tail = tail_at (j.base).file;
  }

  -- The tasks that `journals_for_each` starts, and the changes that they make.
  abbrev pub tasks : ByteOrder → List Ending → Pool Waste
  tasks e [] = []
  tasks e (j ∷ js) =
      (((j.base).world).Ok, per_journal_tail_waste e (j.base).fd ((j.base).it).journal) ∷ tasks e js

  abbrev owed : List Ending → List (List Waste)
  owed [] = []
  owed (j ∷ js) = (waste_of j ∷ []) ∷ owed js

  -- What a journal adds for state `s`.
  abbrev pub waste_in : ℕ → Ending → ℕ
  waste_in s j = if s == (waste_of j).state then sub64 (waste_of j).size (waste_of j).tail else 0

  abbrev pub is_in : ℕ → Ending → ℕ
  is_in s j = if s == (waste_of j).state then 1 else 0

  -- `b` is `a` with every journal added.
  pub record Sums (js : List Ending) (a b : TailWaste) : Type 0 where
    pub bytes :
        (s : ℕ)
        → b.per_state_bytes s % 2 ^ 64 ≡ (a.per_state_bytes s + sum_of (waste_in s) js) % 2 ^ 64
    pub counts :
        (s : ℕ)
        → b.per_state_counts s % 2 ^ 32 ≡ (a.per_state_counts s + sum_of (is_in s) js) % 2 ^ 32
    pub file_size :
        b.total_file_size % 2 ^ 64
        ≡ (a.total_file_size + sum_of (λ (j : Ending). length (j.base).file) js) % 2 ^ 64
    pub n_journals : b.n_journals % 2 ^ 32 ≡ (a.n_journals + number_of js) % 2 ^ 32

  settle-Sums : (js : List Ending) (a : TailWaste) → Sums js a (settle add (owed js) a)
  unfolding add_waste
  settle-Sums [] a = record {
    bytes = λ s. omega arith;
    counts = λ s. omega arith;
    file_size = omega arith;
    n_journals = omega arith;
  }
  settle-Sums (j ∷ js) a =
      let rest = settle-Sums js (add (waste_of j) a) in
      record {
        bytes = λ s. ground (arith, rest.bytes s);
        counts = λ s. ground (arith, rest.counts s);
        file_size = omega (arith, rest.file_size);
        n_journals = omega (arith, rest.n_journals);
      }

  settle-IsTotal : (js : List Ending) (a : TailWaste) → IsTotal a → IsTotal (settle add (owed js) a)
  settle-IsTotal [] a h = h
  settle-IsTotal (j ∷ js) a h =
      settle-IsTotal js (add (waste_of j) a) (add_waste-IsTotal _ _ _ a j.state h)

  print_tail_waste-Owes :
      (j : Ending) (h : Header) (o : ObjectHeader)
      → h ≡ header_at (j.base).file
      → o ≡ object_at (j.base).file h.tail_object_offset
      → Owes
          ((j.base).world).Ok
          ((j.base).world).E
          (waste_of j ∷ [])
          (print_tail_waste (j.base).fd h o)
  unfolding print_tail_waste
  print_tail_waste-Owes j h o at at_o (Reply.error err) ok = (j.base).no_size err ok
  print_tail_waste-Owes j h o at at_o (Reply.ok sz bs) ok =
      let file = (j.base).file in
      let size = (j.base).sizes sz bs ok in
      let tail : tail_of h o ≡ tail_at file =
        λ i. tail_of (at i) ((at_o ∙ (λ k. object_at file (at k).tail_object_offset)) i) in
      let known : h.state < JournalState.max = rw at j.state in
      rw (lt→ltb h.state 3 known)
        ([], sym (λ i. record { state = (at i).state; size = size i; tail = tail i } ∷ []), refl)

  per_journal_tail_waste-Owes :
      (e : ByteOrder) (j : Ending)
      → Owes
          ((j.base).world).Ok
          E
          (waste_of j ∷ [])
          (per_journal_tail_waste e (j.base).fd ((j.base).it).journal)
  unfolding per_journal_tail_waste
  per_journal_tail_waste-Owes e j =
      let b = j.base in
      let w = b.world in
      Owes-errors w.Ok w.E E _ _
        (Owes-lift w.Ok w.E (λ (h, k). (h ≡ header_at b.file) × IsCache b.file k) _ _ _
          (journal_get_header-le b.file w b.small b.bytes e (b.it).journal b.big b.cache)
          λ (h, k) (at, c).
            Owes-lift w.Ok w.E
              (λ (o, k'). (o ≡ object_at b.file h.tail_object_offset) × IsCache b.file k') _ _ _
              (journal_get_object_header-le b.file w b.small b.bytes e h.tail_object_offset k
                (rw at j.inside) c)
              λ (o, k') (at_o, c'). print_tail_waste-Owes j h o at at_o)
        b.errors

  tasks-OweAll : (e : ByteOrder) (js : List Ending) → OweAll E (owed js) (tasks e js)
  tasks-OweAll e [] = tt
  tasks-OweAll e (j ∷ js) = (per_journal_tail_waste-Owes e j, (j.base).serial, tasks-OweAll e js)

  abbrev pub promised : List (Ending) → List (List Waste → Type 0)
  promised js = just (owed js)

  pub tasks-PromiseAll :
      (e : ByteOrder) (js : List (Ending)) → PromiseAll E (promised js) (tasks e js)
  tasks-PromiseAll e js = OweAll-PromiseAll E (owed js) (tasks e js) (tasks-OweAll e js)

  -- Totals with every journal added, which are the sums of the states.
  abbrev pub HasTotals : List Ending → TailWaste → TailWaste → Type 0
  HasTotals js a b = Sums js a b × IsTotal b

  -- What the changes come to.
  pub promised-Sums :
      (js : List Ending) (a b : TailWaste)
      → IsTotal a
      → Comes add add_commute E (promised js) a b
      → HasTotals js a b
  unfolding Comes
  promised-Sums js a b t (uss, k, same) =
      rw (same ∙ (λ i. settle add (sym (just-AreKept (owed js) uss k) i) a))
        (settle-Sums js a, settle-IsTotal js a t)

  -- What comes to pass of the tasks: one has failed, or all have ended with every journal added
  -- and totals that are the sums of the states.
  abbrev pub Reported : List Ending → TailWaste → Pool Waste → TailWaste → Type 0
  Reported js a p b = OneFailed E p ⊎ (AllEnded p × HasTotals js a b)

  -- The tasks of `jio report tail-waste` on journals of the three states, with the last object
  -- inside of each file: however they take turns, and whatever the worlds reply, it comes to pass
  -- that one has failed with an error of `E`, or that all have ended. Then the totals have grown,
  -- in their integer types, by every journal, the bytes and the count of its state among them,
  -- and where the totals were the sums of the states before, they still are.
  pub per_journal_tail_waste-Inevitably :
      (e : ByteOrder) (js : List Ending) (a : TailWaste)
      → IsTotal a
      → Inevitably add (Reported js a) (tasks e js) a
  per_journal_tail_waste-Inevitably e js a t =
      promises-Inevitably add E add_commute (promised js) (tasks e js) a (HasTotals js a)
        (tasks-PromiseAll e js) (λ b c. promised-Sums js a b t c)
