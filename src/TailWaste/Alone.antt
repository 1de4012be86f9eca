-- ===== src/TailWaste/Alone.antt =====
-- The task of `jio report tail-waste` for one journal, run alone, against the chain of calls.
use jio.Base.{ℕ, ◌≡◌, refl, ◌∙◌, Bool, true, false, ltb, if◌then◌else◌}
use jio.Io.{Call, Reply, Step, done, fail, fault, call}
use jio.Lru.{Journal}
use jio.Format.{ObjectHeader, Header}
use jio.Format.JournalState
use jio.Format.Endian.{ByteOrder}
use jio.Objects.{journal_get_header, journal_get_object_header}
use jio.TailWaste.{TailWaste, tail_of, add_waste}
use jio.TailWaste.Concurrent.{Waste, add}
use jio.Tasks.{Task, ended, failed, faulted, update}
use jio.Tasks.Alone.{alone, alone-lift, bind_eq}

-- Behind the call of `fstat`.
abbrev task_sized : Header → ObjectHeader → Reply → Task Waste
task_sized h o r = elim r [
  | Reply.error err ↦ failed err
  | Reply.ok sz _ ↦
      if ltb h.state JournalState.max
      then update (record { state = h.state; size = sz; tail = tail_of h o }) ended
      else faulted
]

abbrev chain_sized : Header → ObjectHeader → TailWaste → Reply → Step TailWaste
chain_sized h o w r = elim r [
  | Reply.error err ↦ fail err
  | Reply.ok sz _ ↦
      if ltb h.state JournalState.max then done (add_waste h.state sz (tail_of h o) w) else fault
]

known-alone :
    (known : Bool) (x : Waste) (w : TailWaste)
    → alone add (if known then update x ended else faulted) w
      ≡ (if known then done (add x w) else fault)
known-alone true x w = refl
known-alone false x w = refl

sized-alone :
    (h : Header) (o : ObjectHeader) (w : TailWaste) (r : Reply)
    → alone add (task_sized h o r) w ≡ chain_sized h o w r
sized-alone h o w (Reply.error err) = refl
sized-alone h o w (Reply.ok sz bs) =
    known-alone (ltb h.state JournalState.max)
      (record { state = h.state; size = sz; tail = tail_of h o }) w

print_tail_waste-alone :
    (fd : ℕ) (h : Header) (o : ObjectHeader) (w : TailWaste)
    → alone add (jio.TailWaste.Concurrent.print_tail_waste fd h o) w
      ≡ jio.TailWaste.print_tail_waste fd h o w
unfolding jio.TailWaste.Concurrent.print_tail_waste jio.TailWaste.print_tail_waste
print_tail_waste-alone fd h o w = λ i. call (Call.fstat fd) (λ r. sized-alone h o w r i)

-- The task of one journal, run without others, makes the calls of `per_journal_tail_waste` as one
-- chain with the totals passed along, in the same order, and leaves the same totals, or fails or
-- faults as it does.
pub per_journal_tail_waste-alone :
    (e : ByteOrder) (fd : ℕ) (j : Journal) (w : TailWaste)
    → alone add (jio.TailWaste.Concurrent.per_journal_tail_waste e fd j) w
      ≡ jio.TailWaste.per_journal_tail_waste e fd j w
unfolding jio.TailWaste.Concurrent.per_journal_tail_waste jio.TailWaste.per_journal_tail_waste
per_journal_tail_waste-alone e fd j w =
    alone-lift add (journal_get_header e j) _ w
    ∙ bind_eq (journal_get_header e j) _ _ (λ (h, j1).
      alone-lift add (journal_get_object_header e h.tail_object_offset j1) _ w
      ∙ bind_eq (journal_get_object_header e h.tail_object_offset j1) _ _
          (λ (o, j2). print_tail_waste-alone fd h o w))
