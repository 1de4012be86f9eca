-- ===== src/Usage/Alone.antt =====
-- The task of `jio report usage` for one journal, run alone, against the chain of calls.
use jio.Base.{
  ℕ, zero, suc, ◌≡◌, refl, sym, ap, ◌∙◌, ◌==◌, ltb, Bool, true, false, if◌then◌else◌, none, some,
  add64,
}
use jio.Io.{Call, Reply, Step, done, fail, fault, call, ◌>>=◌}
use jio.Format.{ObjectHeader, Header}
use jio.Format.ObjectType
use jio.Format.Endian.{ByteOrder}
use jio.Objects.{Iter, journal_get_header, journal_iter_next_object}
use jio.Usage.{Usage, no_usage, count}
use jio.Usage.Concurrent.{Aggregate, Change, file, object, add_file, change, per_data_object}
use jio.Tasks.{Task, ended, failed, faulted, update, lift}
use jio.Tasks.Alone.{alone, alone-lift, bind_assoc, bind_eq}

-- What is left of the totals of a task, and of a chain.
abbrev pub usage_of : Aggregate → Step Usage
usage_of a = done a.usage

abbrev pub total_of : Usage × Usage → Step Usage
total_of (own, total) = done total

module _ (e : ByteOrder) where
  abbrev task_objects : ℕ → Header → Iter → Task Change
  task_objects = jio.Tasks.Objects.iter_objects e per_data_object

  abbrev chain_objects : ℕ → Header → Iter → Usage × Usage → Step (Usage × Usage)
  chain_objects = jio.Objects.iter_objects e jio.Usage.per_data_object

  -- What follows a step of the iteration, as a task and in a chain.
  abbrev task_step : ℕ → Header → Iter → Task Change
  task_step fuel h it = elim (per_data_object it) [
    | none ↦ faulted
    | some u ↦ update u (if it.offset == 0 then ended else task_objects fuel h it)
  ]

  abbrev chain_step : ℕ → Header → Usage × Usage → Iter → Step (Usage × Usage)
  chain_step fuel h t it = jio.Usage.per_data_object it t >>= λ t'.
      if it.offset == 0 then done t' else chain_objects fuel h it t'

  counted :
      (known last : Bool) (o : ObjectHeader) (own : Usage) (a : Aggregate) (task : Task Change)
      (chain : Usage × Usage → Step (Usage × Usage))
      → ((own' : Usage) (b : Aggregate)
          → (alone change task b >>= usage_of) ≡ (chain (own', b.usage) >>= total_of))
      → (alone change
            (elim (if known then some (object o) else none) [
              | none ↦ faulted
              | some u ↦ update u (if last then ended else task)
            ])
            a
          >>= usage_of)
        ≡ ((if known then done (count o own, count o a.usage) else fault)
            >>= (λ t'. if last then done t' else chain t')
            >>= total_of)
  unfolding change
  counted false last o own a task chain later = refl
  counted true true o own a task chain later = refl
  counted true false o own a task chain later = later (count o own) (change (object o) a)

  task_step-alone :
      (fuel : ℕ) (h : Header) (it : Iter) (own : Usage) (a : Aggregate)
      → ((own' : Usage) (b : Aggregate)
          → (alone change (task_objects fuel h it) b >>= usage_of)
            ≡ (chain_objects fuel h it (own', b.usage) >>= total_of))
      → (alone change (task_step fuel h it) a >>= usage_of)
        ≡ (chain_step fuel h (own, a.usage) it >>= total_of)
  unfolding per_data_object jio.Usage.per_data_object
  task_step-alone fuel h it own a later =
      counted (ltb it.object.type ObjectType.max) (it.offset == 0) it.object own a
        (task_objects fuel h it) (chain_objects fuel h it) later

  iter_objects-alone :
      (fuel : ℕ) (h : Header) (it : Iter) (own : Usage) (a : Aggregate)
      → (alone change (task_objects fuel h it) a >>= usage_of)
        ≡ (chain_objects fuel h it (own, a.usage) >>= total_of)
  unfolding jio.Tasks.Objects.iter_objects jio.Objects.iter_objects
  iter_objects-alone zero h it own a = refl
  iter_objects-alone (suc fuel) h it own a =
      let next = journal_iter_next_object e h it in
      ap (λ (m : Step Aggregate). m >>= usage_of) (alone-lift change next (task_step fuel h) a)
      ∙ bind_assoc next (λ it'. alone change (task_step fuel h it') a) usage_of
      ∙ bind_eq next _ _
          (λ it'. task_step-alone fuel h it' own a (λ own' b. iter_objects-alone fuel h it' own' b))
      ∙ sym (bind_assoc next (chain_step fuel h (own, a.usage)) total_of)

  -- Behind the call of `fstat`.
  abbrev task_sized : ℕ → Iter → Reply → Task Change
  task_sized fuel it r = elim r [
    | Reply.error err ↦ failed err
    | Reply.ok size _ ↦ update (file size) (
        lift (journal_get_header e it.journal)
          λ (h, j). task_objects fuel h (record it { offset = 0; journal = j }))
  ]

  abbrev chain_sized : ℕ → Iter → Usage → Reply → Step (Usage × Usage)
  chain_sized fuel it total r = elim r [
    | Reply.error err ↦ fail err
    | Reply.ok size _ ↦ journal_get_header e it.journal >>= λ (h, j).
        chain_objects fuel h (record it { offset = 0; journal = j })
          (
            record no_usage { file_size = size },
            record total { file_size = add64 total.file_size size },
          )
  ]

  sized-alone :
      (fuel : ℕ) (it : Iter) (a : Aggregate) (r : Reply)
      → (alone change (task_sized fuel it r) a >>= usage_of)
        ≡ (chain_sized fuel it a.usage r >>= total_of)
  unfolding change add_file
  sized-alone fuel it a (Reply.error err) = refl
  sized-alone fuel it a (Reply.ok size bs) =
      let next = journal_get_header e it.journal in
      let b = add_file size a in
      ap (λ (m : Step Aggregate). m >>= usage_of)
        (alone-lift change next
          (λ (h, j). task_objects fuel h (record it { offset = 0; journal = j })) b)
      ∙ bind_assoc next
          (λ (h, j). alone change (task_objects fuel h (record it { offset = 0; journal = j })) b)
          usage_of
      ∙ bind_eq next _ _ (λ (h, j).
        iter_objects-alone fuel h (record it { offset = 0; journal = j })
          (record no_usage { file_size = size }) b)
      ∙ sym (bind_assoc next _ total_of)

  -- The task of one journal, run without others, makes the calls of `per_journal` as one chain
  -- with the totals passed along, in the same order, and leaves the same totals, or fails or
  -- faults as it does.
  pub per_journal-alone :
      (fuel fd : ℕ) (it : Iter) (a : Aggregate)
      → (alone change (jio.Usage.Concurrent.per_journal e fuel fd it) a >>= usage_of)
        ≡ (jio.Usage.per_journal e fuel fd it a.usage >>= total_of)
  unfolding jio.Usage.Concurrent.per_journal jio.Usage.per_journal
      jio.Tasks.Objects.journal_iter_objects jio.Objects.journal_iter_objects
  per_journal-alone fuel fd it a = λ i. call (Call.fstat fd) (λ r. sized-alone fuel it a r i)
