-- ===== src/Usage/Launched.antt =====
-- `jio report usage` from its start to its totals.
use jio.Base.{ℕ, ◌≤◌, ◌<◌, ◌≡◌, refl, sym, ap, ◌∙◌, List, [], ◌∷◌, length}
use jio.Io.{Call, Reply}
use jio.Io.Wp.{Wp, Wp-mono}
use jio.Lru.{Journal}
use jio.Format.Endian.{ByteOrder}
use jio.Objects.{Iter}
use jio.Open.{visible}
use jio.Open.Setup.{opened}
use jio.Open.Completions.{Opens}
use jio.Open.Listing.{Any}
use jio.Open.Numbered.{numbered}
use jio.Ids.Gets.{Reads}
use jio.Tasks.{Task, Inevitably}
use jio.Tasks.Readable.{Readable}
use jio.Drive.{Setting, launch}
use jio.Drive.Launch.{Completes, tasks_of, launch-tasks_of}
use jio.Drive.Outcome.{chains, journals_of, each, tasks_of-each}
use jio.Usage.Tally.{HasType}
use jio.Usage.Concurrent.{Aggregate, Change, change, per_journal}
use jio.Usage.Report.{tasks, Reported, per_journal-Inevitably}

module _ (E : ℕ → Type 0) (e : ByteOrder) (fuel : ℕ) (memory : Iter) where
  -- The closure that `jio_report_usage` gives to `journals_for_each`.
  abbrev pub closure : ℕ → Journal → Task Change
  closure fd j = per_journal e fuel fd (record memory { journal = j })

  -- What is read of the journal of number `l`, whose open gave `fd`.
  pub record Stores (stored : ℕ → ℕ → Readable HasType E) : Type 0 where
    pub fd : (l fd : ℕ) → ((stored l fd).base).fd ≡ fd
    pub it :
        (l fd : ℕ) → ((stored l fd).base).it ≡ record memory { journal = numbered l (opened fd) }
    pub fuels : (l fd : ℕ) → (stored l fd).fuel ≡ fuel

  module _ (stored : ℕ → ℕ → Readable HasType E) where
    abbrev chain : Readable HasType E → Task Change
    chain j = per_journal e j.fuel (j.base).fd (j.base).it

    chains-each : (js : List (Readable HasType E)) → each stored chain js ≡ chains (tasks E e js)
    chains-each [] = refl
    chains-each (j ∷ js) = ap (λ (ts : List (Task Change)). chain j ∷ ts) (chains-each js)

    tasks_of-chains :
        (s : Setting)
        → Stores stored
        → tasks_of closure (length (visible s.second)) 0 s.opens
          ≡ chains (tasks E e (journals_of stored s))
    tasks_of-chains s st =
        tasks_of-each stored closure chain
          (λ l fd i.
            per_journal e (sym (st.fuels l fd) i) (sym (st.fd l fd) i) (sym (st.it l fd) i))
          (length (visible s.second)) 0 s.opens
        ∙ chains-each (journals_of stored s)

    -- Where /etc/machine-id is not empty and is read whole, `fdopendir` and the registering do not
    -- fail, the second pass over the directory shows no more journals than the first, their opens
    -- complete in any order, each succeeding or denied, and what is opened can be read as objects of
    -- known types: `jio report usage` ends with an error before it starts a task, or starts the
    -- tasks of the journals whose opens succeeded. However these take turns, one fails with an
    -- error of `E`, or all end with the totals of every one of these journals.
    pub launch-Inevitably :
        (Ok : Call → Reply → Type 0) (world : Opens Ok) (id : List ℕ) (reads : Reads id Ok)
        (opens_dir : (fd err : ℕ) → Ok (Call.fdopendir fd) (Reply.error err) → ⊥) (s : Setting)
        (a : Aggregate)
        → Stores stored
        → 0 < length id
        → length (visible s.second) ≤ length (visible s.first)
        → Completes (length (visible s.second)) s.opens
        → Wp Ok Any (λ ts. ts ≡ chains (tasks E e (journals_of stored s))) (launch closure s)
          × Inevitably change
              (Reported E (journals_of stored s) a)
              (tasks E e (journals_of stored s))
              a
    launch-Inevitably Ok world id reads opens_dir s a stores pos fewer c = (
      Wp-mono Ok Any _ _ (launch closure s)
          (launch-tasks_of closure Ok world id reads opens_dir s pos fewer c)
          λ ts same. same ∙ tasks_of-chains s stores,
      per_journal-Inevitably E e (journals_of stored s) a,
    )
