-- ===== src/Drive/Launch.antt =====
-- The tasks that a command starts.
use mathlib.Core.Path.{subst}
use jio.Base.{
  ℕ, zero, suc, ◌+◌, ◌≤◌, ◌<◌, ◌≡◌, refl, sym, ap, ◌∙◌, List, [], ◌∷◌, Option, none, some, arith,
  length, get_elem?, IsDistinct,
}
use jio.Io.{Call, Reply}
use jio.Io.Wp.{Wp, Wp-bind}
use jio.Lru.{Journal}
use jio.Open.{Journals, zero_journal, number_bufs, replicate, visible, journals_open, completions}
use jio.Open.Setup.{opened}
use jio.Open.Completions.{
  Opens, Opened, Fresh, Became, Completed, indices, reply_of, completions-Completed,
}
use jio.Open.Arrays.{get-inside, unsome}
use jio.Open.Listing.{Any, Listed, journals_open-Listed}
use jio.Open.Numbered.{numbered}
use jio.Ids.{machid_get}
use jio.Ids.Gets.{Reads, machid_get-cstr}
use jio.Tasks.{Task}
use jio.Drive.{Setting, machid_path, started, start_journals, launch}

-- The opens of `n` journals complete: each once, and it succeeds or is denied.
pub record Completes (n : ℕ) (rs : List (ℕ × Reply)) : Type 0 where
  pub number : length rs ≡ n
  pub distinct : IsDistinct (indices rs)
  pub replied : (l : ℕ) → l < n → (r : Reply) × (reply_of l rs ≡ some r)
  pub fresh : Fresh rs (replicate n zero_journal)

module _ {U : Type 0} (closure : ℕ → Journal → Task U) where
  abbrev pub task_of : ℕ → Option Reply → List (Task U) → List (Task U)
  task_of l none rest = rest
  task_of l (some (Reply.error e)) rest = rest
  task_of l (some (Reply.ok fd bs)) rest = closure fd (numbered l (opened fd)) ∷ rest

  -- The tasks for `n` journals from number `l`: one for each whose open succeeded, in order.
  abbrev pub tasks_of : ℕ → ℕ → List (ℕ × Reply) → List (Task U)
  tasks_of zero l rs = []
  tasks_of (suc n) l rs = task_of l (reply_of l rs) (tasks_of n (suc l) rs)

  -- What is known of the journal of number `l`, and of the reply to its open.
  Known : ℕ → List (ℕ × Reply) → Journal → Type 0
  Known l rs j =
      (r : Reply) × (k : Journal) × (reply_of l rs ≡ some r)
      × Opened r k
      × (j ≡ number_bufs l (record k { idx = l }))

  one_task :
      (l n : ℕ) (rs : List (ℕ × Reply)) (j : Journal) (js : List Journal) (r : Reply) (k : Journal)
      → reply_of l rs ≡ some r
      → Opened r k
      → j ≡ number_bufs l (record k { idx = l })
      → started closure js ≡ tasks_of n (suc l) rs
      → started closure (j ∷ js) ≡ tasks_of (suc n) l rs
  unfolding number_bufs
  one_task l n rs j js (Reply.error e) k replied was is rest =
      ap (λ x. started closure (x ∷ js)) (is ∙ (λ i. number_bufs l (record (was i) { idx = l })))
      ∙ rest
      ∙ ap (λ o. task_of l o (tasks_of n (suc l) rs)) (sym replied)
  one_task l n rs j js (Reply.ok fd bs) k replied was is rest =
      ap (λ x. started closure (x ∷ js)) (is ∙ (λ i. number_bufs l (record (was i) { idx = l })))
      ∙ ap (λ ts. closure fd (numbered l (opened fd)) ∷ ts) rest
      ∙ ap (λ o. task_of l o (tasks_of n (suc l) rs)) (sym replied)

  started-tasks_of :
      (l : ℕ) (rs : List (ℕ × Reply)) (js : List Journal)
      → ((i m : ℕ) (j : Journal) → m ≡ l + i → get_elem? js i ≡ some j → Known m rs j)
      → started closure js ≡ tasks_of (length js) l rs
  unfolding Known
  started-tasks_of l rs [] known = refl
  started-tasks_of l rs (j ∷ js) known =
      let (r, k, replied, was, is) = known 0 l j (omega arith) refl in
      one_task l (length js) rs j js r k replied was is
        (started-tasks_of (suc l) rs js (λ i m x e at. known (suc i) m x (omega arith) at))

  get-replicate : (n l : ℕ) → l < n → get_elem? (replicate n zero_journal) l ≡ some zero_journal
  get-replicate zero l h = absurd (omega arith)
  get-replicate (suc n) zero h = refl
  get-replicate (suc n) (suc l) h = get-replicate n l (omega arith)

  length-replicate : (n : ℕ) → length (replicate n zero_journal) ≡ n
  length-replicate zero = refl
  length-replicate (suc n) = ap suc (length-replicate n)

  -- What completed opens tell of each journal.
  every_journal :
      (n : ℕ) (rs : List (ℕ × Reply)) (js : Journals) (end : ℕ × Journals)
      → js.journals ≡ replicate n zero_journal
      → Completes n rs
      → Completed rs js 0 end
      → (i m : ℕ) (j : Journal) → m ≡ 0 + i
      → get_elem? (end.1).journals i ≡ some j
      → Known m rs j
  unfolding Known
  every_journal n rs js end fresh c d i m j e at =
      let size : length js.journals ≡ n = ap length fresh ∙ length-replicate n in
      let same : i ≡ m = omega arith in
      let inside = get-inside i (end.1).journals j at in
      let below : i < n = omega (arith, d.size) in
      let (r, replied) = c.replied i below in
      let (k, became, final) =
        d.all i zero_journal (ap (λ l. get_elem? l i) fresh ∙ get-replicate n i below) in
      subst (λ x. Known x rs j) same
        (
          r,
          k,
          replied,
          subst (λ o. Became o zero_journal k) replied became,
          unsome j _ (sym at ∙ final),
        )

  module _ (Ok : Call → Reply → Type 0) (E : ℕ → Type 0) (world : Opens Ok) where
    start_journals-tasks_of :
        (n : ℕ) (rs : List (ℕ × Reply)) (js : Journals)
        → js.n_opened ≡ 0
        → js.journals ≡ replicate n zero_journal
        → Completes n rs
        → Wp Ok E (λ ts. ts ≡ tasks_of n 0 rs) (start_journals closure rs (some js))
    unfolding start_journals completions
    start_journals-tasks_of zero [] js zero_opened fresh c = refl
    start_journals-tasks_of zero (r ∷ rs) js zero_opened fresh c = absurd (omega (arith, c.number))
    start_journals-tasks_of (suc n) rs js zero_opened fresh c =
        Wp-bind Ok E (Completed rs js 0) _ (completions rs 0 js) _
          (completions-Completed Ok E world rs js (omega (arith, c.number)) zero_opened
            (c.number ∙ sym (ap length fresh ∙ length-replicate (suc n))) c.distinct
            (rw fresh c.fresh))
          λ end d. rw d.once (
            started-tasks_of 0 rs (end.1).journals (every_journal (suc n) rs js end fresh c d)
            ∙ ap (λ m. tasks_of m 0 rs) (d.size ∙ ap length fresh ∙ length-replicate (suc n)))

  module _ (Ok : Call → Reply → Type 0) (world : Opens Ok) (content : List ℕ)
      (reads : Reads content Ok)
      (opens_dir : (fd e : ℕ) → Ok (Call.fdopendir fd) (Reply.error e) → ⊥) where
    Listed-tasks_of :
        (s : Setting)
        → length (visible s.second) ≤ length (visible s.first)
        → Completes (length (visible s.second)) s.opens
        → (o : Option Journals) → Listed s.first s.second o
        → Wp Ok Any
            (λ ts. ts ≡ tasks_of (length (visible s.second)) 0 s.opens)
            (start_journals closure s.opens o)
    unfolding start_journals
    Listed-tasks_of s fewer c none listed =
        let empty : length (visible s.first) ≡ 0 = ap length listed in
        let no_more : 0 ≡ length (visible s.second) = omega arith in
        ap (λ n. tasks_of n 0 s.opens) no_more
    Listed-tasks_of s fewer c (some js) (names, zero_opened, fresh) =
        start_journals-tasks_of Ok Any world (length (visible s.second)) s.opens js zero_opened
          fresh c

    -- Where /etc/machine-id is not empty and is read whole, `fdopendir` and the registering do not
    -- fail, the second pass over the directory shows no more journals than the first, and their
    -- opens complete in any order, each succeeding or denied: a command never faults before its
    -- tasks. It ends with an error, or starts one task for each journal whose open succeeded, in
    -- the order of the directory, with the descriptor of its own open.
    pub launch-tasks_of :
        (s : Setting)
        → 0 < length content
        → length (visible s.second) ≤ length (visible s.first)
        → Completes (length (visible s.second)) s.opens
        → Wp Ok Any (λ ts. ts ≡ tasks_of (length (visible s.second)) 0 s.opens) (launch closure s)
    unfolding launch
    launch-tasks_of s pos fewer c =
        Wp-bind Ok Any _ _ (machid_get machid_path s.buf) _
          (machid_get-cstr content Ok reads machid_path s.buf pos)
          λ machid known.
            Wp-bind Ok Any (Listed s.first s.second) _ (journals_open machid s.first s.second) _
              (journals_open-Listed Ok s.first s.second opens_dir fewer machid)
              λ o listed. Listed-tasks_of s fewer c o listed
