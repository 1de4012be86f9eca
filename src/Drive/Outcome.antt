-- ===== src/Drive/Outcome.antt =====
-- A command from its start to what it prints.
use jio.Base.{ℕ, zero, suc, ◌≤◌, ◌<◌, ◌≡◌, refl, ◌∙◌, List, [], ◌∷◌, Option, none, some, length}
use jio.Io.{Call, Reply, Step, ◌>>=◌}
use jio.Io.Wp.{Wp, Wp-bind, Wp-errors}
use jio.Lru.{Journal}
use jio.Open.{visible}
use jio.Open.Setup.{opened}
use jio.Open.Completions.{Opens, reply_of}
use jio.Open.Listing.{Any}
use jio.Open.Numbered.{numbered}
use jio.Ids.Gets.{Reads}
use jio.Objects.{Iter}
use jio.Tasks.{Task, Pool}
use jio.Tasks.Promised.{PromiseAll, Comes}
use jio.Tasks.Readable.{Answered}
use jio.Tasks.Reached.{Drives, Drives-Comes}
use jio.Drive.{Setting, launch}
use jio.Drive.Launch.{Completes, task_of, tasks_of, launch-tasks_of}

-- The tasks of a pool without their worlds.
abbrev pub chains : {U : Type 0} → Pool U → List (Task U)
chains [] = []
chains ((Ok, t) ∷ p) = t ∷ chains p

-- `stored l fd` is what is read of the journal of number `l`, whose open gave `fd`.
module _ {A : Type 1} (stored : ℕ → ℕ → A) where
  abbrev stored_for : ℕ → Option Reply → List A → List A
  stored_for l none rest = rest
  stored_for l (some (Reply.error err)) rest = rest
  stored_for l (some (Reply.ok fd bs)) rest = stored l fd ∷ rest

  -- Those of `n` journals from number `l` whose opens succeeded.
  abbrev pub stored_of : ℕ → ℕ → List (ℕ × Reply) → List A
  stored_of zero l rs = []
  stored_of (suc n) l rs = stored_for l (reply_of l rs) (stored_of n (suc l) rs)

  -- The journals that a command works on.
  abbrev pub journals_of : Setting → List A
  journals_of s = stored_of (length (visible s.second)) 0 s.opens

  abbrev pub each : {U : Type 0} → (A → Task U) → List A → List (Task U)
  each chain [] = []
  each chain (j ∷ js) = chain j ∷ each chain js

  module _ {U : Type 0} (closure : ℕ → Journal → Task U) (chain : A → Task U)
      (same : (l fd : ℕ) → closure fd (numbered l (opened fd)) ≡ chain (stored l fd)) where
    task_of-each :
        (l : ℕ) (o : Option Reply) (ts : List (Task U)) (js : List A)
        → ts ≡ each chain js
        → task_of closure l o ts ≡ each chain (stored_for l o js)
    task_of-each l none ts js rest = rest
    task_of-each l (some (Reply.error err)) ts js rest = rest
    task_of-each l (some (Reply.ok fd bs)) ts js rest = λ i. same l fd i ∷ rest i

    -- A command starts the tasks of these journals.
    pub tasks_of-each :
        (n l : ℕ) (rs : List (ℕ × Reply)) → tasks_of closure n l rs ≡ each chain (stored_of n l rs)
    tasks_of-each zero l rs = refl
    tasks_of-each (suc n) l rs =
        task_of-each l (reply_of l rs) _ (stored_of n (suc l) rs) (tasks_of-each n (suc l) rs)

-- The world in which a command starts: /etc/machine-id is not empty and is read whole, `fdopendir`
-- and the registering do not fail, the second pass over the directory shows no more journals than
-- the first, and their opens complete in any order, each succeeding or denied.
pub record Starts (Ok : Call → Reply → Type 0) (s : Setting) : Type 0 where
  pub opens : Opens Ok
  pub id : List ℕ
  pub reads : Reads id Ok
  pub opens_dir : (fd err : ℕ) → Ok (Call.fdopendir fd) (Reply.error err) → ⊥
  pub some_id : 0 < length id
  pub fewer : length (visible s.second) ≤ length (visible s.first)
  pub completes : Completes (length (visible s.second)) s.opens

-- What is taken to be read of the journal of number `l`, whose open gave `fd`, is read through
-- that descriptor, in an iteration in the memory given.
pub record IsOf {E : ℕ → Type 0} (memory : Iter) (l fd : ℕ) (b : Answered E) : Type 0 where
  pub of_fd : b.fd ≡ fd
  pub it : b.it ≡ record memory { journal = numbered l (opened fd) }

module _ {U S R : Type 0} (apply : U → S → S)
    (commute : (u v : U) (s : S) → apply u (apply v s) ≡ apply v (apply u s)) (E : ℕ → Type 0)
    (iou_run : List (Task U) → S → Step S) where
  -- A command whose tasks keep promises, where `iou_run` drives them: it never faults, and goes on
  -- with totals that the promises come to, or ends with an error.
  pub launch-Comes :
      (Ok : Call → Reply → Type 0) (closure : ℕ → Journal → Task U) (s : Setting) (p : Pool U)
      (Qs : List (List U → Type 0)) (a : S) (P : R → Type 0) (k : S → Step R)
      → Starts Ok s
      → tasks_of closure (length (visible s.second)) 0 s.opens ≡ chains p
      → PromiseAll E Qs p
      → Drives apply p a (iou_run (chains p) a)
      → ((end : S) → Comes apply commute E Qs a end → Wp Ok Any P (k end))
      → Wp Ok Any P (launch closure s >>= λ ts. iou_run ts a >>= k)
  launch-Comes Ok closure s p Qs a P k w same h d next =
      Wp-bind Ok Any (λ ts. ts ≡ tasks_of closure (length (visible s.second)) 0 s.opens) P
        (launch closure s) (λ ts. iou_run ts a >>= k)
        (launch-tasks_of closure Ok w.opens w.id w.reads w.opens_dir s w.some_id w.fewer
          w.completes)
        λ ts is.
          Wp-bind Ok Any (Comes apply commute E Qs a) P (iou_run ts a) k
            (rw (is ∙ same) (
              Wp-errors Ok E Any (Comes apply commute E Qs a) (iou_run (chains p) a)
                (Drives-Comes apply commute E Ok Qs p a (iou_run (chains p) a) d h) (λ e f. tt)))
            next
