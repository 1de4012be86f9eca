-- ===== src/Tasks.antt =====
-- The tasks that one `iou_run` drives: a chain of closures for each journal, which share one set
-- of totals. A chain runs without interruption from one reply to the next; between two of its
-- calls any other chain may go on. Here it may even be interrupted at every change of the totals.
pub mod Promised
pub mod Owing
pub mod Fate
pub mod Objects
pub mod Reached
pub mod Readable
pub mod Alone
use jio.Base.{ℕ, List, [], ◌∷◌, Option, none, some}
use jio.Io.{Call, Reply, Step, done, fail, fault, out_of_fuel, call}

-- `update u t` changes the totals by `u`, and goes on with `t`.
pub data Task {ℓ} (U : Type ℓ) : Type ℓ where
  ended : Task U
  failed : ℕ → Task U
  faulted : Task U
  exhausted : Task U
  waiting : Call → (Reply → Task U) → Task U
  update : U → Task U → Task U

-- A chain that leaves the totals alone, and what is done behind it.
abbrev pub lift {ℓ κ} : {A : Type ℓ} {U : Type κ} → Step A → (A → Task U) → Task U
lift (done a) next = next a
lift (fail e) next = failed e
lift fault next = faulted
lift out_of_fuel next = exhausted
lift (call c k) next = waiting c (λ r. lift (k r) next)

-- The worlds that the tasks ask, and the tasks.
abbrev pub Pool : Type 0 → Type 1
Pool U = List ((Call → Reply → Type 0) × Task U)

abbrev pub apply_all : {U S : Type 0} → (U → S → S) → List U → S → S
apply_all apply [] s = s
apply_all apply (u ∷ us) s = apply_all apply us (apply u s)

module _ {U S : Type 0} (apply : U → S → S) where
  -- A task gets a reply, or changes the totals.
  pub data Turn (Ok : Call → Reply → Type 0) : Task U → S → Task U → S → Type 0 where
    replied :
        {c : Call} {k : Reply → Task U} {s : S} (r : Reply)
        → Ok c r
        → Turn Ok (waiting c k) s (k r) s
    updated : {u : U} {t : Task U} {s : S} → Turn Ok (update u t) s t (apply u s)

  -- One task of the pool takes a turn.
  pub data Moves : Pool U → S → Pool U → S → Type 1 where
    here :
        {Ok : Call → Reply → Type 0} {t t' : Task U} {s s' : S} {rest : Pool U}
        → Turn Ok t s t' s'
        → Moves ((Ok, t) ∷ rest) s ((Ok, t') ∷ rest) s'
    later :
        {w : (Call → Reply → Type 0) × Task U} {s s' : S} {rest rest' : Pool U}
        → Moves rest s rest' s'
        → Moves (w ∷ rest) s (w ∷ rest') s'

  -- Whatever turns are taken, `P` comes to hold: it does, or there is a turn to take, and behind
  -- every turn it comes to hold.
  pub data Inevitably (P : Pool U → S → Type 0) : Pool U → S → Type 1 where
    now : {p : Pool U} {s : S} → P p s → Inevitably P p s
    soon :
        {p : Pool U} {s : S}
        → ((p' : Pool U) × (s' : S) × Moves p s p' s')
        → ((p' : Pool U) (s' : S) → Moves p s p' s' → Inevitably P p' s')
        → Inevitably P p s

-- `iou_run` returns when every task has ended, or with the error of one.
abbrev pub AllEnded : {U : Type 0} → Pool U → Type 0
AllEnded [] = Unit {0}
AllEnded ((Ok, ended) ∷ rest) = AllEnded rest
AllEnded ((Ok, _) ∷ rest) = ⊥

-- A task has failed, the first of them with an error of `E`.
abbrev pub OneFailed : {U : Type 0} → (ℕ → Type 0) → Pool U → Type 0
OneFailed E [] = ⊥
OneFailed E ((Ok, failed e) ∷ rest) = E e
OneFailed E ((Ok, _) ∷ rest) = OneFailed E rest
