-- ===== src/Verify/Outcome.antt =====
-- What the success of `jio verify hashed-objects` means.
use mathlib.Core.Path.{subst}
use jio.Base.{ℕ, ◌≡◌, refl, sym, ap, ◌∙◌, List, [], ◌∷◌, length}
use jio.Io.{Call, Reply, done, ◌>>=◌}
use jio.Io.Wp.{Wp}
use jio.Lru.{Journal}
use jio.Open.{visible}
use jio.Open.Listing.{Any}
use jio.Verify.{Verified, Async, Zstd, per_journal}
use jio.Verify.Report.{
  Hashed, unshared, unshared_commute, tasks, EachAgrees, Refused, promised, tasks-PromiseAll,
  promised-EachAgrees,
}
use jio.Tasks.{Task, Pool}
use jio.Tasks.Alone.{bind_done}
use jio.Tasks.Reached.{Drives}
use jio.Drive.{Setting, launch}
use jio.Drive.Outcome.{chains, journals_of, each, tasks_of-each, Starts, IsOf, launch-Comes}
use jio.Drive.Commands.{Host, iter_of, alone, jio_verify_hashed_objects}

module _ (siphash24 : List ℕ → List ℕ → ℕ) (jenkins_hash64 : List ℕ → ℕ) (z : Zstd)
    (iou_async : Async) (memory : Verified) (E : ℕ → Type 0)
    (host : Host (Unit {0}) (Unit {0})) where
  abbrev Stored : Type 1
  Stored = Hashed siphash24 jenkins_hash64 z iou_async memory E

  abbrev pool : List Stored → Pool (Unit {0})
  pool js = tasks siphash24 jenkins_hash64 z iou_async memory E host.byte_order js

  module _ (stored : ℕ → ℕ → Stored) where
    -- The journals are read through the descriptors of their opens, with the host's memory and
    -- fuel.
    pub record Stores : Type 0 where
      pub read : (l fd : ℕ) → IsOf host.memory l fd (stored l fd).base
      pub fuels : (l fd : ℕ) → (stored l fd).fuel ≡ host.fuel

    abbrev chain : Stored → Task (Unit {0})
    chain j =
        alone (
          per_journal siphash24 jenkins_hash64 z iou_async host.byte_order j.fuel (j.base).it
            memory)

    chains-each : (js : List Stored) → each stored chain js ≡ chains (pool js)
    chains-each [] = refl
    chains-each (j ∷ js) = ap (λ (ts : List (Task (Unit {0}))). chain j ∷ ts) (chains-each js)

    abbrev closure : ℕ → Journal → Task (Unit {0})
    closure fd j = alone (
        per_journal siphash24 jenkins_hash64 z iou_async host.byte_order host.fuel (iter_of host j)
          memory)

    -- `jio verify hashed-objects`, started in a world where `Starts` holds, on journals of objects,
    -- each data or field object whole and, if it is compressed, a whole zstd frame that tells its
    -- size, with iterations in memory that is zero and more fuel than there are objects, where
    -- `iou_async` dispatches its closure when the work has completed, or fails as the work or as the
    -- world does, and where `iou_run` has driven the tasks to its return: it never faults, and ends
    -- without an error only if in every journal whose open succeeded the stored hash of each data
    -- or field object of at most 16 KiB is the hash of its payload, as it is decompressed, keyed or
    -- not as the header says.
    pub jio_verify_hashed_objects-EachAgrees :
        (Ok : Call → Reply → Type 0) (s : Setting)
        → Starts Ok s
        → Stores
        → Drives unshared
            (pool (journals_of stored s))
            tt
            (host.iou_run (chains (pool (journals_of stored s))) tt)
        → Wp Ok Any
            (λ u. EachAgrees siphash24 jenkins_hash64 z iou_async memory E (journals_of stored s))
            (jio_verify_hashed_objects siphash24 jenkins_hash64 z iou_async memory host s)
    unfolding jio_verify_hashed_objects
    jio_verify_hashed_objects-EachAgrees Ok s w st d =
        let js = journals_of stored s in
        subst (Wp Ok Any (λ u. EachAgrees siphash24 jenkins_hash64 z iou_async memory E js))
          (λ i. launch closure s >>= λ ts. bind_done (host.iou_run ts tt) i)
          (launch-Comes unshared unshared_commute
            (Refused siphash24 jenkins_hash64 z iou_async memory E js) host.iou_run Ok closure s
            (pool js) (promised siphash24 jenkins_hash64 z iou_async memory E js) tt _ done w
            (tasks_of-each stored closure chain
                (λ l fd i. alone (
                  per_journal siphash24 jenkins_hash64 z iou_async host.byte_order
                    (sym (st.fuels l fd) i) (sym (st.read l fd).it i) memory))
                (length (visible s.second)) 0 s.opens
              ∙ chains-each js)
            (tasks-PromiseAll siphash24 jenkins_hash64 z iou_async memory E host.byte_order js
              (Refused siphash24 jenkins_hash64 z iou_async memory E js) (λ err f. f))
            d λ u c. promised-EachAgrees siphash24 jenkins_hash64 z iou_async memory E js u c)
