-- ===== src/Tasks/Objects.antt =====
-- The iteration of src/journals.c over a journal's objects as a task, with a closure that makes
-- one change of the totals for each object.
use jio.Base.{
  ℕ, zero, suc, ◌^◌, ◌<◌, ◌≡◌, refl, sym, ◌∙◌, Option, none, some, List, [], ◌∷◌, arith, length,
  add64, align64, ne→==, ◌==◌, if◌then◌else◌,
}
use jio.Cache.World.{World}
use jio.Cache.Window.{IsCache}
use jio.Format.{ObjectHeader, Header}
use jio.Format.Endian.{ByteOrder, AreBytes}
use jio.Objects.{Iter, advance, iter_at, journal_iter_next_object}
use jio.Objects.Loads.{object_at}
use jio.Objects.Walk.{Objects, All, advance-object, Stepped, step_object, step_end}
use jio.Tasks.{Task, ended, faulted, exhausted, update, lift}
use jio.Tasks.Owing.{Owes, Owes-lift}

-- The changes for the objects `hs`, and for the last one again.
abbrev pub changes : {U : Type 0} → (ObjectHeader → U) → ObjectHeader → List ObjectHeader → List U
changes g before [] = g before ∷ []
changes g before (h ∷ hs) = g h ∷ changes g h hs

module _ (e : ByteOrder) {U : Type 0} (closure : Iter → Option U) where
  -- `journal_iter_objects_dispatch` behind each step: the closure's change, or none for a fault,
  -- and the next step.
  unfoldable pub iter_objects : ℕ → Header → Iter → Task U
  iter_objects zero h it = exhausted
  iter_objects (suc fuel) h it = lift (journal_iter_next_object e h it) λ it'.
      let rest = iter_objects fuel h it' in
      elim (closure it') [
        | none ↦ faulted
        | some u ↦ update u (if it'.offset == 0 then ended else rest)
      ]

  -- `journal_iter_objects`.
  unfoldable pub journal_iter_objects : ℕ → Header → Iter → Task U
  journal_iter_objects fuel h it = iter_objects fuel h (record it { offset = 0 })

  module _ (file : List ℕ) (w : World file) (small : length file < 2 ^ 64) (bytes : AreBytes file)
      (header : Header) (g : ObjectHeader → U) (Q : ObjectHeader → Type 0)
      (total : (it : Iter) → Q it.object → closure it ≡ some (g it.object)) where
    iter_objects-Owes :
        (fuel o : ℕ) (hs : List ObjectHeader) (it : Iter)
        → length hs < fuel
        → advance header it.offset it.object.size ≡ o
        → Objects file header.tail_object_offset o hs
        → All Q hs
        → Q it.object
        → IsCache file it.journal
        → Owes w.Ok w.E (changes g it.object hs) (iter_objects fuel header it)
    unfolding iter_objects journal_iter_next_object
    iter_objects-Owes zero o hs it lt a objs all q c = absurd (omega arith)
    iter_objects-Owes (suc fuel) o [] it lt a objs all q c =
        rw (a, step_end file w small bytes e header o it objs, total (record it { offset = 0 }) q)
          ([], refl, refl)
    iter_objects-Owes (suc fuel) o (h ∷ hs) it lt a (nz, le, at, pos, inside, rest) all q c = rw a (
        Owes-lift w.Ok w.E (Stepped file w small bytes e header o (object_at file o))
          (iter_at e header o it) _ _ (step_object file w small bytes e header o it le inside c)
          λ it' (eo, eh, c').
            let same : it'.object ≡ h = eh ∙ at in
            let o' = add64 o (align64 h.size) in
            let moved : advance header it'.offset it'.object.size ≡ o' =
              (λ i. advance header (eo i) (same i).size) ∙ advance-object header o h.size nz pos in
            let q' : Q it'.object = rw same all.0 in
            rw (total it' q', ne→== it'.offset 0 (λ p. nz (sym eo ∙ p)))
              (
                changes g it'.object hs,
                sym (λ i. g (same i) ∷ changes g (same i) hs),
                iter_objects-Owes fuel o' hs it' (omega arith) moved rest all.1 q' c',
              ))

    -- Over a file of objects whose headers satisfy `Q`, for which the closure makes a change and
    -- does not fault, given a step more than there are objects: the task makes the changes for
    -- the objects in order, and the last one's again, and ends, or fails as the world does.
    pub journal_iter_objects-Owes :
        (fuel : ℕ) (hs : List ObjectHeader) (it : Iter)
        → length hs < fuel
        → Objects file header.tail_object_offset header.header_size hs
        → All Q hs
        → Q it.object
        → IsCache file it.journal
        → Owes w.Ok w.E (changes g it.object hs) (journal_iter_objects fuel header it)
    unfolding journal_iter_objects advance
    journal_iter_objects-Owes fuel hs it lt objs all q c =
        iter_objects-Owes fuel header.header_size hs (record it { offset = 0 }) lt refl objs all q c
