-- ===== src/Tasks/Reached.antt =====
-- What a run of `iou_run` comes to: some schedule of the tasks, up to the end of all of them or to
-- the failure of one.
use mathlib.Core.Path.{subst}
use jio.Base.{ℕ, ◌≡◌, List, [], ◌∷◌}
use jio.Io.{Call, Reply, Step, done, fail}
use jio.Io.Wp.{Wp}
use jio.Tasks.{ended, failed, faulted, exhausted, waiting, update, Pool, Moves, AllEnded, OneFailed}
use jio.Tasks.Promised.{PromiseAll, Comes, Moves-Comes, AllEnded-Comes}

module _ {U S : Type 0} (apply : U → S → S) where
  -- Turns are taken one after another.
  pub data Reaches : Pool U → S → Pool U → S → Type 1 where
    still : {p : Pool U} {s : S} → Reaches p s p s
    turn :
        {p p' q : Pool U} {s s' t : S} → Moves apply p s p' s' → Reaches p' s' q t → Reaches p s q t

  pub Reaches-trans :
      {p q r : Pool U} {s t u : S} → Reaches p s q t → Reaches q t r u → Reaches p s r u
  Reaches-trans still k = k
  Reaches-trans (turn m h) k = turn m (Reaches-trans h k)

  -- `iou_run` on the tasks `p` with the totals `s` has returned behind turns of the tasks: the
  -- totals when every task has ended, or the error of one that has failed.
  pub data Drives (p : Pool U) (s : S) : Step S → Type 1 where
    returned : {p' : Pool U} {end : S} → Reaches p s p' end → AllEnded p' → Drives p s (done end)
    refused :
        {p' : Pool U} {end : S} (err : ℕ)
        → Reaches p s p' end
        → OneFailed (λ x. x ≡ err) p'
        → Drives p s (fail err)

  module _ (commute : (u v : U) (s : S) → apply u (apply v s) ≡ apply v (apply u s))
      (E : ℕ → Type 0) where
    -- The promises that a schedule leaves come to nothing else.
    Reaches-Comes :
        (Qs : List (List U → Type 0)) {p p' : Pool U} {s s' : S}
        → Reaches p s p' s'
        → PromiseAll E Qs p
        → (Qs' : List (List U → Type 0)) × PromiseAll E Qs' p'
          × ((end : S) → Comes apply commute E Qs' s' end → Comes apply commute E Qs s end)
    Reaches-Comes Qs still h = (Qs, h, λ end c. c)
    Reaches-Comes Qs (turn m k) h =
        let (Qs1, h1, back) = Moves-Comes apply commute E Qs m h in
        let (Qs2, h2, further) = Reaches-Comes Qs1 k h1 in
        (Qs2, h2, λ end c. back end (further end c))

    OneFailed-errors :
        (Qs : List (List U → Type 0)) (p : Pool U) (err : ℕ)
        → PromiseAll E Qs p
        → OneFailed (λ x. x ≡ err) p
        → E err
    OneFailed-errors [] [] err h f = absurd f
    OneFailed-errors [] (x ∷ p) err h f = absurd h
    OneFailed-errors (Q ∷ Qs) [] err h f = absurd h
    OneFailed-errors (Q ∷ Qs) ((Ok, failed e) ∷ p) err h f = subst E f h.0
    OneFailed-errors (Q ∷ Qs) ((Ok, ended) ∷ p) err (h, serial, hs) f =
        OneFailed-errors Qs p err hs f
    OneFailed-errors (Q ∷ Qs) ((Ok, faulted) ∷ p) err (h, serial, hs) f =
        OneFailed-errors Qs p err hs f
    OneFailed-errors (Q ∷ Qs) ((Ok, exhausted) ∷ p) err (h, serial, hs) f =
        OneFailed-errors Qs p err hs f
    OneFailed-errors (Q ∷ Qs) ((Ok, waiting c k) ∷ p) err (h, serial, hs) f =
        OneFailed-errors Qs p err hs f
    OneFailed-errors (Q ∷ Qs) ((Ok, update u t) ∷ p) err (h, serial, hs) f =
        OneFailed-errors Qs p err hs f

    -- `iou_run` on tasks that keep promises returns totals that these come to, or one's error.
    pub Drives-Comes :
        (Ok : Call → Reply → Type 0) (Qs : List (List U → Type 0)) (p : Pool U) (s : S) (m : Step S)
        → Drives p s m
        → PromiseAll E Qs p
        → Wp Ok E (Comes apply commute E Qs s) m
    Drives-Comes Ok Qs p s _ (returned {p' = p'} {end = end} k all) h =
        let (Qs', h', back) = Reaches-Comes Qs k h in
        back end (AllEnded-Comes apply commute E Qs' p' end h' all)
    Drives-Comes Ok Qs p s _ (refused {p' = p'} err k f) h =
        let (Qs', h', back) = Reaches-Comes Qs k h in OneFailed-errors Qs' p' err h' f
