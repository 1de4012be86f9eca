-- ===== src/Tasks/Fate.antt =====
-- Every schedule of a pool ends.
use mathlib.Core.Path.{subst}
use jio.Base.{ℕ, ◌≡◌, ◌⊎◌, inl, inr, refl, sym, List, [], ◌∷◌}
use jio.Io.{Call, Reply}
use jio.Tasks.{
  Task, ended, failed, faulted, exhausted, waiting, update, Pool, Turn, replied, updated, Moves,
  here, later, Inevitably, now, soon, AllEnded, OneFailed,
}
use jio.Tasks.Promised.{PromiseAll, Comes, Moves-Comes, AllEnded-Comes}

module _ {U S : Type 0} (apply : U → S → S) where
  Inevitably-mono :
      (P Q : Pool U → S → Type 0) {p : Pool U} {s : S}
      → ((q : Pool U) (t : S) → P q t → Q q t)
      → Inevitably apply P p s
      → Inevitably apply Q p s
  Inevitably-mono P Q imply (now h) = now (imply _ _ h)
  Inevitably-mono P Q imply (soon move h) =
      soon move (λ p' s' m. Inevitably-mono P Q imply (h p' s' m))

  -- No schedule of the pool goes on for ever.
  pub data Halts : Pool U → Type 1 where
    halts :
        {p : Pool U} → ((s : S) (p' : Pool U) (s' : S) → Moves apply p s p' s' → Halts p') → Halts p

  -- The task that a turn leaves is a part of the one that took it.
  IsPart : Task U → Task U → Type 0
  IsPart t' (waiting c k) = (r : Reply) × (t' ≡ k r)
  IsPart t' (update u t) = t' ≡ t
  IsPart t' _ = ⊥

  Turn-IsPart :
      (Ok : Call → Reply → Type 0) {t t' : Task U} {s s' : S}
      → Turn apply Ok t s t' s'
      → IsPart t' t
  unfolding IsPart
  Turn-IsPart Ok (replied r ok) = (r, refl)
  Turn-IsPart Ok updated = refl

  Moves-cons :
      (Ok : Call → Reply → Type 0) (t : Task U) (rest : Pool U) {p' : Pool U} {s s' : S}
      → Moves apply ((Ok, t) ∷ rest) s p' s'
      → ((t' : Task U) × IsPart t' t × (p' ≡ (Ok, t') ∷ rest))
        ⊎ ((rest' : Pool U) × Moves apply rest s rest' s' × (p' ≡ (Ok, t) ∷ rest'))
  Moves-cons Ok t rest (here {t' = t'} turn) = inl (t', Turn-IsPart Ok turn, refl)
  Moves-cons Ok t rest (later {rest' = rest'} m) = inr (rest', m, refl)

  -- A pool halts if it does with any part of its first task in place of that task.
  Halts-parts :
      (Ok : Call → Reply → Type 0) (t : Task U)
      → ((t' : Task U) → IsPart t' t → (rest : Pool U) → Halts rest → Halts ((Ok, t') ∷ rest))
      → (rest : Pool U) → Halts rest
      → Halts ((Ok, t) ∷ rest)
  Halts-parts Ok t parts rest (halts h) = halts λ s p' s' m. elim (Moves-cons Ok t rest m) [
    | inl (t', part, e) ↦ subst Halts (sym e) (parts t' part rest (halts h))
    | inr (rest', m', e) ↦ subst Halts (sym e) (Halts-parts Ok t parts rest' (h s rest' s' m'))
  ]

  Halts-cons :
      (Ok : Call → Reply → Type 0) (t : Task U) (rest : Pool U)
      → Halts rest
      → Halts ((Ok, t) ∷ rest)
  unfolding IsPart
  Halts-cons Ok (waiting c k) =
      Halts-parts Ok (waiting c k)
        λ t' (r, e) rest h. subst (λ x. Halts ((Ok, x) ∷ rest)) (sym e) (Halts-cons Ok (k r) rest h)
  Halts-cons Ok (update u t) =
      Halts-parts Ok (update u t)
        λ t' e rest h. subst (λ x. Halts ((Ok, x) ∷ rest)) (sym e) (Halts-cons Ok t rest h)
  Halts-cons Ok ended = Halts-parts Ok ended (λ t' part. absurd part)
  Halts-cons Ok (failed e) = Halts-parts Ok (failed e) (λ t' part. absurd part)
  Halts-cons Ok faulted = Halts-parts Ok faulted (λ t' part. absurd part)
  Halts-cons Ok exhausted = Halts-parts Ok exhausted (λ t' part. absurd part)

  empty_pool : {p' : Pool U} {s s' : S} → Moves apply [] s p' s' → ⊥
  empty_pool m = elim m [ ]

  pub all_halt : (p : Pool U) → Halts p
  all_halt [] = halts (λ s p' s' m. absurd (empty_pool m))
  all_halt ((Ok, t) ∷ rest) = Halts-cons Ok t rest (all_halt rest)

  -- A pool of tasks that keep promises has failed, or has a turn to take, or has ended.
  module _ (E : ℕ → Type 0) where
    Ready : (p : Pool U) → S → Type 1
    Ready p s = (p' : Pool U) × (s' : S) × Moves apply p s p' s'

    ready :
        (Qs : List (List U → Type 0)) (p : Pool U) (s : S)
        → PromiseAll E Qs p
        → OneFailed E p ⊎ (Ready p s ⊎ AllEnded p)
    unfolding Ready
    ready [] [] s h = inr (inr tt)
    ready [] (x ∷ rest) s h = absurd h
    ready (Q ∷ Qs) [] s h = absurd h
    ready (Q ∷ Qs) ((Ok, ended) ∷ rest) s (h, serial, hs) = elim (ready Qs rest s hs) [
      | inl f ↦ inl f
      | inr (inl (p', s', m)) ↦ inr (inl ((Ok, ended) ∷ p', s', later m))
      | inr (inr a) ↦ inr (inr a)
    ]
    ready (Q ∷ Qs) ((Ok, failed e) ∷ rest) s h = inl h.0
    ready (Q ∷ Qs) ((Ok, faulted) ∷ rest) s h = absurd h.0
    ready (Q ∷ Qs) ((Ok, exhausted) ∷ rest) s h = absurd h.0
    ready (Q ∷ Qs) ((Ok, waiting c k) ∷ rest) s (h, serial, hs) =
        let (r, ok) = serial c in inr (inl ((Ok, k r) ∷ rest, s, here (replied r ok)))
    ready (Q ∷ Qs) ((Ok, update u t) ∷ rest) s h =
        inr (inl ((Ok, t) ∷ rest, apply u s, here updated))

    module _ (commute : (u v : U) (s : S) → apply u (apply v s) ≡ apply v (apply u s)) where
      -- A task has failed as `E`, or all have ended with changes of the totals that were promised.
      abbrev HaveCome : List (List U → Type 0) → S → Pool U → S → Type 0
      HaveCome Qs s p end = OneFailed E p ⊎ (AllEnded p × Comes apply commute E Qs s end)

      fate :
          (Qs : List (List U → Type 0)) (p : Pool U) (s : S)
          → Halts p
          → PromiseAll E Qs p
          → Inevitably apply (HaveCome Qs s) p s
      unfolding Ready
      fate Qs p s (halts halt) h = elim (ready Qs p s h) [
        | inl f ↦ now (inl f)
        | inr (inl move) ↦ soon move λ p' s' m.
            let (Qs', h', back) = Moves-Comes apply commute E Qs m h in
            Inevitably-mono (HaveCome Qs' s') (HaveCome Qs s) (λ q end. over Qs' s' q end back)
              (fate Qs' p' s' (halt s p' s' m) h')
        | inr (inr a) ↦ now (inr (a, AllEnded-Comes apply commute E Qs p s h a))
      ]
        where
          over :
              (Qs' : List (List U → Type 0)) (s' : S) (q : Pool U) (end : S)
              → ((x : S) → Comes apply commute E Qs' s' x → Comes apply commute E Qs s x)
              → HaveCome Qs' s' q end
              → HaveCome Qs s q end
          over Qs' s' q end back (inl f) = inl f
          over Qs' s' q end back (inr (a, c)) = inr (a, back end c)

      -- Tasks whose changes of the totals commute, each of which promises its changes and then
      -- ends, or fails: in whatever order they take their turns and whatever they are replied, it
      -- comes to pass that one of them has failed, or that all have ended with totals that such
      -- changes leave one task after another, and so with what follows of these.
      pub promises-Inevitably :
          (Qs : List (List U → Type 0)) (p : Pool U) (s : S) (R : S → Type 0)
          → PromiseAll E Qs p
          → ((end : S) → Comes apply commute E Qs s end → R end)
          → Inevitably apply (λ q end. OneFailed E q ⊎ (AllEnded q × R end)) p s
      promises-Inevitably Qs p s R h follows =
          Inevitably-mono (HaveCome Qs s) (λ q end. OneFailed E q ⊎ (AllEnded q × R end)) over
            (fate Qs p s (all_halt p) h)
        where
          over : (q : Pool U) (end : S) → HaveCome Qs s q end → OneFailed E q ⊎ (AllEnded q × R end)
          over q end (inl f) = inl f
          over q end (inr (a, c)) = inr (a, follows end c)
