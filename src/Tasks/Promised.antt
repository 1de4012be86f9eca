-- ===== src/Tasks/Promised.antt =====
-- What a task will do to the totals, where that depends on what it is replied: a predicate on the
-- list of its changes.
use jio.Base.{ℕ, ◌≡◌, refl, ap, ◌∙◌, List, [], ◌∷◌}
use jio.Io.{Call, Reply, Step, done, fail, fault, out_of_fuel, call}
use jio.Io.Wp.{Wp}
use jio.Tasks.{
  Task, ended, failed, faulted, exhausted, waiting, update, lift, Pool, apply_all, Turn, replied,
  updated, Moves, here, later, AllEnded,
}

-- The task never faults; it makes changes that satisfy `Q` and ends, or fails as `E`.
abbrev pub Promises :
    {U : Type 0} → (Call → Reply → Type 0) → (ℕ → Type 0) → (List U → Type 0) → Task U → Type 0
Promises Ok E Q ended = Q []
Promises Ok E Q (failed e) = E e
Promises Ok E Q faulted = ⊥
Promises Ok E Q exhausted = ⊥
Promises Ok E Q (waiting c k) = (r : Reply) → Ok c r → Promises Ok E Q (k r)
Promises Ok E Q (update u t) = Promises Ok E (λ us. Q (u ∷ us)) t

pub Promises-lift {ℓ} :
    {A : Type ℓ} {U : Type 0} (Ok : Call → Reply → Type 0) (E : ℕ → Type 0) (P : A → Type 0)
    (m : Step A) (f : A → Task U) (Q : List U → Type 0)
    → Wp Ok E P m
    → ((a : A) → P a → Promises Ok E Q (f a))
    → Promises Ok E Q (lift m f)
Promises-lift Ok E P (done a) f Q h k = k a h
Promises-lift Ok E P (fail e) f Q h k = h
Promises-lift Ok E P fault f Q h k = h
Promises-lift Ok E P out_of_fuel f Q h k = h
Promises-lift Ok E P (call c g) f Q h k = λ r o. Promises-lift Ok E P (g r) f Q (h r o) k

pub Promises-mono :
    {U : Type 0} (Ok : Call → Reply → Type 0) (E F : ℕ → Type 0) (P Q : List U → Type 0)
    (t : Task U)
    → Promises Ok E P t
    → ((e : ℕ) → E e → F e)
    → ((us : List U) → P us → Q us)
    → Promises Ok F Q t
Promises-mono Ok E F P Q ended h k l = l [] h
Promises-mono Ok E F P Q (failed e) h k l = k e h
Promises-mono Ok E F P Q faulted h k l = h
Promises-mono Ok E F P Q exhausted h k l = h
Promises-mono Ok E F P Q (waiting c g) h k l = λ r o. Promises-mono Ok E F P Q (g r) (h r o) k l
Promises-mono Ok E F P Q (update u t) h k l =
    Promises-mono Ok E F (λ us. P (u ∷ us)) (λ us. Q (u ∷ us)) t h k (λ us. l (u ∷ us))

-- The world replies to every call.
abbrev pub IsSerial : (Call → Reply → Type 0) → Type 0
IsSerial Ok = (c : Call) → (r : Reply) × Ok c r

-- The same for every task of a pool, each with such a world.
abbrev pub PromiseAll : {U : Type 0} → (ℕ → Type 0) → List (List U → Type 0) → Pool U → Type 0
PromiseAll E [] [] = Unit
PromiseAll E (Q ∷ Qs) ((Ok, t) ∷ rest) = Promises Ok E Q t × IsSerial Ok × PromiseAll E Qs rest
PromiseAll E _ _ = ⊥

-- Each task's changes are as it promised.
abbrev pub AreKept : {U : Type 0} → List (List U → Type 0) → List (List U) → Type 0
AreKept [] [] = Unit
AreKept (Q ∷ Qs) (us ∷ uss) = Q us × AreKept Qs uss
AreKept _ _ = ⊥

-- The totals behind the changes of all tasks, made one task after another.
abbrev pub settle : {U S : Type 0} → (U → S → S) → List (List U) → S → S
settle apply [] s = s
settle apply (us ∷ uss) s = settle apply uss (apply_all apply us s)

module _ {U S : Type 0} (apply : U → S → S)
    (commute : (u v : U) (s : S) → apply u (apply v s) ≡ apply v (apply u s)) (E : ℕ → Type 0) where
  apply-apply_all :
      (u : U) (us : List U) (s : S)
      → apply_all apply us (apply u s) ≡ apply u (apply_all apply us s)
  apply-apply_all u [] s = refl
  apply-apply_all u (v ∷ us) s =
      ap (apply_all apply us) (commute v u s) ∙ apply-apply_all u us (apply v s)

  -- A function of the totals that may be applied before or after any change.
  abbrev Commutes : (S → S) → Type 0
  Commutes f = (u : U) (s : S) → f (apply u s) ≡ apply u (f s)

  -- From the totals `s'` the changes that `Q'` allows lead where changes that `Q` allows lead from
  -- `s`; and the same for the changes of all tasks.
  abbrev Leads : (List U → Type 0) → S → (List U → Type 0) → S → Type 0
  Leads Q' s' Q s =
      (us' : List U)
      → Q' us'
      → (us : List U) × Q us
        × ((f : S → S) → Commutes f → apply_all apply us' (f s') ≡ apply_all apply us (f s))

  abbrev LeadAll : List (List U → Type 0) → S → List (List U → Type 0) → S → Type 0
  LeadAll Qs' s' Qs s =
      (uss' : List (List U))
      → AreKept Qs' uss'
      → (uss : List (List U)) × AreKept Qs uss
        × ((f : S → S) → Commutes f → settle apply uss' (f s') ≡ settle apply uss (f s))

  LeadAll-here :
      (Q Q' : List U → Type 0) (Qs : List (List U → Type 0)) {s s' : S}
      → Leads Q' s' Q s
      → LeadAll (Q' ∷ Qs) s' (Q ∷ Qs) s
  LeadAll-here Q Q' Qs leads [] k = absurd k
  LeadAll-here Q Q' Qs leads (us' ∷ uss) (q, qs) =
      let (us, q', same) = leads us' q in
      (us ∷ uss, (q', qs), λ f c. ap (settle apply uss) (same f c))

  LeadAll-later :
      (Q : List U → Type 0) (Qs Qs' : List (List U → Type 0)) {s s' : S}
      → LeadAll Qs' s' Qs s
      → LeadAll (Q ∷ Qs') s' (Q ∷ Qs) s
  LeadAll-later Q Qs Qs' leads [] k = absurd k
  LeadAll-later Q Qs Qs' leads (us ∷ uss') (q, qs) =
      let (uss, qs', same) = leads uss' qs in
      (
        us ∷ uss,
        (q, qs'),
        λ f c.
            same (λ s. apply_all apply us (f s))
              (λ u s. ap (apply_all apply us) (c u s) ∙ apply-apply_all u us (f s)),
      )

  -- What a turn of a task leaves of its promise.
  Turn-Promises :
      (Ok : Call → Reply → Type 0) (Q : List U → Type 0) {t t' : Task U} {s s' : S}
      → Turn apply Ok t s t' s'
      → Promises Ok E Q t
      → (Q' : List U → Type 0) × Promises Ok E Q' t' × Leads Q' s' Q s
  Turn-Promises Ok Q (replied r ok) h = (Q, h r ok, λ us' q. (us', q, λ f c. refl))
  Turn-Promises Ok Q (updated {u = u} {s = s}) h =
      ((λ us. Q (u ∷ us)), h, λ us' q. (u ∷ us', q, λ f c. ap (apply_all apply us') (c u s)))

  Moves-PromiseAll :
      (Qs : List (List U → Type 0)) {p p' : Pool U} {s s' : S}
      → Moves apply p s p' s'
      → PromiseAll E Qs p
      → (Qs' : List (List U → Type 0)) × PromiseAll E Qs' p' × LeadAll Qs' s' Qs s
  Moves-PromiseAll [] (here t) h = absurd h
  Moves-PromiseAll [] (later m) h = absurd h
  Moves-PromiseAll (Q ∷ Qs) (here {Ok = Ok} t) (h, serial, hs) =
      let (Q', h', leads) = Turn-Promises Ok Q t h in
      (Q' ∷ Qs, (h', serial, hs), LeadAll-here Q Q' Qs leads)
  Moves-PromiseAll (Q ∷ Qs) (later m) (h, serial, hs) =
      let (Qs', hs', leads) = Moves-PromiseAll Qs m hs in
      (Q ∷ Qs', (h, serial, hs'), LeadAll-later Q Qs Qs' leads)

  -- What the tasks of the pool come to, begun at `s`: changes that were promised.
  unfoldable pub Comes : List (List U → Type 0) → S → S → Type 0
  Comes Qs s end = (uss : List (List U)) × AreKept Qs uss × (end ≡ settle apply uss s)

  -- A turn leaves promises that come to nothing else.
  pub Moves-Comes :
      (Qs : List (List U → Type 0)) {p p' : Pool U} {s s' : S}
      → Moves apply p s p' s'
      → PromiseAll E Qs p
      → (Qs' : List (List U → Type 0)) × PromiseAll E Qs' p'
        × ((end : S) → Comes Qs' s' end → Comes Qs s end)
  unfolding Comes
  Moves-Comes Qs m h =
      let (Qs', h', kept) = Moves-PromiseAll Qs m h in
      (
        Qs',
        h',
        λ end (uss', k, e).
            let (uss, k', same) = kept uss' k in (uss, k', e ∙ same (λ s. s) (λ u s. refl)),
      )

  -- When all tasks have ended they have made all of their changes.
  pub AllEnded-Comes :
      (Qs : List (List U → Type 0)) (p : Pool U) (s : S)
      → PromiseAll E Qs p
      → AllEnded p
      → Comes Qs s s
  unfolding Comes
  AllEnded-Comes [] [] s h a = ([], tt, refl)
  AllEnded-Comes [] (x ∷ p) s h a = absurd h
  AllEnded-Comes (Q ∷ Qs) [] s h a = absurd h
  AllEnded-Comes (Q ∷ Qs) ((Ok, ended) ∷ p) s (h, serial, hs) a =
      let (uss, k, e) = AllEnded-Comes Qs p s hs a in ([] ∷ uss, (h, k), e)
  AllEnded-Comes (Q ∷ Qs) ((Ok, failed e) ∷ p) s h a = absurd a
  AllEnded-Comes (Q ∷ Qs) ((Ok, faulted) ∷ p) s h a = absurd a
  AllEnded-Comes (Q ∷ Qs) ((Ok, exhausted) ∷ p) s h a = absurd a
  AllEnded-Comes (Q ∷ Qs) ((Ok, waiting c k) ∷ p) s h a = absurd a
  AllEnded-Comes (Q ∷ Qs) ((Ok, update u t) ∷ p) s h a = absurd a
