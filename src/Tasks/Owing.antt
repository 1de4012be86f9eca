-- ===== src/Tasks/Owing.antt =====
-- What a task will still do to the totals, whatever it is replied.
use jio.Base.{ℕ, ◌≡◌, refl, ap, ◌∙◌, List, [], ◌∷◌}
use jio.Io.{Call, Reply, Step, done, fail, fault, out_of_fuel, call}
use jio.Io.Wp.{Wp}
use jio.Tasks.{Task, ended, failed, faulted, exhausted, waiting, update, lift, Pool}
use jio.Tasks.Promised.{Promises, Promises-mono, IsSerial, PromiseAll, AreKept}

-- The task never faults; it changes the totals by `us` in this order and ends, or fails as `E`.
abbrev pub Owes : {U : Type 0} → (Call → Reply → Type 0) → (ℕ → Type 0) → List U → Task U → Type 0
Owes Ok E us ended = us ≡ []
Owes Ok E us (failed e) = E e
Owes Ok E us faulted = ⊥
Owes Ok E us exhausted = ⊥
Owes Ok E us (waiting c k) = (r : Reply) → Ok c r → Owes Ok E us (k r)
Owes {U = U} Ok E us (update u t) = (rest : List U) × (us ≡ u ∷ rest) × Owes Ok E rest t

pub Owes-lift {ℓ} :
    {A : Type ℓ} {U : Type 0} (Ok : Call → Reply → Type 0) (E : ℕ → Type 0) (P : A → Type 0)
    (m : Step A) (f : A → Task U) (us : List U)
    → Wp Ok E P m
    → ((a : A) → P a → Owes Ok E us (f a))
    → Owes Ok E us (lift m f)
Owes-lift Ok E P (done a) f us h k = k a h
Owes-lift Ok E P (fail e) f us h k = h
Owes-lift Ok E P fault f us h k = h
Owes-lift Ok E P out_of_fuel f us h k = h
Owes-lift Ok E P (call c g) f us h k = λ r o. Owes-lift Ok E P (g r) f us (h r o) k

-- Such a task promises just these changes.
pub Owes-Promises :
    {U : Type 0} (Ok : Call → Reply → Type 0) (E : ℕ → Type 0) (us : List U) (t : Task U)
    → Owes Ok E us t
    → Promises Ok E (λ xs. us ≡ xs) t
Owes-Promises Ok E us ended h = h
Owes-Promises Ok E us (failed e) h = h
Owes-Promises Ok E us faulted h = h
Owes-Promises Ok E us exhausted h = h
Owes-Promises Ok E us (waiting c k) h = λ r o. Owes-Promises Ok E us (k r) (h r o)
Owes-Promises Ok E us (update u t) (rest, e, h) =
    Promises-mono Ok E E (λ xs. rest ≡ xs) (λ xs. us ≡ u ∷ xs) t (Owes-Promises Ok E rest t h)
      (λ err f. f) (λ xs same. e ∙ ap (λ (ys : List _). u ∷ ys) same)

-- The same for every task of a pool, each with a world that replies to every call.
abbrev pub OweAll : {U : Type 0} → (ℕ → Type 0) → List (List U) → Pool U → Type 0
OweAll E [] [] = Unit
OweAll E (us ∷ uss) ((Ok, t) ∷ rest) = Owes Ok E us t × IsSerial Ok × OweAll E uss rest
OweAll E _ _ = ⊥

-- The promises of tasks that owe these changes.
abbrev pub just : {U : Type 0} → List (List U) → List (List U → Type 0)
just [] = []
just (us ∷ uss) = (λ xs. us ≡ xs) ∷ just uss

pub OweAll-PromiseAll :
    {U : Type 0} (E : ℕ → Type 0) (uss : List (List U)) (p : Pool U)
    → OweAll E uss p
    → PromiseAll E (just uss) p
OweAll-PromiseAll E [] [] h = h
OweAll-PromiseAll E [] (x ∷ p) h = h
OweAll-PromiseAll E (us ∷ uss) [] h = h
OweAll-PromiseAll E (us ∷ uss) ((Ok, t) ∷ p) (h, serial, hs) =
    (Owes-Promises Ok E us t h, serial, OweAll-PromiseAll E uss p hs)

pub just-AreKept : {U : Type 0} (uss xss : List (List U)) → AreKept (just uss) xss → uss ≡ xss
just-AreKept [] [] k = refl
just-AreKept [] (xs ∷ xss) k = absurd k
just-AreKept (us ∷ uss) [] k = absurd k
just-AreKept (us ∷ uss) (xs ∷ xss) (e, k) = λ i. e i ∷ just-AreKept uss xss k i
