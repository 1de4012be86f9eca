-- ===== src/Io/Obeys.antt =====
-- What a chain of calls asks for, and its result, whatever it is replied.
use jio.Base.{Bool, true, false}
use jio.Io.{Call, Reply, Step, done, fail, fault, out_of_fuel, call, ◌>>=◌, allocated, assert}

-- Every call satisfies `C`, and a normal end `P`, also under replies that no kernel gives.
abbrev pub Obeys {ℓ} : {A : Type ℓ} → (Call → Type 0) → (A → Type 0) → Step A → Type 0
Obeys C P (done a) = P a
Obeys C P (fail e) = Unit
Obeys C P fault = Unit
Obeys C P out_of_fuel = Unit
Obeys C P (call c k) = C c × ((r : Reply) → Obeys C P (k r))

abbrev pub Anything {ℓ} : {A : Type ℓ} → A → Type 0
Anything a = Unit {0}

module _ {ℓ} {A : Type ℓ} (C : Call → Type 0) where
  pub Obeys-bind {κ} :
      {B : Type κ} (P : A → Type 0) (Q : B → Type 0) (m : Step A) (f : A → Step B)
      → Obeys C P m
      → ((a : A) → P a → Obeys C Q (f a))
      → Obeys C Q (m >>= f)
  Obeys-bind P Q (done a) f h k = k a h
  Obeys-bind P Q (fail e) f h k = tt
  Obeys-bind P Q fault f h k = tt
  Obeys-bind P Q out_of_fuel f h k = tt
  Obeys-bind P Q (call c g) f (asks, h) k = (asks, λ r. Obeys-bind P Q (g r) f (h r) k)

  pub allocated-Obeys :
      (P : A → Type 0) (r : Reply) (m : Step A) → Obeys C P m → Obeys C P (allocated r m)
  allocated-Obeys P (Reply.ok _ _) m h = h
  allocated-Obeys P (Reply.error _) m h = tt

  pub assert-Obeys : (P : A → Type 0) (b : Bool) (m : Step A) → Obeys C P m → Obeys C P (assert b m)
  assert-Obeys P true m h = h
  assert-Obeys P false m h = tt
