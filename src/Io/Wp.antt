-- ===== src/Io/Wp.antt =====
-- What holds of a chain of calls under every reply that the world may give.
use jio.Base.{ℕ, ◌≡◌, refl}
use jio.Io.{Call, Reply, Step, done, fail, fault, out_of_fuel, call, ◌>>=◌, allocated, enomem}

-- The chain ends, it never faults, a normal end satisfies `P`, and an error `E`.
abbrev pub Wp {ℓ} :
    {A : Type ℓ} → (Call → Reply → Type 0) → (ℕ → Type 0) → (A → Type 0) → Step A → Type 0
Wp Ok E P (done a) = P a
Wp Ok E P (fail e) = E e
Wp Ok E P fault = ⊥
Wp Ok E P out_of_fuel = ⊥
Wp Ok E P (call c k) = (r : Reply) → Ok c r → Wp Ok E P (k r)

module _ {ℓ} {A : Type ℓ} (Ok : Call → Reply → Type 0) (E : ℕ → Type 0) where
  pub Wp-bind {κ} :
      {B : Type κ} (P : A → Type 0) (Q : B → Type 0) (m : Step A) (f : A → Step B)
      → Wp Ok E P m
      → ((a : A) → P a → Wp Ok E Q (f a))
      → Wp Ok E Q (m >>= f)
  Wp-bind P Q (done a) f h k = k a h
  Wp-bind P Q (fail e) f h k = h
  Wp-bind P Q fault f h k = h
  Wp-bind P Q out_of_fuel f h k = h
  Wp-bind P Q (call c g) f h k = λ r o. Wp-bind P Q (g r) f (h r o) k

  pub Wp-mono : (P Q : A → Type 0) (m : Step A) → Wp Ok E P m → ((a : A) → P a → Q a) → Wp Ok E Q m
  Wp-mono P Q (done a) h k = k a h
  Wp-mono P Q (fail e) h k = h
  Wp-mono P Q fault h k = h
  Wp-mono P Q out_of_fuel h k = h
  Wp-mono P Q (call c g) h k = λ r o. Wp-mono P Q (g r) (h r o) k

  pub allocated-Wp :
      (P : A → Type 0) (r : Reply) (m : Step A)
      → ((e : ℕ) → r ≡ Reply.error e → E enomem)
      → Wp Ok E P m
      → Wp Ok E P (allocated r m)
  allocated-Wp P (Reply.ok _ _) m failed h = h
  allocated-Wp P (Reply.error e) m failed h = failed e refl

pub Wp-errors {ℓ} :
    {A : Type ℓ} (Ok : Call → Reply → Type 0) (E F : ℕ → Type 0) (P : A → Type 0) (m : Step A)
    → Wp Ok E P m
    → ((e : ℕ) → E e → F e)
    → Wp Ok F P m
Wp-errors Ok E F P (done a) h k = h
Wp-errors Ok E F P (fail e) h k = k e h
Wp-errors Ok E F P fault h k = h
Wp-errors Ok E F P out_of_fuel h k = h
Wp-errors Ok E F P (call c g) h k = λ r o. Wp-errors Ok E F P (g r) (h r o) k

pub Wp-both {ℓ} :
    {A : Type ℓ} (Ok : Call → Reply → Type 0) (E : ℕ → Type 0) (P Q : A → Type 0) (m : Step A)
    → Wp Ok E P m
    → Wp Ok E Q m
    → Wp Ok E (λ a. P a × Q a) m
Wp-both Ok E P Q (done a) h k = (h, k)
Wp-both Ok E P Q (fail e) h k = h
Wp-both Ok E P Q fault h k = h
Wp-both Ok E P Q out_of_fuel h k = h
Wp-both Ok E P Q (call c g) h k = λ r o. Wp-both Ok E P Q (g r) (h r o) (k r o)
