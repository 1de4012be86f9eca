-- ===== src/Io/Yields.antt =====
-- What holds of the result of a chain of calls, where it ends well.
use jio.Base.{ℕ}
use jio.Io.{Call, Reply, Step, done, fail, fault, out_of_fuel, call, allocated}
use jio.Io.Wp.{Wp}

-- A normal end satisfies `P`, under every reply that the world may give.
abbrev pub Yields {ℓ} : {A : Type ℓ} → (Call → Reply → Type 0) → (A → Type 0) → Step A → Type 0
Yields Ok P (done a) = P a
Yields Ok P (fail e) = Unit
Yields Ok P fault = Unit
Yields Ok P out_of_fuel = Unit
Yields Ok P (call c k) = (r : Reply) → Ok c r → Yields Ok P (k r)

pub Wp-Yields {ℓ} :
    {A : Type ℓ} (Ok : Call → Reply → Type 0) (E : ℕ → Type 0) (P Q : A → Type 0) (m : Step A)
    → Wp Ok E P m
    → Yields Ok Q m
    → Wp Ok E (λ a. P a × Q a) m
Wp-Yields Ok E P Q (done a) h k = (h, k)
Wp-Yields Ok E P Q (fail e) h k = h
Wp-Yields Ok E P Q fault h k = h
Wp-Yields Ok E P Q out_of_fuel h k = h
Wp-Yields Ok E P Q (call c g) h k = λ r o. Wp-Yields Ok E P Q (g r) (h r o) (k r o)

pub allocated-Yields {ℓ} :
    {A : Type ℓ} (Ok : Call → Reply → Type 0) (P : A → Type 0) (r : Reply) (m : Step A)
    → Yields Ok P m
    → Yields Ok P (allocated r m)
allocated-Yields Ok P (Reply.ok _ _) m h = h
allocated-Yields Ok P (Reply.error _) m h = tt
