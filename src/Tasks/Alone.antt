-- ===== src/Tasks/Alone.antt =====
-- A task that runs without others is a chain of calls.
use jio.Base.{◌≡◌, refl}
use jio.Io.{Step, done, fail, fault, out_of_fuel, call, ◌>>=◌}
use jio.Tasks.{Task, ended, failed, faulted, exhausted, waiting, update, lift}

module _ {U S : Type 0} (apply : U → S → S) where
  -- The calls of a task that no other interrupts, and the totals behind it.
  abbrev pub alone : Task U → S → Step S
  alone ended s = done s
  alone (failed e) s = fail e
  alone faulted s = fault
  alone exhausted s = out_of_fuel
  alone (waiting c k) s = call c (λ r. alone (k r) s)
  alone (update u t) s = alone t (apply u s)

  pub alone-lift :
      {A : Type 0} (m : Step A) (f : A → Task U) (s : S)
      → alone (lift m f) s ≡ (m >>= λ a. alone (f a) s)
  alone-lift (done a) f s = refl
  alone-lift (fail e) f s = refl
  alone-lift fault f s = refl
  alone-lift out_of_fuel f s = refl
  alone-lift (call c k) f s = λ i. call c (λ r. alone-lift (k r) f s i)

pub bind_assoc :
    {A B C : Type 0} (m : Step A) (f : A → Step B) (g : B → Step C)
    → (m >>= f >>= g) ≡ (m >>= λ a. f a >>= g)
bind_assoc (done a) f g = refl
bind_assoc (fail e) f g = refl
bind_assoc fault f g = refl
bind_assoc out_of_fuel f g = refl
bind_assoc (call c k) f g = λ i. call c (λ r. bind_assoc (k r) f g i)

pub bind_eq :
    {A B : Type 0} (m : Step A) (f g : A → Step B) → ((a : A) → f a ≡ g a) → (m >>= f) ≡ (m >>= g)
bind_eq m f g h = λ i. m >>= λ a. h a i

pub bind_done : {A : Type 0} (m : Step A) → (m >>= done) ≡ m
bind_done (done a) = refl
bind_done (fail e) = refl
bind_done fault = refl
bind_done out_of_fuel = refl
bind_done (call c k) = λ i. call c (λ r. bind_done (k r) i)
