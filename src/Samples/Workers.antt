-- ===== src/Samples/Workers.antt =====
-- An `iou_async` that runs its work at once: one that heeds the result of the work, and one that
-- does not.
use jio.Base.{ℕ}
use jio.Io.{done, fail, fault, out_of_fuel, call, ◌>>=◌}
use jio.Io.Wp.{Wp-bind}
use jio.Verify.{Verified, Async}
use jio.Verify.Workers.{Dispatches, AsksNothing}

abbrev pub unverified : Verified
unverified = record {
  n_field_objects = 0;
  n_data_objects = 0;
  n_field_bytes = 0;
  n_data_bytes = 0;
  object_usable = 0;
  decompressed_usable = 0;
}

abbrev pub heeding : Async
heeding work closure = work >>= closure

pub heeding-Dispatches : (Q : ℕ → Type 0) → Dispatches heeding Q
heeding-Dispatches Q Ok F P work closure into ends go =
    Wp-bind Ok F (λ s. Unit {0}) P work closure ends λ s u. go s

abbrev pub heedless : Async
heedless (done s) closure = closure s
heedless (fail e) closure = closure unverified
heedless fault closure = fault
heedless out_of_fuel closure = out_of_fuel
heedless (call c k) closure = call c λ r. heedless (k r) closure

pub heedless-Dispatches : (Q : ℕ → Type 0) → Dispatches heedless Q
heedless-Dispatches Q Ok F P (done s) closure into ends go = go s
heedless-Dispatches Q Ok F P (fail e) closure into ends go = go unverified
heedless-Dispatches Q Ok F P fault closure into ends go = ends
heedless-Dispatches Q Ok F P out_of_fuel closure into ends go = ends
heedless-Dispatches Q Ok F P (call c k) closure into ends go =
    λ r ok. heedless-Dispatches Q Ok F P (k r) closure into (ends r ok) go

pub heedless-AsksNothing : AsksNothing heedless
heedless-AsksNothing C P (done s) closure work go = go s
heedless-AsksNothing C P (fail e) closure work go = go unverified
heedless-AsksNothing C P fault closure work go = tt
heedless-AsksNothing C P out_of_fuel closure work go = tt
heedless-AsksNothing C P (call c k) closure (asks, work) go =
    (asks, λ r. heedless-AsksNothing C P (k r) closure (work r) go)
