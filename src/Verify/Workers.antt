-- ===== src/Verify/Workers.antt =====
-- What `iou_async` of libiou is taken to do for `per_hashed_object`, of
-- src/verify-hashed-objects.c: once the work has completed, with whatever result, the closure is
-- dispatched.
use jio.Base.{ℕ}
use jio.Io.{Call, Reply, Step}
use jio.Io.Wp.{Wp}
use jio.Io.Obeys.{Obeys, Anything}
use jio.Lru.{Journal}
use jio.Verify.{Verified, Async}

-- The work runs as if it were alone. If it comes to an end, the closure goes on from some counters
-- and sizes, or the chain fails: as the work has failed, or with an error of `Q`, of the queueing.
-- Whether the result of the work is heeded is left open.
abbrev pub Dispatches : Async → (ℕ → Type 0) → Type 1
Dispatches iou_async Q =
    (Ok : Call → Reply → Type 0) (F : ℕ → Type 0) (P : Journal × Verified → Type 0)
    (work : Step Verified) (closure : Verified → Step (Journal × Verified))
    → ((err : ℕ) → Q err → F err)
    → Wp Ok F (λ s. Unit {0}) work
    → ((s : Verified) → Wp Ok F P (closure s))
    → Wp Ok F P (iou_async work closure)

-- It asks for nothing but what the work and the closure ask for.
abbrev pub AsksNothing : Async → Type 1
AsksNothing iou_async =
    (C : Call → Type 0) (P : Journal × Verified → Type 0) (work : Step Verified)
    (closure : Verified → Step (Journal × Verified))
    → Obeys C Anything work
    → ((s : Verified) → Obeys C P (closure s))
    → Obeys C P (iou_async work closure)
