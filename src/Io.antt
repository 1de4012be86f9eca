-- ===== src/Io.antt =====
-- The asynchronous calls of the program, made through iou (an io_uring wrapper) and thunk, two
-- libraries that are not in the repository. A chain of closures is a tree of calls: each call
-- is answered by the world, and the rest of the chain goes on from the reply. The reply's
-- number and bytes are whatever the world says; what is assumed of it is a hypothesis.
pub mod Wp
pub mod Yields
pub mod Obeys
use jio.Base.{ℕ, List, [], Bool, true, false, Option, none, some}

pub data Call : Type 0 where
  -- `iou_op_new`: fails when it returns NULL
  op_new : Call
  -- `malloc`, `calloc` of that many bytes: fails when it returns NULL
  malloc : ℕ → Call
  -- `io_uring_prep_read` and `io_uring_prep_read_fixed`: file index, offset, length
  pread : ℕ → ℕ → ℕ → Call
  pread_fixed : ℕ → ℕ → ℕ → ℕ → Call
  -- `io_uring_prep_openat`: directory, path, flags; `close`; `fdopendir`; `dup`
  openat : ℕ → List ℕ → ℕ → Call
  close : ℕ → Call
  fdopendir : ℕ → Call
  dup : ℕ → Call
  -- `iou_resize`, `io_uring_register_files` and `io_uring_register_buffers`, by their counts
  resize : ℕ → Call
  register_files : ℕ → Call
  register_buffers : ℕ → Call
  fstat : ℕ → Call
  ftruncate : ℕ → ℕ → Call
  -- `ZSTD_createDCtx`: fails when it returns NULL
  create_context : Call
  -- `fopen` for writing, by name
  fopen : List ℕ → Call

-- A result that is not negative (of `malloc`, the usable size) with the bytes that came with it, or the error `-e`.
pub data Reply : Type 0 where
  ok : ℕ → List ℕ → Reply
  error : ℕ → Reply

-- `fail e` is a callback that returns `-e`; `fault` is a failed assertion or undefined behaviour.
pub data Step {ℓ} (A : Type ℓ) : Type ℓ where
  done : A → Step A
  fail : ℕ → Step A
  fault : Step A
  out_of_fuel : Step A
  call : Call → (Reply → Step A) → Step A

infixl 5 ◌>>=◌
abbrev pub ◌>>=◌ {ℓ κ} : {A : Type ℓ} {B : Type κ} → Step A → (A → Step B) → Step B
done a >>= f = f a
fail e >>= f = fail e
fault >>= f = fault
out_of_fuel >>= f = out_of_fuel
call c k >>= f = call c (λ r. k r >>= f)

-- The same chain against a world that answers every call by a function.
abbrev pub run {ℓ} : {A : Type ℓ} → (Call → Reply) → Step A → Step A
run world (done a) = done a
run world (fail e) = fail e
run world fault = fault
run world out_of_fuel = out_of_fuel
run world (call c k) = run world (k (world c))

-- `if (!p) return -ENOMEM;` after `iou_op_new` or `malloc`.
abbrev pub enomem : ℕ
enomem = 12

abbrev pub einval : ℕ
einval = 22

abbrev pub allocated {ℓ} : {A : Type ℓ} → Reply → Step A → Step A
allocated (ok _ _) next = next
allocated (error _) next = fail enomem

-- `assert(b)`.
abbrev pub assert {ℓ} : {A : Type ℓ} → Bool → Step A → Step A
assert true next = next
assert false next = fault

-- A value that the code takes for granted: its absence is a fault.
abbrev pub or_fault {ℓ} : {A : Type ℓ} → Option A → Step A
or_fault none = fault
or_fault (some a) = done a
