-- ===== src/Tasks/Readable.antt =====
-- A journal that a task can read: its file, what is assumed of it and of the replies about it.
use jio.Base.{ℕ, suc, ◌+◌, ◌^◌, ◌≤◌, ◌<◌, ◌≡◌, List, [], ◌∷◌, length}
use jio.Io.{Call, Reply}
use jio.Cache.World.{World}
use jio.Cache.Window.{IsCache}
use jio.Format.{ObjectHeader}
use jio.Format.Endian.{AreBytes}
use jio.Objects.{Iter}
use jio.Objects.Loads.{header_at}
use jio.Objects.Walk.{Objects, All}
use jio.Tasks.{Task, ended, failed, faulted, exhausted, waiting, update}
use jio.Tasks.Promised.{IsSerial}
use jio.Tasks.Owing.{Owes}

-- A journal open as `fd`, which `it` begins at. The world answers every call, `fstat` tells the
-- file's size, and the world's errors are of `E`.
pub record Answered (E : ℕ → Type 0) : Type 1 where
  pub file : List ℕ
  pub world : World file
  pub fd : ℕ
  pub it : Iter
  pub serial : IsSerial world.Ok
  pub sizes : (n : ℕ) (bs : List ℕ) → world.Ok (Call.fstat fd) (Reply.ok n bs) → n ≡ length file
  pub no_size : (err : ℕ) → world.Ok (Call.fstat fd) (Reply.error err) → world.E err
  pub errors : (err : ℕ) → world.E err → E err
  pub small : length file < 2 ^ 64
  pub big : 256 ≤ length file
  pub bytes : AreBytes file
  pub cache : IsCache file it.journal

-- Such a journal of objects `hs` that satisfy `Q`, which are fewer than `fuel`.
pub record Readable (Q : ObjectHeader → Type 0) (E : ℕ → Type 0) : Type 1 where
  pub base : Answered E
  pub fuel : ℕ
  pub hs : List ObjectHeader
  pub enough : length hs < fuel
  pub objects :
      Objects base.file
        (header_at base.file).tail_object_offset
        (header_at base.file).header_size
        hs
  pub all : All Q hs
  pub first : Q (base.it).object

-- The sum of a number of each journal.
abbrev pub sum_of {ℓ} : {A : Type ℓ} → (A → ℕ) → List A → ℕ
sum_of f [] = 0
sum_of f (x ∷ xs) = f x + sum_of f xs

abbrev pub number_of {ℓ} : {A : Type ℓ} → List A → ℕ
number_of [] = 0
number_of (x ∷ xs) = suc (number_of xs)

pub Owes-errors :
    {U : Type 0} (Ok : Call → Reply → Type 0) (E F : ℕ → Type 0) (us : List U) (t : Task U)
    → Owes Ok E us t
    → ((e : ℕ) → E e → F e)
    → Owes Ok F us t
Owes-errors Ok E F us ended h k = h
Owes-errors Ok E F us (failed e) h k = k e h
Owes-errors Ok E F us faulted h k = h
Owes-errors Ok E F us exhausted h k = h
Owes-errors Ok E F us (waiting c g) h k = λ r o. Owes-errors Ok E F us (g r) (h r o) k
Owes-errors Ok E F us (update u t) (rest, e, h) k = (rest, e, Owes-errors Ok E F rest t h k)
