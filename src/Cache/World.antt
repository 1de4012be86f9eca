-- ===== src/Cache/World.antt =====
-- What is assumed of the kernel and the allocator when a file is read: documented behaviour of
-- read(2) through io_uring. An unreliable world may also fail any call.
use jio.Base.{ℕ, ◌+◌, ◌≤◌, ◌<◌, ◌≡◌, ◌⊎◌, List, length, take, drop}
use jio.Io.{Call, Reply, enomem, einval}

-- `n` bytes of the file, at most `l`, from offset `o`.
pub record IsRead (file : List ℕ) (o l n : ℕ) (bs : List ℕ) : Type 0 where
  pub bytes : bs ≡ take n (drop o file)
  pub size : length bs ≡ n
  pub most : n ≤ l

-- The replies that a world gives about one file, and the errors that it may come to.
pub record World (file : List ℕ) : Type 1 where
  pub Ok : Call → Reply → Type 0
  pub E : ℕ → Type 0
  pub reads :
      (i o l n : ℕ) (bs : List ℕ) → Ok (Call.pread i o l) (Reply.ok n bs) → IsRead file o l n bs
  pub reads_fixed :
      (i o l b n : ℕ) (bs : List ℕ)
      → Ok (Call.pread_fixed i o l b) (Reply.ok n bs)
      → IsRead file o l n bs
  -- A read is short only at the end of the file, or EINVAL is among the errors of the world, as
  -- where the length of a range does not fit in an `unsigned`.
  pub short :
      (i o l n : ℕ) (bs : List ℕ)
      → Ok (Call.pread i o l) (Reply.ok n bs)
      → n < l
      → (length file ≤ o + n) ⊎ E einval
  pub short_fixed :
      (i o l b n : ℕ) (bs : List ℕ)
      → Ok (Call.pread_fixed i o l b) (Reply.ok n bs)
      → n < l
      → (length file ≤ o + n) ⊎ E einval
  pub read_error : (i o l e : ℕ) → Ok (Call.pread i o l) (Reply.error e) → E e
  pub read_fixed_error : (i o l b e : ℕ) → Ok (Call.pread_fixed i o l b) (Reply.error e) → E e
  pub no_op : (e : ℕ) → Ok Call.op_new (Reply.error e) → E enomem
  pub no_memory : (n e : ℕ) → Ok (Call.malloc n) (Reply.error e) → E enomem
