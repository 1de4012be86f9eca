-- ===== src/Cache.antt =====
-- `journal_read` and `buf_got_read` of src/journals.c: reads of a journal through the journal's
-- eight buffers. `closure` is what is done with the result.
pub mod World
pub mod Window
pub mod Filled
pub mod Reads
pub mod Keeps
pub mod Others
pub mod Lasting
pub mod Own
pub mod Overflow
use jio.Base.{
  ℕ, zero, suc, ◌+◌, Bool, true, false, ◌&&◌, Option, none, some, List, ◌++◌, leb, ltb, add64,
  sub64, if◌then◌else◌, take, drop,
}
use jio.Io.{Call, Reply, Step, done, fail, fault, call, allocated, assert, einval}
use jio.Lru.{Buf, Bufs, Journal, update, buf_used}

-- `JOURNAL_BUF_SIZE` and `JOURNAL_BUF_CNT`.
abbrev pub buf_size : ℕ
buf_size = 8192

abbrev pub buf_cnt : ℕ
buf_cnt = 8

-- The read that is done: what is in `dest`, and the journal with its buffers.
abbrev pub Read : Type 0
Read = List ℕ × Journal

-- The test on one buffer, in the arithmetic of `uint64_t`.
unfoldable pub hit : ℕ → ℕ → Buf → Bool
hit offset length b =
    b.valid && leb b.offset offset && leb (add64 offset length) (add64 b.offset b.length)

-- `for (int i = 0; i < JOURNAL_BUF_CNT; i++)`, at `i` with that many rounds left.
unfoldable pub find : ℕ → ℕ → Bufs → ℕ → ℕ → Option ℕ
find offset length bufs zero i = none
find offset length bufs (suc left) i =
    if hit offset length (bufs i) then some i else find offset length bufs left (i + 1)

-- `memcpy(dest, &buf->data[start], length)`: undefined behind the end of the array.
unfoldable pub memcpy : ℕ → ℕ → List ℕ → Journal → Step Read
memcpy start length bytes j =
    if leb (start + length) buf_size then done (take length (drop start bytes), j) else fault

-- A call of a function that may follow a null pointer.
abbrev pub deref : {A B : Type 0} → Option A → (A → Step B) → Step B
deref none f = fault
deref (some a) f = f a

unfoldable pub cached : ℕ → ℕ → Journal → ℕ → Step Read
cached offset length j i =
    deref (buf_used j i) λ k. memcpy (sub64 offset (k.bufs i).offset) length (k.bufs i).bytes k

-- `buf->valid = v` and what `buf_got_read` stores.
abbrev pub invalidate : Journal → ℕ → Journal
invalidate j b = record j { bufs = update j.bufs b (record (j.bufs b) { valid = false }) }

-- The kernel has written the first `n` bytes of the buffer.
abbrev pub fill : Journal → ℕ → ℕ → ℕ → List ℕ → Journal
fill j b offset n bs = record j {
  bufs = update j.bufs b (record (j.bufs b) {
    bytes = bs ++ drop n (j.bufs b).bytes;
    length = n;
    offset = offset;
    valid = true;
  });
}

-- `buf_got_read` where there is a buffer.
unfoldable pub buf_got_read : ℕ → ℕ → ℕ → Journal → Reply → Step Read
buf_got_read offset length b j (Reply.error e) = fail e
buf_got_read offset length b j (Reply.ok n bs) =
    if ltb n length
    then fail einval
    else done (take length (bs ++ drop n (j.bufs b).bytes), fill j b offset n bs)

-- `buf_got_read` where `buf` is NULL, and `dest` was read into.
unfoldable pub got_read : ℕ → Journal → Reply → Step Read
got_read length j (Reply.error e) = fail e
got_read length j (Reply.ok n bs) = if ltb n length then fail einval else done (bs, j)

unfoldable pub uncached : ℕ → ℕ → Journal → Step Read
uncached offset length j = deref j.lru_head λ b. deref (buf_used j b) λ k. call Call.op_new λ r.
    allocated r (
      call (Call.pread_fixed k.idx offset buf_size (k.bufs b).idx)
        (buf_got_read offset length b (invalidate k b)))

-- `io_uring_prep_read` takes the length as an `unsigned`: a longer range is read short.
unfoldable pub unbuffered : ℕ → ℕ → Journal → Step Read
unbuffered offset length j =
    call Call.op_new λ r. allocated r (call (Call.pread j.idx offset length) (got_read length j))

unfoldable pub buffered : ℕ → ℕ → Journal → Option ℕ → Step Read
buffered offset length j none = uncached offset length j
buffered offset length j (some i) = cached offset length j i

unfoldable pub journal_read : ℕ → ℕ → Journal → Step Read
journal_read offset length j = assert (ltb 0 length) (
    if leb length buf_size
    then buffered offset length j (find offset length j.bufs buf_cnt 0)
    else unbuffered offset length j)
