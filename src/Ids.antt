-- ===== src/Ids.antt =====
-- Reading a small file, of src/readfile.c, and the machine's and the boot's id from one, of
-- src/machid.c and src/bootid.c.
pub mod Dehyphen
pub mod Gets
use jio.Base.{
  ℕ, zero, suc, ◌+◌, ◌-◌, List, [], ◌∷◌, Option, none, some, ◌==◌, if◌then◌else◌, length, get_elem?,
  set, drop, ◌++◌,
}
use jio.Io.{or_fault, Step, Call, Reply, done, fail, fault, out_of_fuel, call, allocated, ◌>>=◌}

-- A buffer of `struct { char buf[4096]; size_t len; }`.
abbrev pub id_buf_size : ℕ
id_buf_size = 4096

-- `read_done`: the number of bytes read, and the buffer `buf` behind the read.
unfoldable pub read_done : ℕ → List ℕ → Reply → Step (ℕ × List ℕ)
read_done fd buf (Reply.error e) = fail e
read_done fd buf (Reply.ok n bs) = call (Call.close fd) (λ r. done (n, bs ++ drop n buf))

-- `open_done`.
unfoldable pub open_done : ℕ → List ℕ → Reply → Step (ℕ × List ℕ)
open_done size buf (Reply.error e) = fail e
open_done size buf (Reply.ok fd _) =
    call Call.op_new λ r. allocated r (call (Call.pread fd 0 size) (read_done fd buf))

-- `readfile`: flags 0 is O_RDONLY.
unfoldable pub readfile : List ℕ → ℕ → List ℕ → Step (ℕ × List ℕ)
readfile path size buf =
    call Call.op_new λ r. allocated r (call (Call.openat 0 path 0) (open_done size buf))

-- The string in a buffer, up to its terminator.
abbrev pub cstr : List ℕ → List ℕ
cstr [] = []
cstr (c ∷ cs) = if c == 0 then [] else c ∷ cstr cs

-- `buf[*size - 1] = '\0'`: outside the buffer where nothing was read.
unfoldable pub terminate : ℕ → List ℕ → Step (List ℕ)
terminate zero buf = fault
terminate (suc n) buf = done (set buf n 0)

-- `strdup`.
unfoldable pub strdup : List ℕ → Step (List ℕ)
strdup buf = call (Call.malloc (length (cstr buf) + 1)) λ r. allocated r (done (cstr buf))

-- `machid_get` with `have_machid`.
unfoldable pub machid_get : List ℕ → List ℕ → Step (List ℕ)
machid_get path buf = do
  (n, bs) ← readfile path id_buf_size buf
  terminated ← terminate n bs
  strdup terminated

-- `dehyphen` in place: `str` reads, `dest` writes. The buffer's length is enough fuel for a
-- terminated string; a read behind the end of the buffer faults.
unfoldable pub dehyphen_loop : ℕ → ℕ → ℕ → List ℕ → Option (List ℕ)
dehyphen_loop zero str dest buf = none
dehyphen_loop (suc fuel) str dest buf = elim (get_elem? buf str) [
  | none ↦ none
  | some c ↦
      let next = dehyphen_loop fuel (suc str) (suc dest) (set buf dest c) in
      let skip = dehyphen_loop fuel (suc str) dest buf in
      if c == 0 then some (set buf dest 0) else (if c == b'-' then skip else next)
]

unfoldable pub dehyphen : List ℕ → Option (List ℕ)
dehyphen buf = dehyphen_loop (length buf) 0 0 buf

-- `bootid_get` with `have_bootid`.
unfoldable pub bootid_get : List ℕ → List ℕ → Step (List ℕ)
bootid_get path buf = do
  (n, bs) ← readfile path id_buf_size buf
  terminated ← terminate n bs
  plain ← or_fault (dehyphen terminated)
  strdup plain
