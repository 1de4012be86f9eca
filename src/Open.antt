-- ===== src/Open.antt =====
-- Opening the journals, of src/journals.c: `opened_journal`, `get_journals`, and
-- `journals_for_each` over what was opened.
pub mod Setup
pub mod Arrays
pub mod Completions
pub mod Listing
pub mod Numbered
use jio.Base.{
  ℕ, zero, suc, ◌+◌, ◌*◌, Bool, Option, none, some, List, [], ◌∷◌, true, false, not, ltb, leb, ◌==◌,
  ◌||◌, if◌then◌else◌, length, get_elem?, set,
}
use jio.Io.{Step, Call, Reply, done, fail, fault, call, allocated, assert, or_fault, ◌>>=◌}
use jio.Lru.{Buf, Journal, set_next, set_prev, and_then}

abbrev pub replicate {ℓ} : {A : Type ℓ} → ℕ → A → List A
replicate zero x = []
replicate (suc n) x = x ∷ replicate n x

-- The bytes of a buffer that `calloc` gave.
unfoldable pub zeros : List ℕ
zeros = replicate 8192 0

abbrev pub zero_buf : Buf
zero_buf = record {
  lru_prev = none;
  lru_next = none;
  offset = 0;
  length = 0;
  valid = false;
  idx = 0;
  bytes = zeros;
}

-- A journal as `calloc` gave it.
abbrev pub zero_journal : Journal
zero_journal = record {
  fd = some 0;
  idx = 0;
  lru_head = none;
  lru_tail = none;
  bufs = λ _. zero_buf;
}

-- One round of the loop of `opened_journal` over the buffers, with the tail that it has reached.
unfoldable pub append_buf : ℕ → Option ℕ → Journal → Option Journal
append_buf i none j = none
append_buf i (some t) j =
    some (record j { bufs = set_prev (set_next j.bufs t (some i)) i (some t); lru_tail = some i })

-- `for (int i = 1; i < JOURNAL_BUF_CNT; i++)`, at `i` with that many rounds left.
unfoldable pub append_bufs : ℕ → ℕ → Journal → Option Journal
append_bufs zero i j = some j
append_bufs (suc left) i j = and_then (append_buf i j.lru_tail j) (λ k. append_bufs left (i + 1) k)

-- What `opened_journal` makes of a journal whose open succeeded.
unfoldable pub setup : ℕ → Journal → Option Journal
setup fd j =
    and_then (append_bufs 7 1 (record j { lru_head = some 0; lru_tail = some 0 }))
      (λ k. some (record k { fd = some fd }))

-- `journals_t`, with `n_journals` the length of `journals`, and the name of each.
pub record Journals : Type 0 where
  pub dirfd : Option ℕ
  pub n_allocated : ℕ
  pub n_opened : ℕ
  pub names : List (List ℕ)
  pub journals : List Journal

-- EPERM and EACCES.
abbrev pub is_denied : ℕ → Bool
is_denied e = (e == 1) || (e == 13)

-- A journal behind the attempt to open it.
unfoldable pub open_result : Reply → Journal → Step Journal
open_result (Reply.error e) j = if is_denied e then done (record j { fd = none }) else fail e
open_result (Reply.ok fd _) j = or_fault (setup fd j)

-- `if (r < 0) return r;`
abbrev pub checked {ℓ} : {A : Type ℓ} → Reply → Step A → Step A
checked (Reply.ok _ _) next = next
checked (Reply.error e) next = fail e

-- `buf->idx = n_bufs++` for the buffers of journal `i`, behind `8 * i` others.
unfoldable pub number_bufs : ℕ → Journal → Journal
number_bufs i j = record j {
  bufs = λ b. if ltb b 8 then record (j.bufs b) { idx = 8 * i + b } else j.bufs b;
}

abbrev pub number_all : ℕ → List Journal → List Journal
number_all i [] = []
number_all i (j ∷ js) = number_bufs i (record j { idx = i }) ∷ number_all (suc i) js

-- What `opened_journal` does behind the last open: sizes of an `int` and a `struct iovec`.
unfoldable pub register_all : Journals → Step Journals
register_all js =
    let n = length js.journals in
    call (Call.malloc (4 * n)) λ r. allocated r (
      call (Call.register_files n) λ r1. checked r1 (
        call (Call.malloc (16 * 8 * n)) λ r2. allocated r2 (
          call (Call.register_buffers (8 * n))
            λ r3. checked r3 (done (record js { journals = number_all 0 js.journals })))))

unfoldable pub open_at : ℕ → Reply → Journals → Step Journals
open_at i r js = do
  j ← or_fault (get_elem? js.journals i)
  k ← open_result r j
  done (record js { n_opened = js.n_opened + 1; journals = set js.journals i k })

-- `opened_journal` for journal `i`: with whether it dispatches its closure.
unfoldable pub opened_journal : ℕ → Reply → Journals → Step (Bool × Journals)
opened_journal i r js = do
  js' ← open_at i r js
  if js'.n_opened == length js'.journals
      then (register_all js' >>= λ k. done (true, k))
      else done (false, js')

-- The opens complete in some order: how often the closure is dispatched, and what it finds.
unfoldable pub completions : List (ℕ × Reply) → ℕ → Journals → Step (ℕ × Journals)
completions [] dispatched js = done (dispatched, js)
completions ((i, r) ∷ rs) dispatched js = do
  (last, js') ← opened_journal i r js
  completions rs (if last then suc dispatched else dispatched) js'

-- The names that are not dot files.
abbrev pub visible : List (List ℕ) → List (List ℕ)
visible [] = []
visible ([] ∷ ds) = [] ∷ visible ds
visible ((c ∷ d) ∷ ds) = let rest = visible ds in if c == b'.' then rest else (c ∷ d) ∷ rest

-- A descriptor, which is none where the call returned -1.
abbrev pub descriptor : Reply → Option ℕ
descriptor (Reply.ok fd _) = some fd
descriptor (Reply.error e) = none

-- The calls of `iou_op_new` for that many opens.
abbrev pub queue_opens : ℕ → Journals → Step Journals
queue_opens zero js = done js
queue_opens (suc n) js = call Call.op_new λ r. allocated r (queue_opens n js)

-- Behind `fdopendir`: the directory's names at the first and at the second pass of `readdir`; none
-- where there is no journal, and then the closure is never dispatched. A `journals_t` takes 32 and a
-- `_journal_t` 65888 bytes.
unfoldable pub list_journals : ℕ → List (List ℕ) → List (List ℕ) → Step (Option Journals)
list_journals fd first second =
    let n = length (visible first) in
    let m = length (visible second) in
    if n == 0
    then done none
    else call (Call.malloc (32 + 65888 * n)) λ r. allocated r (
        assert (leb m n) (
          call (Call.dup fd) λ r1. call (Call.resize m) λ r2. checked r2 (
            queue_opens m (record {
              dirfd = descriptor r1;
              n_allocated = n;
              n_opened = 0;
              names = visible second;
              journals = replicate m zero_journal;
            })
            >>= λ js. done (some js))))

-- Behind the call of `fdopendir`.
unfoldable pub dir_opened : ℕ → List (List ℕ) → List (List ℕ) → Reply → Step (Option Journals)
dir_opened fd first second (Reply.error e) = call (Call.close fd) (λ r1. done none)
dir_opened fd first second (Reply.ok _ _) = list_journals fd first second

-- `get_journals`: an error of `fdopendir` is returned as a positive number, no error.
unfoldable pub get_journals : List (List ℕ) → List (List ℕ) → Reply → Step (Option Journals)
get_journals first second (Reply.error e) = fail e
get_journals first second (Reply.ok fd _) = call (Call.fdopendir fd) (dir_opened fd first second)

-- "/var/log/journal".
abbrev pub persistent_path : List ℕ
persistent_path =
    b'/' ∷ b'v' ∷ b'a' ∷ b'r' ∷ b'/' ∷ b'l' ∷ b'o' ∷ b'g' ∷ b'/' ∷ b'j' ∷ b'o' ∷ b'u' ∷ b'r' ∷ b'n'
    ∷ b'a' ∷ b'l' ∷ []

-- O_DIRECTORY|O_RDONLY.
abbrev pub directory_flags : ℕ
directory_flags = 65536

unfoldable pub var_opened : List ℕ → List (List ℕ) → List (List ℕ) → Reply → Step (Option Journals)
var_opened machid first second (Reply.error e) = fail e
var_opened machid first second (Reply.ok fd _) =
    call Call.op_new
      λ r. allocated r (call (Call.openat fd machid directory_flags) (get_journals first second))

-- `journals_open`, up to the completions of the opens.
unfoldable pub journals_open : List ℕ → List (List ℕ) → List (List ℕ) → Step (Option Journals)
journals_open machid first second = call Call.op_new λ r.
    allocated r
      (call (Call.openat 0 persistent_path directory_flags) (var_opened machid first second))

-- `journals_for_each` with a closure that changes a state.
abbrev pub journals_for_each {ℓ} : {T : Type ℓ} → (Journal → T → Step T) → List Journal → T → Step T
journals_for_each closure [] t = done t
journals_for_each closure (j ∷ js) t = elim j.fd [
  | none ↦ journals_for_each closure js t
  | some fd ↦ (closure j t >>= λ t'. journals_for_each closure js t')
]
