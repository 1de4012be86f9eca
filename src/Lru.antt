-- ===== src/Lru.antt =====
-- The buffers of a journal and their list in order of use: `journal_buf_t`, `_journal_t` and
-- `buf_used` of src/journals.c. A pointer to a buffer is its index in `bufs`.
pub mod Seg
pub mod Order
pub mod Splice
pub mod Used
pub mod Recency
use jio.Base.{ℕ, List, Bool, Option, none, some, ◌==◌, if◌then◌else◌}

pub record Buf : Type 0 where
  pub lru_prev : Option ℕ
  pub lru_next : Option ℕ
  pub offset : ℕ
  pub length : ℕ
  pub valid : Bool
  pub idx : ℕ
  pub bytes : List ℕ

abbrev pub Bufs : Type 0
Bufs = ℕ → Buf

-- `public.name` is not used by what is modelled here; `fd` is none where it is -1.
pub record Journal : Type 0 where
  pub fd : Option ℕ
  pub idx : ℕ
  pub lru_head : Option ℕ
  pub lru_tail : Option ℕ
  pub bufs : Bufs

abbrev pub is : Option ℕ → ℕ → Bool
is none b = Bool.false
is (some a) b = a == b

abbrev pub update : Bufs → ℕ → Buf → Bufs
update bufs b v a = if a == b then v else bufs a

-- `b->lru_next = n` and `b->lru_prev = p`.
unfoldable pub set_next : Bufs → ℕ → Option ℕ → Bufs
set_next bufs b n = update bufs b (record (bufs b) { lru_next = n })

unfoldable pub set_prev : Bufs → ℕ → Option ℕ → Bufs
set_prev bufs b p = update bufs b (record (bufs b) { lru_prev = p })

-- `if (buf->lru_prev) buf->lru_prev->lru_next = n; else journal->lru_head = n;`
unfoldable pub unlink_prev : Option ℕ → Option ℕ → Journal → Journal
unlink_prev none n j = record j { lru_head = n }
unlink_prev (some p) n j = record j { bufs = set_next j.bufs p n }

-- `buf->lru_next->lru_prev = p; buf->lru_next = NULL;` none is a null dereference.
unfoldable pub unlink_next : ℕ → Option ℕ → Option ℕ → Journal → Option Journal
unlink_next b none p j = none
unlink_next b (some n) p j = some (record j { bufs = set_next (set_prev j.bufs n p) b none })

-- `journal->lru_tail->lru_next = buf; buf->lru_prev = journal->lru_tail; journal->lru_tail = buf;`
unfoldable pub link_tail : ℕ → Option ℕ → Journal → Option Journal
link_tail b none j = none
link_tail b (some t) j =
    some (record j { bufs = set_prev (set_next j.bufs t (some b)) b (some t); lru_tail = some b })

abbrev pub and_then : Option Journal → (Journal → Option Journal) → Option Journal
and_then none f = none
and_then (some j) f = f j

unfoldable pub relink : Journal → ℕ → Option Journal
relink j b =
    let j' = unlink_prev (j.bufs b).lru_prev (j.bufs b).lru_next j in
    and_then (unlink_next b (j'.bufs b).lru_next (j'.bufs b).lru_prev j')
      (λ k. link_tail b k.lru_tail k)

unfoldable pub buf_used : Journal → ℕ → Option Journal
buf_used j b = if is j.lru_tail b then some j else relink j b
