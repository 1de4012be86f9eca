-- ===== src/Drive.antt =====
-- What all the commands of src/report-*.c and src/verify-hashed-objects.c do first: `machid_get`,
-- then `journals_open`, and when the last open has completed `journals_for_each`, which starts
-- a task for every journal that is open.
pub mod Launch
pub mod Outcome
pub mod Commands
pub mod Lines
use jio.Base.{ℕ, zero, suc, List, [], ◌∷◌, Option, none, some}
use jio.Io.{Reply, Step, done, ◌>>=◌}
use jio.Lru.{Journal}
use jio.Open.{Journals, completions, journals_open}
use jio.Ids.{machid_get}
use jio.Tasks.{Task}

-- `journals_for_each` of src/journals.c, whose closure starts a task for a journal and its `fd`.
abbrev pub started : {U : Type 0} → (ℕ → Journal → Task U) → List Journal → List (Task U)
started closure [] = []
started closure (j ∷ js) =
    let rest = started closure js in elim j.fd [ none ↦ rest | some fd ↦ closure fd j ∷ rest ]

-- As often as the closure of `opened_journal` is dispatched.
abbrev pub dispatched : {U : Type 0} → ℕ → (ℕ → Journal → Task U) → List Journal → List (Task U)
dispatched zero closure js = []
dispatched (suc n) closure js = started closure js

-- Behind `get_journals`, with the opens completing as `rs`: none is no journal at all.
unfoldable pub start_journals :
    {U : Type 0}
    → (ℕ → Journal → Task U)
    → List (ℕ × Reply)
    → Option Journals
    → Step (List (Task U))
start_journals closure rs none = done []
start_journals closure rs (some js) = do
  (n, js') ← completions rs 0 js
  done (dispatched n closure js'.journals)

-- "/etc/machine-id".
abbrev pub machid_path : List ℕ
machid_path =
    b'/' ∷ b'e' ∷ b't' ∷ b'c' ∷ b'/' ∷ b'm' ∷ b'a' ∷ b'c' ∷ b'h' ∷ b'i' ∷ b'n' ∷ b'e' ∷ b'-' ∷ b'i'
    ∷ b'd' ∷ []

-- What lies outside of the program when a command starts: the buffer that `machid_get` reads
-- into, the names in the journals' directory at its two passes, and the order and the replies in
-- which the opens complete.
pub record Setting : Type 0 where
  pub buf : List ℕ
  pub first : List (List ℕ)
  pub second : List (List ℕ)
  pub opens : List (ℕ × Reply)

-- `machid_get(..., journals_open(..., journals_for_each(..., closure)))`: the tasks.
unfoldable pub launch : {U : Type 0} → (ℕ → Journal → Task U) → Setting → Step (List (Task U))
launch closure s = do
  machid ← machid_get machid_path s.buf
  opened ← journals_open machid s.first s.second
  start_journals closure s.opens opened
