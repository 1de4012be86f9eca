-- ===== src/Samples/Starting.antt =====
-- Tests of the theorems on the start of a command, from the command line to its tasks.
use mathlib.Core.Logic.{◌↔◌}
use jio.Base.{ℕ, zero, suc, ◌<◌, ◌≡◌, refl, List, [], ◌∷◌, arith, some}
use jio.Io.{Call, Reply}
use jio.Io.Wp.{Wp}
use jio.Lru.{Journal}
use jio.Open.Completions.{Opens, reply_of}
use jio.Open.Listing.{Any}
use jio.Ids.Gets.{Reads}
use jio.Tasks.{Task, ended}
use jio.Drive.{Setting, launch}
use jio.Drive.Launch.{Completes, tasks_of, launch-tasks_of}
use jio.Cli.{report_usage, subcommand, runs}
use jio.Cli.Words.{Named, subcommand-words}
use jio.Samples.{answer, bytes_of, no_error}

-- A machine's id of "ab" and a newline.
abbrev pub id_file : List ℕ
id_file = b'a' ∷ b'b' ∷ 10 ∷ []

abbrev pub Truthful : Call → Reply → Type 0
Truthful c r = r ≡ answer id_file c

pub id_file-Reads : Reads id_file Truthful
id_file-Reads = record { all = λ fd n bs ok. bytes_of n _ bs _ ok }

pub opens : Opens Truthful
opens = record {
  malloc = λ n e ok. no_error e _ _ ok;
  files = λ n e ok. no_error e _ _ ok;
  buffers = λ n e ok. no_error e _ _ ok;
}

pub opens_dir : (fd e : ℕ) → Truthful (Call.fdopendir fd) (Reply.error e) → ⊥
opens_dir fd e ok = no_error e _ _ ok

-- The files ".", "a" and "b".
abbrev pub files : List (List ℕ)
files = (b'.' ∷ []) ∷ (b'a' ∷ []) ∷ (b'b' ∷ []) ∷ []

-- The open of "b" completes first, and that of "a" is denied.
abbrev pub setting : Setting
setting = record {
  buf = [];
  first = files;
  second = files;
  opens = (1, Reply.ok 5 []) ∷ (0, Reply.error 13) ∷ [];
}

-- A task that tells the descriptor of its journal.
abbrev telling : ℕ → Journal → Task ℕ
telling fd j = Task.update fd ended

both_replied : (l : ℕ) → l < 2 → (r : Reply) × (reply_of l setting.opens ≡ some r)
both_replied zero h = (Reply.error 13, refl)
both_replied (suc zero) h = (Reply.ok 5 [], refl)
both_replied (suc (suc l)) h = absurd (omega arith)

pub completes : Completes 2 setting.opens
completes = record {
  number = refl;
  distinct = (refl, (refl, tt));
  replied = both_replied;
  fresh = (refl, tt, (refl, refl, tt));
}

launch-tasks_of_example :
    Wp Truthful Any (λ ts. ts ≡ tasks_of telling 2 0 setting.opens) (launch telling setting)
launch-tasks_of_example =
    launch-tasks_of telling Truthful opens id_file id_file-Reads opens_dir setting (omega arith)
      (omega arith) completes

subcommand-words_example :
    (subcommand "report" ("usage" ∷ []) ≡ runs report_usage)
    ↔ Named "report" ("usage" ∷ []) report_usage
subcommand-words_example = subcommand-words "report" ("usage" ∷ []) report_usage
