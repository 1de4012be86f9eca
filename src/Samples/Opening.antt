-- ===== src/Samples/Opening.antt =====
-- Tests of the theorems on opening the journals.
use jio.Base.{ℕ, ◌≡◌, refl, List, [], ◌∷◌, some, arith}
use jio.Io.{Call, Reply}
use jio.Io.Wp.{Wp}
use jio.Lru.{Journal}
use jio.Lru.Order.{IsLru}
use jio.Cache.Window.{IsCache}
use jio.Open.{Journals, zero_journal, setup, completions}
use jio.Open.Setup.{all_bufs, setup-IsCache}
use jio.Open.Completions.{Opens, Completed, completions-Completed}
use jio.Samples.{answer, sample_file, no_error}

setup-IsCache_example :
    (j : Journal) × (setup 3 zero_journal ≡ some j) × IsLru j all_bufs × IsCache sample_file j
setup-IsCache_example = setup-IsCache sample_file 3

abbrev Truthful : Call → Reply → Type 0
Truthful c r = r ≡ answer sample_file c

opens : Opens Truthful
opens = record {
  malloc = λ n e ok. no_error e _ _ ok;
  files = λ n e ok. no_error e _ _ ok;
  buffers = λ n e ok. no_error e _ _ ok;
}

-- Two journals; the second one's open completes first, and the first one's is denied.
abbrev two_journals : Journals
two_journals = record {
  dirfd = some 9;
  n_allocated = 2;
  n_opened = 0;
  names = (b'a' ∷ []) ∷ (b'b' ∷ []) ∷ [];
  journals = zero_journal ∷ zero_journal ∷ [];
}

abbrev replies : List (ℕ × Reply)
replies = (1, Reply.ok 5 []) ∷ (0, Reply.error 13) ∷ []

completions-Completed_example :
    Wp Truthful (λ e. ⊥) (Completed replies two_journals 0) (completions replies 0 two_journals)
completions-Completed_example =
    completions-Completed Truthful (λ e. ⊥) opens replies two_journals (omega arith) refl refl
      (refl, (refl, tt)) (refl, tt, (refl, refl, tt))
