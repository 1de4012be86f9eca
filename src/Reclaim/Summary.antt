-- ===== src/Reclaim/Summary.antt =====
-- The summary of `jio_reclaim_tail_waste`, of src/reclaim-tail-waste.c. It stands behind a `return`
-- that the function reaches first.
use jio.Base.{
  ℕ, ◌+◌, ◌%◌, ◌^◌, ◌≡◌, List, [], ◌∷◌, ◌++◌, Option, arith, ◌==◌, if◌then◌else◌, Bool-cases, inl,
  inr, ==→eq, refl,
}
use jio.Io.{Step, Reply, done, ◌>>=◌}
use jio.Io.Wp.{Wp, Wp-mono, Wp-bind, Wp-both}
use jio.Format.{ObjectHeader, Header}
use jio.Format.JournalState
use jio.Humane.{Humane, humane_bytes}
use jio.TailWaste.{tail_of}
use jio.Reclaim.{Reclaimed, truncated, reclaim_sized, reclaim_tail_waste}
use jio.Reclaim.Safety.{IsPartition, SizeKnown, reclaim_tail_waste-IsPartition}

pub data Line : Type 0 where
  no_journals : Line
  skipped : ℕ → Line
  ignored reclaimed failed : ℕ → Option Humane → Line

-- `if (n) printf(...)`: a line for a counter that is not zero.
abbrev pub unless_zero : ℕ → Line → List Line
unless_zero n line = if n == 0 then [] else line ∷ []

unfoldable pub summary : (ℕ → ℕ) → Reclaimed → List Line
summary to_double t =
    (if t.n_journals == 0 then Line.no_journals ∷ [] else [])
    ++ (unless_zero t.n_mules (Line.skipped t.n_mules)
        ++ (unless_zero t.n_ignored
              (Line.ignored t.n_ignored (humane_bytes to_double t.ignored_bytes))
            ++ (unless_zero t.n_reclaimed
                  (Line.reclaimed t.n_reclaimed (humane_bytes to_double t.reclaimed_bytes))
                ++ unless_zero t.n_errored
                    (Line.failed t.n_errored (humane_bytes to_double t.errored_bytes)))))

-- The numbers of journals that lines tell.
abbrev pub told : List Line → ℕ
told [] = 0
told (Line.no_journals ∷ ls) = told ls
told (Line.skipped n ∷ ls) = n + told ls
told (Line.ignored n h ∷ ls) = n + told ls
told (Line.reclaimed n h ∷ ls) = n + told ls
told (Line.failed n h ∷ ls) = n + told ls

told-append : (ks ls : List Line) → told (ks ++ ls) ≡ told ks + told ls
told-append [] ls = omega arith
told-append (Line.no_journals ∷ ks) ls = omega (arith, told-append ks ls)
told-append (Line.skipped n ∷ ks) ls = omega (arith, told-append ks ls)
told-append (Line.ignored n h ∷ ks) ls = omega (arith, told-append ks ls)
told-append (Line.reclaimed n h ∷ ks) ls = omega (arith, told-append ks ls)
told-append (Line.failed n h ∷ ks) ls = omega (arith, told-append ks ls)

told-unless_zero : (n : ℕ) (line : Line) → told (line ∷ []) ≡ n → told (unless_zero n line) ≡ n
told-unless_zero n line h = elim (Bool-cases (n == 0)) [
  | inl none ↦ rw none (omega (arith, ==→eq n 0 none))
  | inr some ↦ rw some h
]

told-none : (n : ℕ) → told (if n == 0 then Line.no_journals ∷ [] else []) ≡ 0
told-none n = ground arith

told-five :
    (first mules ignores reclaims errors : List Line) (a b c d : ℕ)
    → told first ≡ 0
    → told mules ≡ a
    → told ignores ≡ b
    → told reclaims ≡ c
    → told errors ≡ d
    → told (first ++ (mules ++ (ignores ++ (reclaims ++ errors)))) ≡ a + b + c + d
told-five first mules ignores reclaims errors a b c d none is-a is-b is-c is-d = omega (
  arith,
  told-append first (mules ++ (ignores ++ (reclaims ++ errors))),
  told-append mules (ignores ++ (reclaims ++ errors)),
  told-append ignores (reclaims ++ errors),
  told-append reclaims errors,
)

told-summary :
    (to_double : ℕ → ℕ) (t : Reclaimed)
    → told (summary to_double t) ≡ t.n_mules + t.n_ignored + t.n_reclaimed + t.n_errored
unfolding summary
told-summary to_double t =
    told-five (if t.n_journals == 0 then Line.no_journals ∷ [] else [])
      (unless_zero t.n_mules (Line.skipped t.n_mules))
      (unless_zero t.n_ignored (Line.ignored t.n_ignored (humane_bytes to_double t.ignored_bytes)))
      (unless_zero t.n_reclaimed
        (Line.reclaimed t.n_reclaimed (humane_bytes to_double t.reclaimed_bytes)))
      (unless_zero t.n_errored (Line.failed t.n_errored (humane_bytes to_double t.errored_bytes)))
      t.n_mules t.n_ignored t.n_reclaimed t.n_errored (told-none t.n_journals)
      (told-unless_zero t.n_mules (Line.skipped t.n_mules) (omega arith))
      (told-unless_zero t.n_ignored
        (Line.ignored t.n_ignored (humane_bytes to_double t.ignored_bytes)) (omega arith))
      (told-unless_zero t.n_reclaimed
        (Line.reclaimed t.n_reclaimed (humane_bytes to_double t.reclaimed_bytes)) (omega arith))
      (told-unless_zero t.n_errored
        (Line.failed t.n_errored (humane_bytes to_double t.errored_bytes)) (omega arith))

-- No outcome changes the number of journals.
reclaim_sized-same :
    (fd : ℕ) (h : Header) (tail sz : ℕ) (t : Reclaimed)
    → Wp SizeKnown (λ e. ⊥) (λ t'. t'.n_journals ≡ t.n_journals) (reclaim_sized fd h tail sz t)
unfolding reclaim_sized truncated
reclaim_sized-same fd h tail sz t = elim (Bool-cases (sz == tail)) [
  | inl e ↦ rw e refl
  | inr e ↦ rw e (elim (Bool-cases (h.state == JournalState.archived)) [
    | inl a ↦ rw a (elim [ Reply.ok _ _ ↦ λ u. refl | Reply.error err ↦ λ u. refl ])
    | inr a ↦ rw a refl
  ])
]

-- `n` journals were reclaimed, each with one outcome.
abbrev pub IsCount : ℕ → Reclaimed → Type 0
IsCount n t = IsPartition t × (t.n_journals % 2 ^ 32 ≡ n % 2 ^ 32)

one_more :
    (fd : ℕ) (h : Header) (o : ObjectHeader) (t : Reclaimed)
    → Wp SizeKnown
        (λ e. ⊥)
        (λ t'. t'.n_journals ≡ (t.n_journals + 1) % 2 ^ 32)
        (reclaim_tail_waste fd h o t)
unfolding reclaim_tail_waste
one_more fd h o t (Reply.error e) ok = ok
one_more fd h o t (Reply.ok sz _) ok = reclaim_sized-same fd h (tail_of h o) sz _

reclaim_tail_waste-IsCount :
    (fd : ℕ) (h : Header) (o : ObjectHeader) (n : ℕ) (t : Reclaimed)
    → IsCount n t
    → Wp SizeKnown (λ e. ⊥) (IsCount (n + 1)) (reclaim_tail_waste fd h o t)
reclaim_tail_waste-IsCount fd h o n t (p, count) =
    Wp-mono SizeKnown (λ e. ⊥)
      (λ t'. IsPartition t' × (t'.n_journals ≡ (t.n_journals + 1) % 2 ^ 32)) (IsCount (n + 1))
      (reclaim_tail_waste fd h o t)
      (Wp-both SizeKnown (λ e. ⊥) IsPartition (λ t'. t'.n_journals ≡ (t.n_journals + 1) % 2 ^ 32)
        (reclaim_tail_waste fd h o t) (reclaim_tail_waste-IsPartition fd h o t p)
        (one_more fd h o t))
      λ t' (p', more). (p', omega (arith, more, count))

-- The journals that are given by their descriptors and headers, one after another.
abbrev pub reclaim_all : List (ℕ × Header × ObjectHeader) → Reclaimed → Step Reclaimed
reclaim_all [] t = done t
reclaim_all ((fd, h, o) ∷ js) t = reclaim_tail_waste fd h o t >>= λ t'. reclaim_all js t'

abbrev pub number_of_journals : List (ℕ × Header × ObjectHeader) → ℕ
number_of_journals [] = 0
number_of_journals (j ∷ js) = 1 + number_of_journals js

reclaim_all-IsCount :
    (js : List (ℕ × Header × ObjectHeader)) (n : ℕ) (t : Reclaimed)
    → IsCount n t
    → Wp SizeKnown (λ e. ⊥) (IsCount (n + number_of_journals js)) (reclaim_all js t)
reclaim_all-IsCount [] n t (p, count) = (p, omega (arith, count))
reclaim_all-IsCount ((fd, h, o) ∷ js) n t c =
    Wp-bind SizeKnown (λ e. ⊥) (IsCount (n + 1))
      (IsCount (n + number_of_journals ((fd, h, o) ∷ js))) (reclaim_tail_waste fd h o t)
      (λ t'. reclaim_all js t') (reclaim_tail_waste-IsCount fd h o n t c)
      λ t' c'.
        Wp-mono SizeKnown (λ e. ⊥) (IsCount (n + 1 + number_of_journals js))
          (IsCount (n + number_of_journals ((fd, h, o) ∷ js))) (reclaim_all js t')
          (reclaim_all-IsCount js (n + 1) t' c') λ t2 (p, count). (p, omega (arith, count))

-- Reclaiming journals one after another from counters that are zero, where `fstat` succeeds: it
-- ends without an error, also if any `ftruncate` fails, and the numbers of journals that the lines
-- of the summary tell add up to that of the journals, modulo 2 ^ 32.
pub summary-counts :
    (to_double : ℕ → ℕ) (js : List (ℕ × Header × ObjectHeader)) (t : Reclaimed)
    → IsCount 0 t
    → Wp SizeKnown
        (λ e. ⊥)
        (λ t'. told (summary to_double t') % 2 ^ 32 ≡ number_of_journals js % 2 ^ 32)
        (reclaim_all js t)
summary-counts to_double js t c =
    Wp-mono SizeKnown (λ e. ⊥) (IsCount (0 + number_of_journals js))
      (λ t'. told (summary to_double t') % 2 ^ 32 ≡ number_of_journals js % 2 ^ 32)
      (reclaim_all js t) (reclaim_all-IsCount js 0 t c)
      λ t' (p, count). omega (arith, p, count, told-summary to_double t')
