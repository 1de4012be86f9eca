-- ===== src/TailWaste/Sums.antt =====
-- What `jio report tail-waste` adds up.
use jio.Base.{ℕ, zero, suc, ◌+◌, ◌-◌, ◌%◌, ◌^◌, ◌≤◌, ◌<◌, ◌≡◌, refl, arith, lt→ltb, add64}
use jio.Io.{Call, Reply}
use jio.Io.Wp.{Wp}
use jio.Format.{ObjectHeader, Header}
use jio.Format.JournalState
use jio.TailWaste.{TailWaste, add_waste, tail_of, print_tail_waste}

-- The totals are the sums of the arrays of the three states.
pub record IsTotal (w : TailWaste) : Type 0 where
  pub bytes :
      w.total % 2 ^ 64 ≡ (w.per_state_bytes 0 + w.per_state_bytes 1 + w.per_state_bytes 2) % 2 ^ 64
  pub counts :
      w.n_journals % 2 ^ 32
      ≡ (w.per_state_counts 0 + w.per_state_counts 1 + w.per_state_counts 2) % 2 ^ 32

bytes_lem :
    (s sz tail : ℕ) (w : TailWaste)
    → s < JournalState.max
    → IsTotal w
    → (add_waste s sz tail w).total % 2 ^ 64
      ≡ ((add_waste s sz tail w).per_state_bytes 0
          + (add_waste s sz tail w).per_state_bytes 1
          + (add_waste s sz tail w).per_state_bytes 2)
        % 2 ^ 64
unfolding add_waste
bytes_lem zero sz tail w h t = omega arith
bytes_lem (suc zero) sz tail w h t = omega arith
bytes_lem (suc (suc zero)) sz tail w h t = omega arith
bytes_lem (suc (suc (suc s))) sz tail w h t = absurd (omega arith)

counts_lem :
    (s sz tail : ℕ) (w : TailWaste)
    → s < JournalState.max
    → IsTotal w
    → (add_waste s sz tail w).n_journals % 2 ^ 32
      ≡ ((add_waste s sz tail w).per_state_counts 0
          + (add_waste s sz tail w).per_state_counts 1
          + (add_waste s sz tail w).per_state_counts 2)
        % 2 ^ 32
unfolding add_waste
counts_lem zero sz tail w h t = omega arith
counts_lem (suc zero) sz tail w h t = omega arith
counts_lem (suc (suc zero)) sz tail w h t = omega arith
counts_lem (suc (suc (suc s))) sz tail w h t = absurd (omega arith)

-- A journal of one of the three states keeps the totals the sums of the states.
pub add_waste-IsTotal :
    (s sz tail : ℕ) (w : TailWaste)
    → s < JournalState.max
    → IsTotal w
    → IsTotal (add_waste s sz tail w)
add_waste-IsTotal s sz tail w h t = record {
  bytes = bytes_lem s sz tail w h t;
  counts = counts_lem s sz tail w h t;
}

-- The kernel's answers about a file of that size: the size, or an error.
abbrev pub SizeOrError : ℕ → Call → Reply → Type 0
SizeOrError size c (Reply.ok sz _) = sz ≡ size
SizeOrError size c (Reply.error e) = Unit

abbrev pub Printed : Header → ObjectHeader → ℕ → TailWaste → TailWaste → Type 0
Printed h o size w w' =
    IsTotal w'
    × (w'.total_file_size ≡ add64 w.total_file_size size)
    × (tail_of h o ≤ size → w'.total ≡ add64 w.total (size - tail_of h o))

waste_lem :
    (s sz tail : ℕ) (w : TailWaste)
    → sz < 2 ^ 64
    → tail ≤ sz
    → (add_waste s sz tail w).total ≡ add64 w.total (sz - tail)
unfolding add_waste
waste_lem s sz tail w a b = omega arith

-- For a journal of one of the three states, `print_tail_waste` fails only if `fstat` does. The
-- totals stay the sums of the states, the file's size is added, and where the file is not
-- shorter than the end of its last object, what lies behind that end is added as waste.
pub print_tail_waste-Printed :
    (fd size : ℕ) (h : Header) (o : ObjectHeader) (w : TailWaste)
    → size < 2 ^ 64
    → h.state < JournalState.max
    → IsTotal w
    → Wp (SizeOrError size) (λ e. Unit) (Printed h o size w) (print_tail_waste fd h o w)
unfolding print_tail_waste
print_tail_waste-Printed fd size h o w fits s t (Reply.error e) ok = tt
print_tail_waste-Printed fd size h o w fits s t (Reply.ok sz bs) ok =
    rw (lt→ltb h.state 3 s, ok)
      (
        add_waste-IsTotal h.state size (tail_of h o) w s t,
        unfold add_waste in refl,
        waste_lem h.state size (tail_of h o) w fits,
      )
