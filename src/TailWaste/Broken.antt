-- ===== src/TailWaste/Broken.antt =====
-- What `jio report tail-waste` does with a header whose state is none of the three, of
-- src/report-tail-waste.c.
use jio.Base.{ℕ, ◌+◌, ◌^◌, ◌≤◌, ◌<◌, ◌≡◌, List, length, ltb-false}
use jio.Io.{Call, Reply, Step, done, fail, fault, out_of_fuel, call, ◌>>=◌}
use jio.Io.Wp.{Wp}
use jio.Lru.{Journal}
use jio.Cache.World.{World}
use jio.Cache.Window.{IsCache}
use jio.Format.{ObjectHeader, Header}
use jio.Format.JournalState
use jio.Format.Endian.{ByteOrder, AreBytes}
use jio.Objects.{journal_get_header, journal_get_object_header}
use jio.Objects.Loads.{header_at, object_at, journal_get_header-le, journal_get_object_header-le}
use jio.TailWaste.{TailWaste, print_tail_waste, per_journal_tail_waste}

-- The chain ends, and never with a result: it fails with an error `E`, or faults.
abbrev pub Breaks {ℓ} : {A : Type ℓ} → (Call → Reply → Type 0) → (ℕ → Type 0) → Step A → Type 0
Breaks Ok E (done a) = ⊥
Breaks Ok E (fail e) = E e
Breaks Ok E fault = Unit
Breaks Ok E out_of_fuel = ⊥
Breaks Ok E (call c k) = (r : Reply) → Ok c r → Breaks Ok E (k r)

Breaks-bind {ℓ κ} :
    {A : Type ℓ} {B : Type κ} (Ok : Call → Reply → Type 0) (E : ℕ → Type 0) (P : A → Type 0)
    (m : Step A) (f : A → Step B)
    → Wp Ok E P m
    → ((a : A) → P a → Breaks Ok E (f a))
    → Breaks Ok E (m >>= f)
Breaks-bind Ok E P (done a) f h k = k a h
Breaks-bind Ok E P (fail e) f h k = h
Breaks-bind Ok E P fault f h k = tt
Breaks-bind Ok E P out_of_fuel f h k = h
Breaks-bind Ok E P (call c g) f h k = λ r o. Breaks-bind Ok E P (g r) f (h r o) k

print_tail_waste-Breaks :
    (Ok : Call → Reply → Type 0) (E : ℕ → Type 0) (fd : ℕ) (h : Header) (o : ObjectHeader)
    (t : TailWaste)
    → ((err : ℕ) → Ok (Call.fstat fd) (Reply.error err) → E err)
    → JournalState.max ≤ h.state
    → Breaks Ok E (print_tail_waste fd h o t)
unfolding print_tail_waste
print_tail_waste-Breaks Ok E fd h o t no_size big (Reply.error err) ok = no_size err ok
print_tail_waste-Breaks Ok E fd h o t no_size big (Reply.ok sz bs) ok =
    rw (ltb-false h.state 3 big) tt

-- A journal whose header has a state that is none of the three, with a tail object whose header is
-- inside of the file: `per_journal_tail_waste` never ends with a result. It fails with an error of the
-- world, or, where `fstat` gives the size, indexes the arrays of the three states out of bounds.
pub per_journal_tail_waste-Breaks :
    (file : List ℕ) (w : World file) (e : ByteOrder) (fd : ℕ) (j : Journal) (t : TailWaste)
    → length file < 2 ^ 64
    → AreBytes file
    → 256 ≤ length file
    → (header_at file).tail_object_offset + 16 ≤ length file
    → JournalState.max ≤ (header_at file).state
    → ((err : ℕ) → w.Ok (Call.fstat fd) (Reply.error err) → w.E err)
    → IsCache file j
    → Breaks w.Ok w.E (per_journal_tail_waste e fd j t)
unfolding per_journal_tail_waste
per_journal_tail_waste-Breaks file w e fd j t small bytes big inside state no_size c =
    Breaks-bind w.Ok w.E (λ (h, k). (h ≡ header_at file) × IsCache file k) (journal_get_header e j)
      _ (journal_get_header-le file w small bytes e j big c)
      λ (h, k) (at, c'). rw at (
        Breaks-bind w.Ok w.E
          (λ (o, k'). (o ≡ object_at file (header_at file).tail_object_offset) × IsCache file k')
          (journal_get_object_header e (header_at file).tail_object_offset k) _
          (journal_get_object_header-le file w small bytes e (header_at file).tail_object_offset k
            inside c')
          λ (o, k') u. print_tail_waste-Breaks w.Ok w.E fd (header_at file) o t no_size state)
