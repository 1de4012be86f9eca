-- ===== src/Samples/Driving.antt =====
-- An `iou_run` that runs the tasks one after another, for the tests of the theorems on commands.
use mathlib.Core.Path.{subst}
use jio.Base.{ℕ, ◌^◌, ◌≤◌, ◌<◌, ◌≡◌, refl, sym, ap, ◌∙◌, List, [], ◌∷◌, length, arith}
use jio.Io.{Call, Reply, Step, done, fail, fault, out_of_fuel, ◌>>=◌}
use jio.Open.Setup.{opened, opened-IsCache}
use jio.Open.Numbered.{numbered, numbered-IsCache}
use jio.Format.Endian.{AreBytes}
use jio.Tasks.{
  Task, ended, failed, faulted, exhausted, waiting, update, Pool, here, later, replied, updated,
  AllEnded,
}
use jio.Tasks.Promised.{Promises, PromiseAll}
use jio.Tasks.Reached.{Reaches, still, turn, Reaches-trans, Drives, returned}
use jio.Tasks.Readable.{Answered}
use jio.Drive.Outcome.{chains, Starts}
use jio.Samples.{honest, answer, bytes_of, no_error}
use jio.Samples.Scheduling.{Never, start}
use jio.Samples.Starting.{id_file, Truthful, setting, id_file-Reads, opens, opens_dir, completes}

-- The journal of number `l`, open as `fd`, with that file.
abbrev pub at_file :
    (file : List ℕ)
    → length file < 2 ^ 64
    → 256 ≤ length file
    → AreBytes file
    → ℕ
    → ℕ
    → Answered Never
at_file file small big bytes l fd = record {
  file = file;
  world = honest file;
  fd = fd;
  it = record start { journal = numbered l (opened fd) };
  serial = λ c. (answer file c, refl);
  sizes = λ n bs ok. (bytes_of n (length file) bs [] ok).0;
  no_size = λ e ok. no_error e (length file) [] ok;
  errors = λ e never. never;
  small = small;
  big = big;
  bytes = bytes;
  cache = numbered-IsCache l file (opened fd) (opened-IsCache file fd);
}

pub setting-Starts : Starts Truthful setting
setting-Starts = record {
  opens = opens;
  id = id_file;
  reads = id_file-Reads;
  opens_dir = opens_dir;
  some_id = omega arith;
  fewer = omega arith;
  completes = completes;
}

module _ {U S : Type 0} (apply : U → S → S) (file : List ℕ) where
  abbrev serial_task : Task U → S → Step S
  serial_task ended s = done s
  serial_task (failed e) s = fail e
  serial_task faulted s = fault
  serial_task exhausted s = out_of_fuel
  serial_task (waiting c k) s = serial_task (k (answer file c)) s
  serial_task (update u t) s = serial_task t (apply u s)

  abbrev pub serial : List (Task U) → S → Step S
  serial [] s = done s
  serial (t ∷ ts) s = serial_task t s >>= serial ts

  Reaches-here :
      (Ok : Call → Reply → Type 0) (t : Task U) (s : S) (Q : List U → Type 0) (rest : Pool U)
      → Promises Ok Never Q t
      → ((c : Call) → Ok c (answer file c))
      → (end : S) × (serial_task t s ≡ done end)
        × Reaches apply ((Ok, t) ∷ rest) s ((Ok, ended) ∷ rest) end
  Reaches-here Ok ended s Q rest h a = (s, refl, still)
  Reaches-here Ok (failed e) s Q rest h a = absurd h
  Reaches-here Ok faulted s Q rest h a = absurd h
  Reaches-here Ok exhausted s Q rest h a = absurd h
  Reaches-here Ok (waiting c k) s Q rest h a =
      let r = answer file c in
      let (end, e, m) = Reaches-here Ok (k r) s Q rest (h r (a c)) a in
      (end, e, turn (here (replied r (a c))) m)
  Reaches-here Ok (update u t) s Q rest h a =
      let (end, e, m) = Reaches-here Ok t (apply u s) (λ us. Q (u ∷ us)) rest h a in
      (end, e, turn (here updated) m)

  Reaches-later :
      (w : (Call → Reply → Type 0) × Task U) {p q : Pool U} {s t : S}
      → Reaches apply p s q t
      → Reaches apply (w ∷ p) s (w ∷ q) t
  Reaches-later w still = still
  Reaches-later w (turn m h) = turn (later m) (Reaches-later w h)

  -- Every world of the pool allows the answers about the file.
  abbrev pub Answer : Pool U → Type 0
  Answer [] = Unit
  Answer ((Ok, t) ∷ p) = ((c : Call) → Ok c (answer file c)) × Answer p

  serial_lem :
      (p : Pool U) (s : S) (Qs : List (List U → Type 0))
      → PromiseAll Never Qs p
      → Answer p
      → (end : S) × (q : Pool U) × (serial (chains p) s ≡ done end)
        × Reaches apply p s q end
        × AllEnded q
  serial_lem [] s [] h a = (s, [], refl, still, tt)
  serial_lem [] s (Q ∷ Qs) h a = absurd h
  serial_lem (x ∷ p) s [] h a = absurd h
  serial_lem ((Ok, t) ∷ p) s (Q ∷ Qs) (h, serves, hs) (a, more) =
      let (s1, e1, m1) = Reaches-here Ok t s Q p h a in
      let (s2, q, e2, m2, all) = serial_lem p s1 Qs hs more in
      (
        s2,
        (Ok, ended) ∷ q,
        ap (λ (m : Step S). m >>= serial (chains p)) e1 ∙ e2,
        Reaches-trans apply m1 (Reaches-later (Ok, ended) m2),
        all,
      )

  -- Such an `iou_run` drives tasks that keep promises.
  pub serial-Drives :
      (p : Pool U) (s : S) (Qs : List (List U → Type 0))
      → PromiseAll Never Qs p
      → Answer p
      → Drives apply p s (serial (chains p) s)
  serial-Drives p s Qs h a =
      let (end, q, e, m, all) = serial_lem p s Qs h a in
      subst (Drives apply p s) (sym e) (returned m all)
