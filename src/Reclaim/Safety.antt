-- ===== src/Reclaim/Safety.antt =====
-- What `jio reclaim tail-waste` does to files, and what it counts.
use jio.Base.{
  ℕ, ◌+◌, ◌*◌, ◌/◌, ◌≤◌, ◌<◌, ◌%◌, ◌^◌, ◌≡◌, refl, arith, ◌==◌, sub64, Bool-cases, inl, inr, ◌⊎◌,
  ==→eq,
}
use jio.Io.{Step, Call, Reply, fail}
use jio.Io.Obeys.{Obeys, Anything}
use jio.Io.Wp.{Wp}
use jio.Format.{ObjectHeader, Header}
use jio.Format.JournalState
use jio.TailWaste.{tail_of}
use jio.Reclaim.{Reclaimed, truncated, reclaim_sized, reclaim_tail_waste}

-- Every call that the chain may make satisfies `P`, whatever the replies.
abbrev pub Asks {ℓ} : {A : Type ℓ} → (Call → Type 0) → Step A → Type 0
Asks P m = Obeys P Anything m

-- `cut` is the end of an object of that size at `offset`, with the padding to a multiple of 8.
pub record IsEnd (offset size cut : ℕ) : Type 0 where
  pub behind : offset + size ≤ cut
  pub padding : cut < offset + size + 8
  pub words : ℕ
  pub aligned : cut ≡ offset + 8 * words

tail_of-IsEnd :
    (h : Header) (o : ObjectHeader)
    → h.tail_object_offset + o.size + 7 < 2 ^ 64
    → IsEnd h.tail_object_offset o.size (tail_of h o)
tail_of-IsEnd h o small = record {
  behind = omega arith;
  padding = omega arith;
  words = (o.size + 7) / 8;
  aligned = omega arith;
}

-- The size is asked for, or the file is cut at the end of its last object and the journal is
-- archived.
abbrev pub Allowed : ℕ → Header → ObjectHeader → Call → Type 0
Allowed fd h o c =
    (c ≡ Call.fstat fd)
    ⊎ ((cut : ℕ) × (c ≡ Call.ftruncate fd cut)
        × IsEnd h.tail_object_offset o.size cut
        × (h.state ≡ JournalState.archived))

truncated-Asks :
    (P : Call → Type 0) (waste : ℕ) (t : Reclaimed) (r : Reply) → Asks P (truncated waste t r)
unfolding truncated
truncated-Asks P waste t (Reply.ok _ _) = tt
truncated-Asks P waste t (Reply.error e) = tt

reclaim_sized-Asks :
    (fd : ℕ) (h : Header) (o : ObjectHeader) (sz : ℕ) (t : Reclaimed)
    → h.tail_object_offset + o.size + 7 < 2 ^ 64
    → Asks (Allowed fd h o) (reclaim_sized fd h (tail_of h o) sz t)
unfolding reclaim_sized
reclaim_sized-Asks fd h o sz t small = elim (Bool-cases (sz == tail_of h o)) [
  | inl e ↦ rw e tt
  | inr e ↦ rw e (elim (Bool-cases (h.state == JournalState.archived)) [
    | inl a ↦ rw a (
      inr (tail_of h o, refl, tail_of-IsEnd h o small, ==→eq h.state 2 a),
      truncated-Asks _ (sub64 sz (tail_of h o)) t,
    )
    | inr a ↦ rw a tt
  ])
]

-- Where the end of the last object does not wrap around in `uint64_t`, the only calls that
-- reclaiming makes on a file are `fstat`, and `ftruncate` at the end of its last object, padded to a
-- multiple of 8 bytes; the latter only for a journal whose state is archived.
pub reclaim_tail_waste-Allowed :
    (fd : ℕ) (h : Header) (o : ObjectHeader) (t : Reclaimed)
    → h.tail_object_offset + o.size + 7 < 2 ^ 64
    → Asks (Allowed fd h o) (reclaim_tail_waste fd h o t)
unfolding reclaim_tail_waste
reclaim_tail_waste-Allowed fd h o t small = (inl refl, reply)
  where
    reply :
        (r : Reply)
        → Asks (Allowed fd h o) (elim r [
          | Reply.error e ↦ fail e
          | Reply.ok sz _ ↦
              reclaim_sized fd h
                (tail_of h o)
                sz
                (record t { n_journals = (t.n_journals + 1) % 2 ^ 32 })
        ])
    reply (Reply.error e) = tt
    reply (Reply.ok sz _) = reclaim_sized-Asks fd h o sz _ small

-- Every journal is counted under exactly one outcome.
abbrev pub IsPartition : Reclaimed → Type 0
IsPartition t =
    t.n_journals % 2 ^ 32 ≡ (t.n_mules + t.n_ignored + t.n_reclaimed + t.n_errored) % 2 ^ 32

-- Any replies, but that `fstat` succeeds.
abbrev pub SizeKnown : Call → Reply → Type 0
SizeKnown (Call.fstat fd) (Reply.error e) = ⊥
SizeKnown c r = Unit

reclaim_sized-IsPartition :
    (fd : ℕ) (h : Header) (tail sz : ℕ) (t : Reclaimed)
    → t.n_journals % 2 ^ 32 ≡ (t.n_mules + t.n_ignored + t.n_reclaimed + t.n_errored + 1) % 2 ^ 32
    → Wp SizeKnown (λ e. ⊥) IsPartition (reclaim_sized fd h tail sz t)
unfolding reclaim_sized truncated
reclaim_sized-IsPartition fd h tail sz t p = elim (Bool-cases (sz == tail)) [
  | inl e ↦ rw e (omega arith)
  | inr e ↦ rw e (elim (Bool-cases (h.state == JournalState.archived)) [
    | inl a ↦ rw a (elim [ Reply.ok _ _ ↦ λ u. omega arith | Reply.error err ↦ λ u. omega arith ])
    | inr a ↦ rw a (omega arith)
  ])
]

-- Where `fstat` succeeds, reclaiming ends without an error also if `ftruncate` fails, and the
-- number of journals stays the sum of those free of waste, ignored, reclaimed and failed, modulo 2
-- ^ 32.
pub reclaim_tail_waste-IsPartition :
    (fd : ℕ) (h : Header) (o : ObjectHeader) (t : Reclaimed)
    → IsPartition t
    → Wp SizeKnown (λ e. ⊥) IsPartition (reclaim_tail_waste fd h o t)
unfolding reclaim_tail_waste
reclaim_tail_waste-IsPartition fd h o t p (Reply.error e) ok = ok
reclaim_tail_waste-IsPartition fd h o t p (Reply.ok sz _) ok =
    reclaim_sized-IsPartition fd h (tail_of h o) sz _ (omega arith)
