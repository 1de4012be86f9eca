-- ===== src/EntryArrays/Walk.antt =====
-- The profile of a whole journal.
use mathlib.Core.Path.{subst}
use jio.Base.{
  ℕ, zero, suc, ◌+◌, ◌%◌, ◌^◌, ◌≤◌, ◌<◌, ◌≡◌, inl, inr, sym, ap, ◌∙◌, List, [], ◌∷◌, arith, length,
  Bool, true, false, ◌==◌, if◌then◌else◌, add64, sub64, align64, Bool-cases, ne→==,
}
use jio.Io.{Call}
use jio.Io.Wp.{Wp, Wp-bind, Wp-mono, allocated-Wp}
use jio.Cache.{journal_read}
use jio.Cache.World.{World}
use jio.Cache.Window.{IsCache}
use jio.Cache.Reads.{Got}
use jio.Format.{ObjectHeader, Header}
use jio.Format.ObjectType
use jio.Format.Endian.{ByteOrder, AreBytes}
use jio.Objects.{Iter, advance, iter_at, journal_iter_next_object}
use jio.Objects.Loads.{object_at, read_inside}
use jio.Objects.Walk.{Objects, advance-object, step_object, step_end, Stepped}
use jio.EntryArrays.{Profile, Stats, per_entry_array_payload, per_object, profile_objects}
use jio.EntryArrays.Counted.{IsCounted, Kept, per_entry_array_payload-Kept}
use jio.EntryArrays.Classes.{classes, stats_of-count, stats_of-classes}

abbrev pub is_array : ObjectHeader → Bool
is_array h = h.type == ObjectType.entry_array

-- Each entry array of a file from `o` has an item's bytes, all of them in the file.
abbrev pub HaveItems : List ℕ → ℕ → List ObjectHeader → Type 0
HaveItems file o [] = Unit {0}
HaveItems file o (h ∷ hs) =
    (is_array h ≡ true → (24 < h.size) × (o + h.size ≤ length file))
    × HaveItems file (add64 o (align64 h.size)) hs

-- The number of entry arrays.
abbrev pub arrays_in : List ObjectHeader → ℕ
arrays_in [] = 0
arrays_in (h ∷ hs) = (if is_array h then 1 else 0) + arrays_in hs

-- The statistics count `n` arrays, and their classes of size add up to their totals.
pub record AddsUp (n : ℕ) (s : Stats) : Type 0 where
  pub seen : s.count % 2 ^ 64 ≡ n % 2 ^ 64
  pub counts : classes s.counts_total % 2 ^ 64 ≡ s.count % 2 ^ 64
  pub unique : classes s.counts_unique % 2 ^ 64 ≡ s.unique % 2 ^ 64

module _ (sha1 : List ℕ → List ℕ) (e : ByteOrder) (header : Header) (file : List ℕ) (w : World file)
    (small : length file < 2 ^ 64) (bytes : AreBytes file) where
  per_array_lem :
      (o : ℕ) (h : ObjectHeader) (it : Iter) (p : Profile)
      → it.offset ≡ o
      → it.object ≡ h
      → IsCache file it.journal
      → IsCounted p
      → is_array it.object ≡ true
      → (24 < h.size) × (o + h.size ≤ length file)
      → Wp w.Ok w.E (λ (j, q). IsCache file j × Kept (add64 p.count 1) q) (per_object sha1 e it p)
  unfolding per_object
  per_array_lem o h it p eo eh c counted array (pos, inside) =
      let size = sub64 it.object.size 24 in
      let same : it.object.size ≡ h.size = ap (λ (x : ObjectHeader). x.size) eh in
      let from : add64 it.offset 24 ≡ o + 24 = omega (arith, eo) in
      let some_bytes : 0 < size = omega (arith, same) in
      let within : add64 it.offset 24 + size ≤ length file = omega (arith, same, eo) in
      rw array λ r ok.
        allocated-Wp w.Ok w.E _ r _
          (λ err q. w.no_memory size err (subst (w.Ok (Call.malloc size)) q ok))
          (Wp-bind w.Ok w.E (Got file (add64 it.offset 24) size) _
            (journal_read (add64 it.offset 24) size it.journal) _
            (read_inside file w small bytes e (add64 it.offset 24) size it.journal some_bytes within
              c)
            λ (payload, j) (r, c').
              Wp-bind w.Ok w.E (Kept (add64 p.count 1)) _
                (per_entry_array_payload sha1 payload (record p { count = add64 p.count 1 })) _
                (per_entry_array_payload-Kept w.Ok w.E w.no_memory sha1 payload p
                  (omega (arith, r.size)) counted)
                λ q kept. (c', kept))

  -- What one object does to the profile.
  per_object_lem :
      (o : ℕ) (h : ObjectHeader) (hs : List ObjectHeader) (it : Iter) (p : Profile)
      → Stepped file w small bytes e header o h it
      → HaveItems file o (h ∷ hs)
      → IsCounted p
      → Wp w.Ok w.E
          (λ (j, q).
            IsCache file j
            × IsCounted q
            × (q.count % 2 ^ 64 ≡ (p.count + (if is_array h then 1 else 0)) % 2 ^ 64))
          (per_object sha1 e it p)
  per_object_lem o h hs it p (eo, eh, c) (items, rest) counted =
      elim (Bool-cases (is_array it.object)) [
        | inl array ↦
            let array' : is_array h ≡ true = ap is_array (sym eh) ∙ array in
            Wp-mono w.Ok w.E _ _ (per_object sha1 e it p)
              (per_array_lem o h it p eo eh c counted array (items array'))
              λ (j, q) (c', (kept, count)). (c', kept, rw array' (omega (arith, count)))
        | inr other ↦
            let other' : is_array h ≡ false = ap is_array (sym eh) ∙ other in
            unfold per_object in rw (other, other') (c, counted, omega arith)
      ]

  -- The profile of a file of objects, whose entry arrays each have an item's bytes and lie inside
  -- of the file, from a profile whose counters are those of its table: given a step more than
  -- there are objects it ends, or the world fails. The statistics then count every entry array of
  -- the file, and their 64 classes of size add up to the number of arrays and to that of the unique
  -- ones, in `uint64_t`.
  pub profile_objects-AddsUp :
      (fuel o : ℕ) (hs : List ObjectHeader) (it : Iter) (p : Profile)
      → length hs < fuel
      → advance header it.offset it.object.size ≡ o
      → Objects file header.tail_object_offset o hs
      → HaveItems file o hs
      → IsCache file it.journal
      → IsCounted p
      → Wp w.Ok w.E (AddsUp (p.count + arrays_in hs)) (profile_objects sha1 e fuel header it p)
  unfolding profile_objects journal_iter_next_object
  profile_objects-AddsUp zero o hs it p lt a objs items c counted = absurd (omega arith)
  profile_objects-AddsUp (suc fuel) o [] it p lt a objs items c counted =
      let (counts, unique) = stats_of-classes p counted in
      rw (a, step_end file w small bytes e header o it objs)
        (record { seen = omega (arith, stats_of-count p); counts = counts; unique = unique })
  profile_objects-AddsUp (suc fuel) o (h ∷ hs) it p lt a (nz, le, at, pos, inside, rest) items c
        counted =
      rw a (
        Wp-bind w.Ok w.E (Stepped file w small bytes e header o (object_at file o)) _
          (iter_at e header o it) _ (step_object file w small bytes e header o it le inside c)
          λ it' (eo, eh, c').
            let same : it'.object ≡ h = eh ∙ at in
            let o' = add64 o (align64 h.size) in
            let moved : advance header it'.offset it'.object.size ≡ o' =
              (λ i. advance header (eo i) (same i).size) ∙ advance-object header o h.size nz pos in
            rw (ne→== it'.offset 0 (λ q. nz (sym eo ∙ q))) (
              Wp-bind w.Ok w.E _ _ (per_object sha1 e it' p) _
                (per_object_lem o h hs it' p (eo, same, c') items counted)
                λ (j, q) (c2, kept, count).
                  Wp-mono w.Ok w.E _ _
                    (profile_objects sha1 e fuel header (record it' { journal = j }) q)
                    (profile_objects-AddsUp fuel o' hs (record it' { journal = j }) q (omega arith)
                      moved rest items.1 c2 kept)
                    λ s all. record {
                      seen = omega (arith, all.seen, count);
                      counts = all.counts;
                      unique = all.unique;
                    }))
